-- ===== src/Boxes/Rounds.antt =====
-- A round of the box scan, over a source that has its bytes: it takes one box from the cursor on.
use stream_view.Common.{ℕ, ◌-◌, ◌*◌, ◌/◌, ◌≤◌, ◌<◌, ◌≡◌, ◌⊎◌, some, true, false, u64_max}
use stream_view.Boxes.{Mp4BoxRecord, Mp4Round, next, last, done, fail}
use stream_view.Boxes.Headers.{NoBox, declared_at}
use stream_view.Buffered.Reads.{IsBuffer}
use stream_view.Source.{RandomAccessSource, Holds}

-- The record describes the bytes from one offset to another as the box whose header they begin with.
pub record Spans (byte : ℕ → ℕ) (from to : ℕ) (found : Mp4BoxRecord) : Type 0 where
  pub declared : found.declared_box_size ≡ declared_at byte from
  pub begins : found.box_offset ≡ from
  pub span : found.box_span ≡ some (record { start = from * 8; bit_length = (to - from) * 8 })
  pub sized :
      (found.truncated ≡ false) × (found.terminal ≡ false) × (found.declared_box_size ≡ to - from)
      ⊎ (found.truncated ≡ false) × (found.terminal ≡ true) × (found.declared_box_size ≡ 0)
      ⊎ (found.truncated ≡ true) × (found.terminal ≡ true) × (to - from < found.declared_box_size)

module _ (source : RandomAccessSource) (byte : ℕ → ℕ) (holds : Holds source byte)
    (sized : source.size_bytes ≤ u64_max / 8) where
  -- What a round from a cursor gives: a box that starts there and that the scanner has passed, the
  -- last one with the source's end, or the end of the scan where no box begins; it does not fail.
  abbrev pub Takes : ℕ → Mp4Round → Type 0
  Takes from (next scanner found) =
      Spans byte from scanner.cursor found
      × (from < scanner.cursor)
      × (scanner.cursor ≤ source.size_bytes)
      × IsBuffer source byte scanner.buffer
      × (scanner.failed ≡ false)
  Takes from (last scanner found) =
      Spans byte from scanner.cursor found
      × (from < scanner.cursor)
      × (scanner.cursor ≡ source.size_bytes)
      × (scanner.finished ≡ true)
      × IsBuffer source byte scanner.buffer
      × (scanner.failed ≡ false)
  Takes from (done scanner) =
      (scanner.cursor ≡ from)
      × NoBox byte source.size_bytes from
      × (scanner.finished ≡ true)
      × IsBuffer source byte scanner.buffer
      × (scanner.failed ≡ false)
  Takes from (fail scanner message) = (scanner.failed ≡ true) × (scanner.failed ≡ false)
