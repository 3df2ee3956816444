-- ===== src/Boxes/Scans.antt =====
-- A batch of the box scan, over a source that has its bytes.
use stream_view.Common.{
  Answers, ℕ, ◌/◌, ◌≤◌, ◌<◌, ◌≡◌, ◌≢◌, ◌⊎◌, Bool, List, [], ◌∷◌, ◌++◌, none, true, false, u64_max,
}
use stream_view.Boxes.{
  Mp4BoxScanner, Mp4BoxRecord, Mp4BoxScanBatch, Mp4BoxScanStatus, complete, in_progress, cancelled,
  Mp4Round, next, last, done, fail, box_batch, box_loop,
}
use stream_view.Boxes.Headers.{NoBox}
use stream_view.Boxes.Rounds.{Spans}
use stream_view.Buffered.Reads.{IsBuffer}
use stream_view.Source.{RandomAccessSource, Holds}

-- Records that stand one behind the other from an offset to another.
abbrev pub Chain : (ℕ → ℕ) → ℕ → List Mp4BoxRecord → ℕ → Type 0
Chain byte from [] to = from ≡ to
Chain byte from (found ∷ records) to =
    (mid : ℕ) × Spans byte from mid found × (from < mid) × Chain byte mid records to

module _ (source : RandomAccessSource) (byte : ℕ → ℕ) (holds : Holds source byte)
    (sized : source.size_bytes ≤ u64_max / 8) (cancellation : Answers) where
  -- A scanner that has not failed, within the source.
  pub record Sound (scanner : Mp4BoxScanner) : Type 0 where
    pub held : IsBuffer source byte scanner.buffer
    pub sound : scanner.failed ≡ false
    pub inside : scanner.cursor ≤ source.size_bytes

  -- Where a scan ends: at the end of the source, or where no box begins.
  abbrev pub Stops : ℕ → Type 0
  Stops offset = (source.size_bytes ≤ offset) ⊎ NoBox byte source.size_bytes offset

  -- How a batch from an offset ends; the Boolean says that the scan had finished before it.
  abbrev pub Scans : Bool → ℕ → ℕ → Mp4BoxScanner × Mp4BoxScanBatch → Type 0
  Scans before from cursor end =
      Sound end.0
      × Chain byte from end.1.records end.0.cursor
      × ((end.1.status ≡ complete)
            × (end.0.finished ≡ true)
            × ((before ≡ true) ⊎ Stops end.0.cursor)
          ⊎ (end.1.status ≡ in_progress) × (cursor < end.0.cursor)
          ⊎ (end.1.status ≡ cancelled) × (cancellation ≢ none))

  abbrev go : ℕ → ℕ → List Mp4BoxRecord → Mp4Round → Mp4BoxScanner × Mp4BoxScanBatch
  go maximum left records round = elim round [
    | next scanner found ↦
        box_loop source cancellation maximum left scanner (records ++ (found ∷ []))
    | last scanner found ↦ (scanner, box_batch complete (records ++ (found ∷ [])) "")
    | done scanner ↦ (scanner, box_batch complete records "")
    | fail scanner message ↦ (scanner, box_batch Mp4BoxScanStatus.source_error records message)
  ]
