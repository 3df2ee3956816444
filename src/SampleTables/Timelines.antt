-- ===== src/SampleTables/Timelines.antt =====
-- Decode times by the deltas of single samples, and how the cursor into stts follows them.
use stream_view.Common.{
  ℕ, zero, suc, ◌+◌, ◌-◌, ◌*◌, ◌≤◌, ◌<◌, ◌≡◌, sym, ap, ◌∙◌, List, [], ◌∷◌, Bool-cases, inl, inr,
  true, false, ltb, if◌then◌else◌, arith, add64, sub64, u64_max,
}
use stream_view.Common.Int.{pos, i64_max}
use stream_view.SampleTables.{Mp4TimeToSampleRow, ok}
use stream_view.SampleTables.Overflow.{later_dts-scaled}
use stream_view.SampleTables.Timing.{TimelineCursor, seek_rows, seek_timeline, duration_at}

-- How many samples the rows describe.
unfoldable pub described : List Mp4TimeToSampleRow → ℕ
described [] = 0
described (entry ∷ rows) = entry.sample_count + described rows

-- The delta of a sample.
unfoldable pub delta_of : List Mp4TimeToSampleRow → ℕ → ℕ
delta_of [] i = 0
delta_of (entry ∷ rows) i =
    if ltb i entry.sample_count then entry.sample_delta else delta_of rows (i - entry.sample_count)

-- The deltas of the samples before one.
unfoldable pub decode_time : List Mp4TimeToSampleRow → ℕ → ℕ
decode_time rows zero = 0
decode_time rows (suc i) = decode_time rows i + delta_of rows i

pub decode_time-run :
    (entry : Mp4TimeToSampleRow) (rows : List Mp4TimeToSampleRow) (i : ℕ)
    → i ≤ entry.sample_count
    → decode_time (entry ∷ rows) i ≡ i * entry.sample_delta
unfolding decode_time delta_of
decode_time-run entry rows zero h = omega arith
decode_time-run entry rows (suc i) h = ground (arith, decode_time-run entry rows i (omega arith))

delta_of-behind :
    (entry : Mp4TimeToSampleRow) (rows : List Mp4TimeToSampleRow) (i : ℕ)
    → delta_of (entry ∷ rows) (entry.sample_count + i) ≡ delta_of rows i
unfolding delta_of
delta_of-behind entry rows i =
    let same : entry.sample_count + i - entry.sample_count ≡ i = omega arith in
    ground (arith, ap (delta_of rows) same)

pub decode_time-behind :
    (entry : Mp4TimeToSampleRow) (rows : List Mp4TimeToSampleRow) (i : ℕ)
    → decode_time (entry ∷ rows) (entry.sample_count + i)
      ≡ entry.sample_count * entry.sample_delta + decode_time rows i
unfolding decode_time
decode_time-behind entry rows zero =
    let none_more : entry.sample_count + 0 ≡ entry.sample_count = omega arith in
    ap (decode_time (entry ∷ rows)) none_more
    ∙ (decode_time-run entry rows entry.sample_count (omega arith) ∙ omega arith)
decode_time-behind entry rows (suc i) =
    let one_more : entry.sample_count + suc i ≡ suc (entry.sample_count + i) = omega arith in
    ap (decode_time (entry ∷ rows)) one_more
    ∙ omega (arith, decode_time-behind entry rows i, delta_of-behind entry rows i)

-- The rows from a sample's row on, and the sample's place in that row.
unfoldable pub place : List Mp4TimeToSampleRow → ℕ → List Mp4TimeToSampleRow × ℕ
place [] i = ([], 0)
place (entry ∷ rows) i =
    if ltb i entry.sample_count then (entry ∷ rows, i) else place rows (i - entry.sample_count)

abbrev pub cursor_at : List Mp4TimeToSampleRow → ℕ → ℕ → TimelineCursor
cursor_at rows i dts = record {
  rows = (place rows i).0;
  ordinal_in_run = (place rows i).1;
  dts = pos dts;
}

pub seek_rows-ok :
    (rows : List Mp4TimeToSampleRow) (consumed i d : ℕ)
    → consumed + described rows ≤ u64_max
    → i < described rows
    → d + decode_time rows i ≤ i64_max
    → seek_rows rows consumed (pos d) (consumed + i)
      ≡ ok (cursor_at rows i (d + decode_time rows i))
unfolding seek_rows described place
seek_rows-ok [] consumed i d fits inside bounded = absurd (omega arith)
seek_rows-ok (entry ∷ rows) consumed i d fits inside bounded =
    let end : add64 consumed entry.sample_count ≡ consumed + entry.sample_count = omega arith in
    let ordinal : sub64 (consumed + i) consumed ≡ i = omega arith in
    elim (Bool-cases (ltb i entry.sample_count)) [
      | inl e ↦
          let here : ltb (consumed + i) (consumed + entry.sample_count) ≡ true =
            ground (arith, e) in
          let time = decode_time-run entry rows i (ground (arith, e)) in
          rw (end, ordinal, here, e, time)
            (later_dts-scaled d i entry.sample_delta _ _ _ (omega (arith, bounded, time)))
      | inr e ↦
          let behind : ltb (consumed + i) (consumed + entry.sample_count) ≡ false =
            ground (arith, e) in
          let c = entry.sample_count in
          let rest_i = i - c in
          let split : c + rest_i ≡ i = ground (arith, e) in
          let time : decode_time (entry ∷ rows) i
              ≡ c * entry.sample_delta + decode_time rows rest_i =
            ap (decode_time (entry ∷ rows)) (sym split) ∙ decode_time-behind entry rows rest_i in
          let at : consumed + i ≡ consumed + c + rest_i = omega arith in
          let sum : d + c * entry.sample_delta + decode_time rows rest_i
              ≡ d + decode_time (entry ∷ rows) i =
            omega arith in
          rw (end, ordinal, behind, e)
            (later_dts-scaled d c entry.sample_delta _ _ _ (omega arith)
              ∙ (ap (seek_rows rows (consumed + c) (pos (d + c * entry.sample_delta))) at
                  ∙ (seek_rows-ok rows (consumed + c) rest_i (d + c * entry.sample_delta)
                        (omega arith) (omega arith) (omega arith)
                      ∙ ap (λ t. ok (cursor_at rows rest_i t)) sum)))
    ]

pub duration_at-place :
    (rows : List Mp4TimeToSampleRow) (i d : ℕ)
    → i < described rows
    → duration_at (cursor_at rows i d) ≡ delta_of rows i
unfolding described place delta_of
duration_at-place [] i d h = absurd (omega arith)
duration_at-place (entry ∷ rows) i d h =
    ground (arith, duration_at-place rows (i - entry.sample_count) d)

pub seek_timeline-ok :
    (rows : List Mp4TimeToSampleRow) (i : ℕ)
    → described rows ≤ u64_max
    → i < described rows
    → decode_time rows i ≤ i64_max
    → seek_timeline rows i ≡ ok (cursor_at rows i (decode_time rows i))
seek_timeline-ok rows i fits inside bounded =
    let from_zero : 0 + i ≡ i = omega arith in
    let time : 0 + decode_time rows i ≡ decode_time rows i = omega arith in
    ap (seek_rows rows 0 (pos 0)) (sym from_zero)
    ∙ (seek_rows-ok rows 0 i 0 (omega arith) inside (omega arith)
        ∙ ap (λ t. ok (cursor_at rows i t)) time)
