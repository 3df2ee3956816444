-- ===== src/SampleTables/TimelineSteps.antt =====
-- The step of the cursor into stts, against a seek to the next sample.
use stream_view.Common.{
  ℕ, suc, ◌+◌, ◌-◌, ◌≤◌, ◌<◌, ◌≡◌, refl, List, [], ◌∷◌, Bool-cases, inl, inr, false, ltb, ◌==◌,
  arith, add64, u64_max,
}
use stream_view.Common.Int.{pos, i64_max}
use stream_view.SampleTables.{Mp4TimeToSampleRow, ok}
use stream_view.SampleTables.Overflow.{later_dts-ok}
use stream_view.SampleTables.Timing.{
  TimelineCursor, rest_on_row, seek_timeline, skip_empty_rows, advance_rows, advance_timeline,
}
use stream_view.SampleTables.Timelines.{
  described, delta_of, decode_time, place, cursor_at, seek_timeline-ok,
}

place-zero : (rows : List Mp4TimeToSampleRow) → place rows 0 ≡ (skip_empty_rows rows, 0)
unfolding place skip_empty_rows
place-zero [] = refl
place-zero (entry ∷ rows) = ground (arith, place-zero rows)

rest_on_row-place :
    (rows : List Mp4TimeToSampleRow) (d : ℕ)
    → 0 < described rows
    → rest_on_row (pos d) (skip_empty_rows rows) ≡ ok (cursor_at rows 0 d)
unfolding described place skip_empty_rows
rest_on_row-place [] d h = absurd (omega arith)
rest_on_row-place (entry ∷ rows) d h = elim (Bool-cases (entry.sample_count == 0)) [
  | inl e ↦
      let none_here : ltb 0 entry.sample_count ≡ false = ground (arith, e) in
      let first : 0 - entry.sample_count ≡ 0 = omega arith in
      rw (e, none_here, first) (rest_on_row-place rows d (ground (arith, e)))
  | inr e ↦ ground (arith, e)
]

pub advance_timeline-ok :
    (rows : List Mp4TimeToSampleRow) (i d : ℕ)
    → described rows ≤ u64_max
    → suc i < described rows
    → d + delta_of rows i ≤ i64_max
    → advance_timeline (cursor_at rows i d) ≡ ok (cursor_at rows (suc i) (d + delta_of rows i))
unfolding described place delta_of advance_rows
advance_timeline-ok [] i d fits inside bounded = absurd (omega arith)
advance_timeline-ok (entry ∷ rows) i d fits inside bounded =
    let next : add64 i 1 ≡ suc i = omega arith in
    elim (Bool-cases (ltb i entry.sample_count)) [
      | inl e ↦
          let at = later_dts-ok d entry.sample_delta (ground (arith, e, bounded)) in
          elim (Bool-cases (ltb (suc i) entry.sample_count)) [
            | inl more ↦ rw (e, next, more, at) refl
            | inr last ↦
                let first : suc i - entry.sample_count ≡ 0 = ground (arith, e, last) in
                rw (e, next, last, at, first)
                  (rest_on_row-place rows (d + entry.sample_delta) (ground (arith, e, last)))
          ]
      | inr e ↦
          let later : ltb (suc i) entry.sample_count ≡ false = ground (arith, e) in
          let one_more : suc i - entry.sample_count ≡ suc (i - entry.sample_count) =
            ground (arith, e) in
          rw (e, later, one_more)
            (advance_timeline-ok rows (i - entry.sample_count) d (omega arith) (ground (arith, e))
              (ground (arith, e, bounded)))
    ]

-- One step of the cursor into stts is a fresh seek to the next sample: both succeed and give the
-- same cursor, when stts describes that sample and its decode time is within `qint64`.
pub advance_timeline-seek_timeline :
    (rows : List Mp4TimeToSampleRow) (i : ℕ)
    → described rows ≤ u64_max
    → suc i < described rows
    → decode_time rows (suc i) ≤ i64_max
    → (cursor next : TimelineCursor) × (seek_timeline rows i ≡ ok cursor)
      × (advance_timeline cursor ≡ ok next)
      × (seek_timeline rows (suc i) ≡ ok next)
unfolding decode_time
advance_timeline-seek_timeline rows i fits inside bounded = (
  cursor_at rows i (decode_time rows i),
  cursor_at rows (suc i) (decode_time rows (suc i)),
  seek_timeline-ok rows i fits (omega arith) (omega arith),
  advance_timeline-ok rows i (decode_time rows i) fits inside bounded,
  seek_timeline-ok rows (suc i) fits inside bounded,
)
