-- ===== src/SampleTables/TimelineBounds.antt =====
-- When the cursor into stts refuses: decode times beyond `qint64`.
use stream_view.Common.{
  ℕ, suc, ◌+◌, ◌-◌, ◌*◌, ◌≤◌, ◌<◌, ◌≡◌, ◌↔◌, refl, sym, ap, subst, ◌∙◌, List, [], ◌∷◌, Bool-cases,
  inl, inr, true, false, ltb, leb, arith, add64, sub64, u64_max,
}
use stream_view.Common.Int.{pos, i64_max}
use stream_view.SampleTables.{Mp4TimeToSampleRow, ok}
use stream_view.SampleTables.Overflow.{
  later_dts-scaled-OkAll, later_dts-OkAll, every-OkAll, OkAll-elim, map-OkAll, OkAll,
}
use stream_view.SampleTables.Timing.{
  TimelineCursor, seek_rows, seek_timeline, advance_rows, advance_timeline, duration_at,
}
use stream_view.SampleTables.Timelines.{
  described, delta_of, decode_time, decode_time-run, decode_time-behind, place, cursor_at,
  duration_at-place, seek_timeline-ok,
}
use stream_view.SampleTables.TimelineSteps.{advance_timeline-ok}

-- A seek that succeeds stands at the sample, whose decode time is within `qint64`.
pub seek_rows-OkAll :
    (rows : List Mp4TimeToSampleRow) (consumed i d : ℕ)
    → consumed + described rows ≤ u64_max
    → i < described rows
    → d ≤ i64_max
    → OkAll
        (λ cursor. d + decode_time rows i ≤ i64_max)
        (seek_rows rows consumed (pos d) (consumed + i))
unfolding seek_rows described OkAll
seek_rows-OkAll [] consumed i d fits inside small = tt
seek_rows-OkAll (entry ∷ rows) consumed i d fits inside small =
    let c = entry.sample_count in
    let end : add64 consumed c ≡ consumed + c = omega arith in
    let ordinal : sub64 (consumed + i) consumed ≡ i = omega arith in
    elim (Bool-cases (ltb i c)) [
      | inl e ↦
          let here : ltb (consumed + i) (consumed + c) ≡ true = ground (arith, e) in
          let time = decode_time-run entry rows i (ground (arith, e)) in
          rw (end, ordinal, here)
            (later_dts-scaled-OkAll (λ cursor. d + decode_time (entry ∷ rows) i ≤ i64_max) d i
              entry.sample_delta _ _ _ small (λ bounded. omega (arith, bounded, time)))
      | inr e ↦
          let behind : ltb (consumed + i) (consumed + c) ≡ false = ground (arith, e) in
          let rest_i = i - c in
          let split : c + rest_i ≡ i = ground (arith, e) in
          let time : decode_time (entry ∷ rows) i
              ≡ c * entry.sample_delta + decode_time rows rest_i =
            ap (decode_time (entry ∷ rows)) (sym split) ∙ decode_time-behind entry rows rest_i in
          let at : consumed + c + rest_i ≡ consumed + i = omega arith in
          let sum : d + c * entry.sample_delta + decode_time rows rest_i
              ≡ d + decode_time (entry ∷ rows) i =
            omega arith in
          rw (end, ordinal, behind)
            (later_dts-scaled-OkAll (λ cursor. d + decode_time (entry ∷ rows) i ≤ i64_max) d c
              entry.sample_delta _ _ _ small
              (λ bounded.
                rw (← sum, ← at)
                  (seek_rows-OkAll rows (consumed + c) rest_i (d + c * entry.sample_delta)
                    (omega arith) (omega arith) bounded)))
    ]

pub advance_timeline-OkAll :
    (rows : List Mp4TimeToSampleRow) (i d : ℕ)
    → i < described rows
    → d ≤ i64_max
    → OkAll (λ next. d + delta_of rows i ≤ i64_max) (advance_timeline (cursor_at rows i d))
unfolding described place delta_of advance_rows
advance_timeline-OkAll [] i d inside small = absurd (omega arith)
advance_timeline-OkAll (entry ∷ rows) i d inside small =
    elim (Bool-cases (ltb i entry.sample_count)) [
      | inl e ↦ rw e (
          later_dts-OkAll (λ next. d + entry.sample_delta ≤ i64_max) d entry.sample_delta _ small
            (λ bounded. every-OkAll _ _ (λ next. bounded)))
      | inr e ↦
          rw e (advance_timeline-OkAll rows (i - entry.sample_count) d (ground (arith, e)) small)
    ]

-- A step from a sample that is not the last leads to the next one, or is refused.
pub advance_timeline-next :
    (rows : List Mp4TimeToSampleRow) (i : ℕ)
    → described rows ≤ u64_max
    → suc i < described rows
    → decode_time rows i ≤ i64_max
    → OkAll
        (λ next.
          (next ≡ cursor_at rows (suc i) (decode_time rows (suc i)))
          × (decode_time rows (suc i) ≤ i64_max))
        (advance_timeline (cursor_at rows i (decode_time rows i)))
unfolding decode_time OkAll
advance_timeline-next rows i fits inside bounded =
    let d = decode_time rows i in
    elim (Bool-cases (leb (d + delta_of rows i) i64_max)) [
      | inl e ↦
          let small : d + delta_of rows i ≤ i64_max = ground (arith, e) in
          rw (advance_timeline-ok rows i d fits inside small) (refl, small)
      | inr e ↦
          map-OkAll (λ next. d + delta_of rows i ≤ i64_max) _
            (advance_timeline (cursor_at rows i d))
            (λ next small. absurd (ground (arith, e, small)))
            (advance_timeline-OkAll rows i d (omega arith) bounded)
    ]

-- A seek that is not refused stands at the sample.
pub seek_timeline-stands :
    (rows : List Mp4TimeToSampleRow) (i : ℕ)
    → described rows ≤ u64_max
    → i < described rows
    → OkAll
        (λ cursor.
          (cursor ≡ cursor_at rows i (decode_time rows i)) × (decode_time rows i ≤ i64_max))
        (seek_timeline rows i)
unfolding OkAll
seek_timeline-stands rows i fits inside = elim (Bool-cases (leb (decode_time rows i) i64_max)) [
  | inl e ↦
      let small : decode_time rows i ≤ i64_max = ground (arith, e) in
      rw (seek_timeline-ok rows i fits inside small) (refl, small)
  | inr e ↦
      let from_zero : 0 + i ≡ i = omega arith in
      let sought : OkAll (λ cursor. 0 + decode_time rows i ≤ i64_max) (seek_timeline rows i) =
        subst (λ k. OkAll (λ cursor. 0 + decode_time rows i ≤ i64_max) (seek_rows rows 0 (pos 0) k))
          from_zero (seek_rows-OkAll rows 0 i 0 (omega arith) inside (omega arith)) in
      map-OkAll (λ cursor. 0 + decode_time rows i ≤ i64_max) _ (seek_timeline rows i)
        (λ cursor small. absurd (ground (arith, e, small))) sought
]

-- A seek to a sample that stts describes succeeds exactly when the sum of the deltas of the samples
-- before it is within `qint64`: the cursor then has that sum as its decode time and the sample's
-- delta as its duration.
pub seek_timeline_iff :
    (rows : List Mp4TimeToSampleRow) (i : ℕ)
    → described rows ≤ u64_max
    → i < described rows
    → (decode_time rows i ≤ i64_max) ↔ (
        (cursor : TimelineCursor) × (seek_timeline rows i ≡ ok cursor)
        × (cursor.dts ≡ pos (decode_time rows i))
        × (duration_at cursor ≡ delta_of rows i))
seek_timeline_iff rows i fits inside = (
  λ small. (
    cursor_at rows i (decode_time rows i),
    seek_timeline-ok rows i fits inside small,
    refl,
    duration_at-place rows i (decode_time rows i) inside,
  ),
  λ (cursor, e, timed, lasts).
      (OkAll-elim _ (seek_timeline rows i) cursor e (seek_timeline-stands rows i fits inside)).1,
)
