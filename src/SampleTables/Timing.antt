-- ===== src/SampleTables/Timing.antt =====
-- The cursors of `Mp4SampleTableIndex` into stts and ctts.
use stream_view.Common.{
  ℕ, List, [], ◌∷◌, Option, none, some, ltb, ◌==◌, ◌||◌, not, if◌then◌else◌, add64, sub64, mul64,
}
use stream_view.Common.Int.{ℤ, pos, ◌+ℤ◌}
use stream_view.SampleTables.{
  Mp4TimeToSampleRow, Mp4CompositionOffsetRow, Answer, ok, refused, refuse_if, inconsistent_tables,
  arithmetic_overflow, multiply_would_overflow, signed_add_would_overflow, unsigned_fits_signed,
  reinterpret_composition_offset,
}
use stream_view.SampleTables.Build.{◌>>=◌, ◌>>◌}

-- `rows` are the rows of stts from `runIndex` on.
pub record TimelineCursor : Type 0 where
  pub rows : List Mp4TimeToSampleRow
  pub ordinal_in_run : ℕ
  pub dts : ℤ

-- A decode time a number of ticks later.
unfoldable pub later_dts : ℤ → ℕ → Answer ℤ
later_dts dts ticks = do
  refuse_if (not (unsigned_fits_signed ticks) || signed_add_would_overflow dts (pos ticks))
      arithmetic_overflow "stts decode timeline overflows"
  ok (dts +ℤ pos ticks)

-- The loop of `seekTimeline`, from the rows that are left on.
unfoldable pub seek_rows : List Mp4TimeToSampleRow → ℕ → ℤ → ℕ → Answer TimelineCursor
seek_rows [] consumed dts sample_index =
    refused inconsistent_tables "stts does not cover the requested sample"
seek_rows (entry ∷ rows) consumed dts sample_index =
    let offset_in_run = sub64 sample_index consumed in
    let here : Answer TimelineCursor = (do
      refuse_if (multiply_would_overflow offset_in_run entry.sample_delta) arithmetic_overflow
          "stts decode time offset overflows"
      at ← later_dts dts (mul64 offset_in_run entry.sample_delta)
      ok (record { rows = entry ∷ rows; ordinal_in_run = offset_in_run; dts = at })) in
    let behind : Answer TimelineCursor = (do
      refuse_if (multiply_would_overflow entry.sample_count entry.sample_delta) arithmetic_overflow
          "stts run duration overflows"
      at ← later_dts dts (mul64 entry.sample_count entry.sample_delta)
      seek_rows rows (add64 consumed entry.sample_count) at sample_index) in
    if ltb sample_index (add64 consumed entry.sample_count) then here else behind

abbrev pub seek_timeline : List Mp4TimeToSampleRow → ℕ → Answer TimelineCursor
seek_timeline rows sample_index = seek_rows rows 0 (pos 0) sample_index

-- The rows behind those that describe no sample.
unfoldable pub skip_empty_rows : List Mp4TimeToSampleRow → List Mp4TimeToSampleRow
skip_empty_rows [] = []
skip_empty_rows (entry ∷ rows) =
    if entry.sample_count == 0 then skip_empty_rows rows else entry ∷ rows

abbrev pub rest_on_row : ℤ → List Mp4TimeToSampleRow → Answer TimelineCursor
rest_on_row dts [] = refused inconsistent_tables "stts runs out of entries before samples"
rest_on_row dts (entry ∷ rows) = ok (record { rows = entry ∷ rows; ordinal_in_run = 0; dts = dts })

-- A cursor stands on a row; the source reads its row without a test.
unfoldable pub advance_rows : List Mp4TimeToSampleRow → ℕ → ℤ → Answer TimelineCursor
advance_rows [] ordinal dts = refused inconsistent_tables "stts runs out of entries before samples"
advance_rows (entry ∷ rows) ordinal dts = do
  at ← later_dts dts entry.sample_delta
  if ltb (add64 ordinal 1) entry.sample_count
      then ok (record { rows = entry ∷ rows; ordinal_in_run = add64 ordinal 1; dts = at })
      else rest_on_row at (skip_empty_rows rows)

abbrev pub advance_timeline : TimelineCursor → Answer TimelineCursor
advance_timeline cursor = advance_rows cursor.rows cursor.ordinal_in_run cursor.dts

abbrev pub duration_at : TimelineCursor → ℕ
duration_at cursor = elim (cursor.rows) [ [] ↦ 0 | entry ∷ rows ↦ entry.sample_delta ]

-- `rows` are the rows of ctts from `runIndex` on.
pub record CompositionCursor : Type 0 where
  pub rows : List Mp4CompositionOffsetRow
  pub ordinal_in_run : ℕ

-- The loop of `seekComposition`.
unfoldable pub seek_offsets : List Mp4CompositionOffsetRow → ℕ → ℕ → Option CompositionCursor
seek_offsets [] consumed sample_index = none
seek_offsets (entry ∷ rows) consumed sample_index =
    if ltb sample_index (add64 consumed entry.sample_count)
    then some (record { rows = entry ∷ rows; ordinal_in_run = sub64 sample_index consumed })
    else seek_offsets rows (add64 consumed entry.sample_count) sample_index

-- Without ctts the cursor stays as it is made.
unfoldable pub seek_composition : List Mp4CompositionOffsetRow → ℕ → Option CompositionCursor
seek_composition [] sample_index = some (record { rows = []; ordinal_in_run = 0 })
seek_composition (entry ∷ rows) sample_index = seek_offsets (entry ∷ rows) 0 sample_index

unfoldable pub skip_empty_offsets : List Mp4CompositionOffsetRow → List Mp4CompositionOffsetRow
skip_empty_offsets [] = []
skip_empty_offsets (entry ∷ rows) =
    if entry.sample_count == 0 then skip_empty_offsets rows else entry ∷ rows

abbrev pub rest_on_offset : List Mp4CompositionOffsetRow → Option CompositionCursor
rest_on_offset [] = none
rest_on_offset (entry ∷ rows) = some (record { rows = entry ∷ rows; ordinal_in_run = 0 })

-- `advanceComposition`; there are no rows to stand on exactly when there is no ctts.
unfoldable pub advance_composition : CompositionCursor → Option CompositionCursor
advance_composition cursor = elim (cursor.rows) [
  | [] ↦ some cursor
  | entry ∷ rows ↦
      if ltb (add64 cursor.ordinal_in_run 1) entry.sample_count
      then some (record cursor { ordinal_in_run = add64 cursor.ordinal_in_run 1 })
      else rest_on_offset (skip_empty_offsets rows)
]

abbrev pub composition_offset_at : ℕ → CompositionCursor → ℤ
composition_offset_at version cursor = elim (cursor.rows) [
  | [] ↦ pos 0
  | entry ∷ rows ↦ reinterpret_composition_offset entry.raw_sample_offset version
]
