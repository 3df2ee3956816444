-- ===== src/SampleTables/LayoutSteps.antt =====
-- The step of the cursor into stsc leads to the place of the next sample.
use stream_view.Common.{
  ℕ, suc, ◌+◌, ◌-◌, ◌*◌, ◌≤◌, ◌<◌, ◌≡◌, refl, sym, ap, ◌∙◌, List, [], ◌∷◌, Bool-cases, inl, inr,
  arith, subst, ltb, leb, add64, sub64, u64_max, IsU64,
}
use stream_view.SampleTables.{Mp4SampleTableIndex, Mp4SampleToChunkRow, add_would_overflow}
use stream_view.SampleTables.Chunks.{
  ChunkCursor, read_chunk_offset, enter_chunk, leave_run, leave_chunk, run_chunk_limit, advance_on,
  advance_cursor,
}
use stream_view.SampleTables.Overflow.{OkAll, map-OkAll}
use stream_view.SampleTables.Gives.{Gives, skip-Gives, refuse_if-Gives}
use stream_view.SampleTables.Checked.{Ascending, chunk_samples}
use stream_view.SampleTables.Layout.{
  run_end, run_samples, InRun, Stands, ordered_run, chunk_samples-run, Ascending-tail,
}

module _ (index : Mp4SampleTableIndex) (maximum : ℕ) where
  abbrev all_chunks : ℕ
  all_chunks = index.tables.chunk_count

  -- The start of a chunk does not move the cursor.
  enter_chunk-Stands :
      (rows : List Mp4SampleToChunkRow) (i : ℕ) (cursor : ChunkCursor)
      → ((start : ℕ) → Stands all_chunks rows i (record cursor { chunk_start_offset = start }))
      → Gives (Stands all_chunks rows i) (enter_chunk index maximum cursor)
  unfolding enter_chunk OkAll
  enter_chunk-Stands rows i cursor stands =
      skip-Gives _ (read_chunk_offset index maximum cursor.chunk_index) _
        (λ start reads. stands start)

  -- Behind the last sample of a run: the first sample of the next run.
  leave_run-Stands :
      (previous i : ℕ) (entry : Mp4SampleToChunkRow) (rows : List Mp4SampleToChunkRow)
      (cursor : ChunkCursor)
      → IsU64 all_chunks
      → Ascending index.tables previous (entry ∷ rows)
      → chunk_samples all_chunks (entry ∷ rows) ≤ u64_max
      → suc i ≡ run_samples all_chunks entry rows
      → cursor.ordinal_in_chunk ≡ 0
      → Gives (Stands all_chunks (entry ∷ rows) (suc i)) (leave_run index maximum cursor entry rows)
  unfolding leave_run OkAll
  leave_run-Stands previous i entry [] cursor wide valid few end first = λ reads. tt
  leave_run-Stands previous i entry (next ∷ rows) cursor wide valid few end first =
      let total = chunk_samples-run all_chunks entry (next ∷ rows) in
      let next_total = chunk_samples-run all_chunks next rows in
      let later = Ascending-tail index.tables previous entry (next ∷ rows) valid in
      let facts = ordered_run index.tables entry.first_chunk next rows wide later (omega arith) in
      let none_left : suc i - run_samples all_chunks entry (next ∷ rows) ≡ 0 = omega (arith, end) in
      let chunk : sub64 next.first_chunk 1 ≡ next.first_chunk - 1 = omega (arith, wide, facts) in
      let no_chunk : next.first_chunk - 1 + 1 - next.first_chunk ≡ 0 = omega (arith, facts) in
      enter_chunk-Stands (entry ∷ next ∷ rows) (suc i) _ (λ start.
        unfold Stands in
        inr (
          omega (arith, end),
          rw (none_left, chunk)
              (inl (record {
                on = refl;
                behind = omega arith;
                before = omega (arith, facts);
                placed = omega (arith, facts, first);
                counted = rw (no_chunk, first) (omega arith);
                names = refl;
              })),
        ))

  run_chunk_limit-run_end :
      (rows : List Mp4SampleToChunkRow)
      → IsU64 all_chunks
      → 0 < run_end all_chunks rows
      → run_end all_chunks rows ≤ all_chunks + 1
      → run_chunk_limit index maximum rows ≡ run_end all_chunks rows - 1
  unfolding run_end
  run_chunk_limit-run_end [] wide some_chunk few = omega arith
  run_chunk_limit-run_end (next ∷ rows) wide some_chunk few = omega (arith, wide)

  leave_chunk-Stands :
      (previous i : ℕ) (entry : Mp4SampleToChunkRow) (rows : List Mp4SampleToChunkRow)
      (cursor : ChunkCursor)
      → IsU64 all_chunks
      → Ascending index.tables previous (entry ∷ rows)
      → chunk_samples all_chunks (entry ∷ rows) ≤ u64_max
      → InRun all_chunks entry rows i cursor
      → cursor.ordinal_in_chunk + 1 ≡ entry.samples_per_chunk
      → Gives
          (Stands all_chunks (entry ∷ rows) (suc i))
          (leave_chunk index maximum cursor entry rows)
  unfolding leave_chunk
  leave_chunk-Stands previous i entry rows cursor wide valid few run last =
      let total = chunk_samples-run all_chunks entry rows in
      let facts = ordered_run index.tables previous entry rows wide valid (omega arith) in
      let limit : run_chunk_limit index maximum rows ≡ run_end all_chunks rows - 1 =
        run_chunk_limit-run_end rows wide (omega (arith, facts)) (omega (arith, facts)) in
      let full : cursor.chunk_index + 1 + 1 - entry.first_chunk
          ≡ suc (cursor.chunk_index + 1 - entry.first_chunk) =
        omega (arith, run.behind) in
      let counted : suc i
          ≡ (cursor.chunk_index + 1 + 1 - entry.first_chunk) * entry.samples_per_chunk =
        rw full (omega (arith, run.counted, last)) in
      let exact : add64 cursor.chunk_index 1 ≡ cursor.chunk_index + 1 =
        omega (arith, wide, run.before, facts) in
      elim (Bool-cases (leb (run_end all_chunks rows - 1) (cursor.chunk_index + 1))) [
        | inl e ↦
            let end : cursor.chunk_index + 1 + 1 ≡ run_end all_chunks rows =
              ground (arith, e, run.before) in
            let all : suc i ≡ run_samples all_chunks entry rows =
              counted ∙ ap (λ c. (c - entry.first_chunk) * entry.samples_per_chunk) end in
            rw (limit, exact, e) (leave_run-Stands previous i entry rows _ wide valid few all refl)
        | inr e ↦
            rw (limit, exact, e)
              (enter_chunk-Stands (entry ∷ rows) (suc i) _ (λ start.
                unfold Stands in
                inl (record {
                  on = run.on;
                  behind = omega (arith, run.behind);
                  before = ground (arith, e);
                  placed = omega (arith, facts);
                  counted = omega (arith, counted);
                  names = run.names;
                })))
      ]

  -- The step on the row at which the cursor stands.
  advance_on-Stands :
      (previous i size : ℕ) (entry : Mp4SampleToChunkRow) (rows : List Mp4SampleToChunkRow)
      (cursor : ChunkCursor)
      → IsU64 all_chunks
      → Ascending index.tables previous (entry ∷ rows)
      → chunk_samples all_chunks (entry ∷ rows) ≤ u64_max
      → suc i ≤ u64_max
      → InRun all_chunks entry rows i cursor
      → Gives
          (Stands all_chunks (entry ∷ rows) (suc i))
          (advance_on index maximum cursor (entry ∷ rows) size)
  unfolding advance_on Stands OkAll
  advance_on-Stands previous i size entry rows cursor wide valid few small run =
      let next : add64 cursor.ordinal_in_chunk 1 ≡ cursor.ordinal_in_chunk + 1 =
        omega (arith, small, run.counted) in
      elim (Bool-cases (ltb (cursor.ordinal_in_chunk + 1) entry.samples_per_chunk)) [
        | inl e ↦
            rw (next, e)
              (refuse_if-Gives _ (add_would_overflow cursor.offset_in_chunk size) _ _ _
                (λ fits reads. inl (record {
                  on = run.on;
                  behind = run.behind;
                  before = run.before;
                  placed = ground (arith, e);
                  counted = omega (arith, run.counted);
                  names = run.names;
                })))
        | inr e ↦
            rw (next, e)
              (leave_chunk-Stands previous i entry rows cursor wide valid few run
                (ground (arith, e, run.placed)))
      ]

  -- A step from the place of a sample is refused or leads to the place of the next one.
  pub advance_cursor-Stands :
      (previous i size : ℕ) (rows : List Mp4SampleToChunkRow) (cursor : ChunkCursor)
      → IsU64 all_chunks
      → Ascending index.tables previous rows
      → chunk_samples all_chunks rows ≤ u64_max
      → suc i ≤ u64_max
      → Stands all_chunks rows i cursor
      → Gives (Stands all_chunks rows (suc i)) (advance_cursor index maximum cursor size)
  unfolding advance_cursor Stands
  advance_cursor-Stands previous i size [] cursor wide valid few small stands = absurd stands
  advance_cursor-Stands previous i size (entry ∷ rows) cursor wide valid few small (inl run) =
      subst
        (λ on.
          Gives (Stands all_chunks (entry ∷ rows) (suc i))
            (advance_on index maximum cursor on size))
        (sym run.on) (advance_on-Stands previous i size entry rows cursor wide valid few small run)
  advance_cursor-Stands previous i size (entry ∷ rows) cursor wide valid few small
        (inr (behind, stands)) =
      let run = run_samples all_chunks entry rows in
      let total = chunk_samples-run all_chunks entry rows in
      let run_less : suc i - run ≡ suc (i - run) = omega (arith, behind) in
      λ reads.
        map-OkAll (Stands all_chunks rows (suc (i - run))) _
          (advance_cursor index maximum cursor size reads).1
          (λ next stands. inr (omega (arith, behind), rw run_less stands))
          (advance_cursor-Stands entry.first_chunk (i - run) size rows cursor wide
            (Ascending-tail index.tables previous entry rows valid) (omega (arith, total))
            (omega (arith, small)) stands reads)
