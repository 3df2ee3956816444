-- ===== src/SampleTables/LocatedSteps.antt =====
-- The step of the cursor into the chunks leads to the offset of the next sample.
use stream_view.Common.{
  ℕ, suc, ◌+◌, ◌-◌, ◌≤◌, ◌≡◌, ◌⊎◌, refl, sym, ap, ◌∙◌, List, [], ◌∷◌, Bool-cases, inl, inr, arith,
  ltb, leb, add64, u64_max, IsU64,
}
use stream_view.SampleTables.{Mp4SampleTableIndex, Mp4SampleToChunkRow, add_would_overflow}
use stream_view.SampleTables.Chunks.{
  ChunkCursor, read_chunk_offset, enter_chunk, leave_run, leave_chunk, run_chunk_limit, advance_on,
  advance_cursor,
}
use stream_view.SampleTables.Overflow.{OkAll, both-OkAll, map-OkAll}
use stream_view.SampleTables.Gives.{Gives, bind-Gives, refuse_if-Gives}
use stream_view.SampleTables.Checked.{Ascending, chunk_samples}
use stream_view.SampleTables.Layout.{Stands}
use stream_view.SampleTables.LayoutSteps.{advance_cursor-Stands}
use stream_view.SampleTables.Offsets.{size_at, sum_sizes, StartsAt, read_chunk_offset-Gives}
use stream_view.SampleTables.Located.{Located, Stands-ordinal}

module _ (index : Mp4SampleTableIndex) (maximum : ℕ) where
  -- What a step does to the offsets: it moves on in the chunk, or to the start of a chunk.
  Moved : ChunkCursor → ℕ → ChunkCursor → Type 0
  Moved cursor size next =
      ((next.ordinal_in_chunk ≡ suc cursor.ordinal_in_chunk)
        × (next.offset_in_chunk ≡ cursor.offset_in_chunk + size)
        × (next.offset_in_chunk ≤ u64_max)
        × (next.chunk_index ≡ cursor.chunk_index)
        × (next.chunk_start_offset ≡ cursor.chunk_start_offset))
      ⊎ ((next.ordinal_in_chunk ≡ 0)
          × (next.offset_in_chunk ≡ 0)
          × StartsAt index.readers.chunk_offset next.chunk_index next.chunk_start_offset)

  enter_chunk-Moved :
      (cursor entered : ChunkCursor) (size : ℕ)
      → entered.ordinal_in_chunk ≡ 0
      → entered.offset_in_chunk ≡ 0
      → Gives (Moved cursor size) (enter_chunk index maximum entered)
  unfolding enter_chunk Moved OkAll
  enter_chunk-Moved cursor entered size first none_before =
      bind-Gives (StartsAt index.readers.chunk_offset entered.chunk_index) _
        (read_chunk_offset index maximum entered.chunk_index) _
        (read_chunk_offset-Gives index maximum entered.chunk_index)
        (λ start starts reads. inr (first, none_before, starts))

  leave_run-Moved :
      (cursor left : ChunkCursor) (size : ℕ) (entry : Mp4SampleToChunkRow)
      (rows : List Mp4SampleToChunkRow)
      → left.ordinal_in_chunk ≡ 0
      → left.offset_in_chunk ≡ 0
      → Gives (Moved cursor size) (leave_run index maximum left entry rows)
  unfolding leave_run OkAll
  leave_run-Moved cursor left size entry [] first none_before = λ reads. tt
  leave_run-Moved cursor left size entry (next ∷ rows) first none_before =
      enter_chunk-Moved cursor _ size first none_before

  leave_chunk-Moved :
      (cursor : ChunkCursor) (size : ℕ) (entry : Mp4SampleToChunkRow)
      (rows : List Mp4SampleToChunkRow)
      → Gives (Moved cursor size) (leave_chunk index maximum cursor entry rows)
  unfolding leave_chunk
  leave_chunk-Moved cursor size entry rows =
      elim (Bool-cases (leb (run_chunk_limit index maximum rows) (add64 cursor.chunk_index 1))) [
        | inl e ↦ rw e (leave_run-Moved cursor _ size entry rows refl refl)
        | inr e ↦ rw e (enter_chunk-Moved cursor _ size refl refl)
      ]

  advance_on-Moved :
      (cursor : ChunkCursor) (rows : List Mp4SampleToChunkRow) (size : ℕ)
      → cursor.ordinal_in_chunk + 1 ≤ u64_max
      → cursor.offset_in_chunk ≤ u64_max
      → Gives (Moved cursor size) (advance_on index maximum cursor rows size)
  unfolding advance_on Moved OkAll add_would_overflow
  advance_on-Moved cursor [] size few small = λ reads. tt
  advance_on-Moved cursor (entry ∷ rows) size few small =
      elim (Bool-cases (ltb (add64 cursor.ordinal_in_chunk 1) entry.samples_per_chunk)) [
        | inl e ↦ rw e (
            refuse_if-Gives _ (add_would_overflow cursor.offset_in_chunk size) _ _ _ (λ fits reads.
              inl (omega (arith, few), ground (arith, fits, small), omega arith, refl, refl)))
        | inr e ↦ rw e (leave_chunk-Moved cursor size entry rows)
      ]

  moved-Located :
      (i size : ℕ) (cursor next : ChunkCursor)
      → size ≡ size_at index i
      → Located index i cursor
      → Stands index.tables.chunk_count index.tables.sample_to_chunk (suc i) next
      → Moved cursor size next
      → Located index (suc i) next
  unfolding Moved sum_sizes
  moved-Located i size cursor next sized located stands
        (inl (ordinal, offset, small, chunk, start)) =
      let before =
        Stands-ordinal index.tables.chunk_count index.tables.sample_to_chunk i cursor
          located.stands in
      let n = cursor.ordinal_in_chunk in
      let first : suc i - suc n ≡ i - n = omega arith in
      let here : i - n + n ≡ i = omega (arith, before) in
      let grown : sum_sizes index (suc i - suc n) (suc n)
          ≡ sum_sizes index (i - n) n + size_at index i =
        ap (λ f. sum_sizes index f (suc n)) first
        ∙ ap (λ k. sum_sizes index (i - n) n + size_at index k) here in
      let moved : cursor.offset_in_chunk + size ≡ sum_sizes index (i - n) n + size_at index i =
        omega (arith, located.offset, sized) in
      record {
        stands = stands;
        starts = rw (chunk, start) located.starts;
        offset = rw ordinal (offset ∙ (moved ∙ sym grown));
        small = small;
      }
  moved-Located i size cursor next sized located stands (inr (ordinal, offset, starts)) = record {
    stands = stands;
    starts = starts;
    offset = rw ordinal offset;
    small = omega (arith, offset);
  }

  -- A step from a sample over its size is refused or leads to the next sample.
  pub advance_cursor-Located :
      (i size : ℕ) (cursor : ChunkCursor)
      → IsU64 index.tables.chunk_count
      → Ascending index.tables 0 index.tables.sample_to_chunk
      → chunk_samples index.tables.chunk_count index.tables.sample_to_chunk ≤ u64_max
      → suc i ≤ u64_max
      → size ≡ size_at index i
      → Located index i cursor
      → Gives (Located index (suc i)) (advance_cursor index maximum cursor size)
  unfolding advance_cursor Moved
  advance_cursor-Located i size cursor wide valid few inside sized located reads =
      let rows = index.tables.sample_to_chunk in
      let chunks = index.tables.chunk_count in
      let ordinal = Stands-ordinal chunks rows i cursor located.stands in
      map-OkAll (λ next. Stands chunks rows (suc i) next × Moved cursor size next) _
        (advance_cursor index maximum cursor size reads).1
        (λ next (stands, moved). moved-Located i size cursor next sized located stands moved)
        (both-OkAll (Stands chunks rows (suc i)) (Moved cursor size)
          (advance_cursor index maximum cursor size reads).1
          (advance_cursor-Stands index maximum 0 i size rows cursor wide valid few inside
            located.stands reads)
          (advance_on-Moved cursor cursor.rows size (omega (arith, ordinal, inside)) located.small
            reads))
