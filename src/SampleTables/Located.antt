-- ===== src/SampleTables/Located.antt =====
-- The cursor into the chunks is located at a sample: at its chunk, and at its offset in the chunk.
use stream_view.Common.{
  ℕ, zero, suc, ◌+◌, ◌-◌, ◌*◌, ◌≤◌, ◌<◌, ◌≡◌, ◌⊎◌, sym, ap, ◌∙◌, subst, List, [], ◌∷◌, Bool-cases,
  true, inl, inr, arith, ◌==◌, not, sub64, u64_max, IsU64,
}
use stream_view.SampleTables.{
  Mp4SampleTableIndex, Mp4SampleToChunkRow, Answer, add_would_overflow, multiply_would_overflow,
  inconsistent_tables,
}
use stream_view.SampleTables as Tables
use stream_view.SampleTables.Chunks.{
  ChunkCursor, lift, read_chunk_offset, catch_up, offset_of_ordinal, seek_cursor, locate_run,
}
use stream_view.SampleTables.Overflow.{
  OkAll, map-OkAll, required-OkAll, multiply_would_overflow-bound,
}
use stream_view.SampleTables.Gives.{Gives, bind-Gives, refuse_if-Gives}
use stream_view.SampleTables.Checked.{Ascending, chunk_samples}
use stream_view.SampleTables.Layout.{run_end, Stands, run_samples, locate_run-Stands}
use stream_view.SampleTables.Offsets.{
  size_at, sum_sizes, StartsAt, read_chunk_offset-Gives, catch_up-Gives,
}

-- The cursor at sample `i` of an index.
pub record Located (index : Mp4SampleTableIndex) (i : ℕ) (cursor : ChunkCursor) : Type 0 where
  pub stands : Stands index.tables.chunk_count index.tables.sample_to_chunk i cursor
  pub starts : StartsAt index.readers.chunk_offset cursor.chunk_index cursor.chunk_start_offset
  pub offset :
      cursor.offset_in_chunk ≡ sum_sizes index (i - cursor.ordinal_in_chunk) cursor.ordinal_in_chunk
  pub small : cursor.offset_in_chunk ≤ u64_max

pub Stands-ordinal :
    (chunk_count : ℕ) (rows : List Mp4SampleToChunkRow) (i : ℕ) (cursor : ChunkCursor)
    → Stands chunk_count rows i cursor
    → cursor.ordinal_in_chunk ≤ i
unfolding Stands
Stands-ordinal chunk_count [] i cursor h = absurd h
Stands-ordinal chunk_count (entry ∷ rows) i cursor (inl run) = omega (arith, run.counted)
Stands-ordinal chunk_count (entry ∷ rows) i cursor (inr (behind, stands)) =
    omega (arith, Stands-ordinal chunk_count rows _ cursor stands)

-- Sample `i` of the runs is in a chunk, behind `ordinal` samples of the chunk: the chunks of its run
-- before that chunk are full, and so are the runs before.
unfoldable pub InChunk : ℕ → List Mp4SampleToChunkRow → ℕ → ℕ → ℕ → ℕ → Type 0
InChunk chunk_count [] i chunk ordinal description = ⊥
InChunk chunk_count (entry ∷ rows) i chunk ordinal description =
    ((entry.first_chunk ≤ chunk + 1)
      × (chunk + 1 < run_end chunk_count rows)
      × (ordinal < entry.samples_per_chunk)
      × (i ≡ (chunk + 1 - entry.first_chunk) * entry.samples_per_chunk + ordinal)
      × (description ≡ entry.sample_description_index))
    ⊎ ((run_samples chunk_count entry rows ≤ i)
        × InChunk chunk_count rows (i - run_samples chunk_count entry rows) chunk ordinal
            description)

-- The byte offset of a sample: its chunk's start, and the sizes of the samples before it in the chunk.
pub record IsPlace (index : Mp4SampleTableIndex) (i offset description : ℕ) : Type 0 where
  pub chunk : ℕ
  pub ordinal : ℕ
  pub start : ℕ
  pub within :
      InChunk index.tables.chunk_count index.tables.sample_to_chunk i chunk ordinal description
  pub starts : StartsAt index.readers.chunk_offset chunk start
  pub at : offset ≡ start + sum_sizes index (i - ordinal) ordinal

Stands-InChunk :
    (chunk_count : ℕ) (rows : List Mp4SampleToChunkRow) (i : ℕ) (cursor : ChunkCursor)
    → Stands chunk_count rows i cursor
    → InChunk chunk_count rows i cursor.chunk_index cursor.ordinal_in_chunk
        cursor.sample_description_index
unfolding Stands InChunk
Stands-InChunk chunk_count [] i cursor h = h
Stands-InChunk chunk_count (entry ∷ rows) i cursor (inl run) =
    inl (run.behind, run.before, run.placed, run.counted, run.names)
Stands-InChunk chunk_count (entry ∷ rows) i cursor (inr (behind, stands)) =
    inr (behind, Stands-InChunk chunk_count rows _ cursor stands)

pub Located-IsPlace :
    (index : Mp4SampleTableIndex) (i offset : ℕ) (cursor : ChunkCursor)
    → Located index i cursor
    → offset ≡ cursor.chunk_start_offset + cursor.offset_in_chunk
    → IsPlace index i offset cursor.sample_description_index
Located-IsPlace index i offset cursor located sum = record {
  chunk = cursor.chunk_index;
  ordinal = cursor.ordinal_in_chunk;
  start = cursor.chunk_start_offset;
  within =
      Stands-InChunk index.tables.chunk_count index.tables.sample_to_chunk i cursor located.stands;
  starts = located.starts;
  at = omega (arith, sum, located.offset);
}

-- The offsets do not take part in where the cursor stands.
Stands-offsets :
    (chunk_count : ℕ) (rows : List Mp4SampleToChunkRow) (i : ℕ) (cursor : ChunkCursor)
    (start offset : ℕ)
    → Stands chunk_count rows i cursor
    → Stands chunk_count rows i
        (record cursor { chunk_start_offset = start; offset_in_chunk = offset })
unfolding Stands
Stands-offsets chunk_count [] i cursor start offset h = h
Stands-offsets chunk_count (entry ∷ rows) i cursor start offset (inl run) = inl (record {
  on = run.on;
  behind = run.behind;
  before = run.before;
  placed = run.placed;
  counted = run.counted;
  names = run.names;
})
Stands-offsets chunk_count (entry ∷ rows) i cursor start offset (inr (behind, stands)) =
    inr (behind, Stands-offsets chunk_count rows _ cursor start offset stands)

sum_sizes-uniform :
    (index : Mp4SampleTableIndex) (first count : ℕ)
    → not (index.tables.default_sample_size == 0) ≡ true
    → sum_sizes index first count ≡ count * index.tables.default_sample_size
unfolding sum_sizes size_at
sum_sizes-uniform index first zero e = omega arith
sum_sizes-uniform index first (suc count) e =
    rw e (omega (arith, sum_sizes-uniform index first count e))

module _ (index : Mp4SampleTableIndex) (maximum : ℕ) where
  offset_of_ordinal-Gives :
      (i ordinal : ℕ)
      → ordinal ≤ i
      → i ≤ u64_max
      → Gives
          (λ offset. (offset ≡ sum_sizes index (i - ordinal) ordinal) × (offset ≤ u64_max))
          (offset_of_ordinal index maximum i ordinal)
  unfolding offset_of_ordinal OkAll
  offset_of_ordinal-Gives i ordinal few small =
      let first : sub64 i ordinal ≡ i - ordinal = omega arith in
      elim (Bool-cases (not (index.tables.default_sample_size == 0))) [
        | inl e ↦ rw e (
            refuse_if-Gives _ (multiply_would_overflow ordinal index.tables.default_sample_size) _ _
              _
              (λ fits reads.
                let bound =
                  multiply_would_overflow-bound ordinal index.tables.default_sample_size fits in
                let uniform = sum_sizes-uniform index (i - ordinal) ordinal e in
                (omega (arith, bound, uniform), omega arith)))
        | inr e ↦
            rw (e, first)
              (λ reads.
                map-OkAll
                  (λ total. (total ≡ 0 + sum_sizes index (i - ordinal) ordinal) × (total ≤ u64_max))
                  _ (catch_up index maximum ordinal (i - ordinal) 0 reads).1
                  (λ total (counted, few). (omega (arith, counted), few))
                  (catch_up-Gives index maximum ordinal (i - ordinal) 0 (omega arith) (omega arith)
                    reads))
      ]

  pub seek_cursor-Located :
      (i : ℕ)
      → IsU64 index.tables.chunk_count
      → Ascending index.tables 0 index.tables.sample_to_chunk
      → chunk_samples index.tables.chunk_count index.tables.sample_to_chunk ≤ u64_max
      → i < chunk_samples index.tables.chunk_count index.tables.sample_to_chunk
      → Gives (Located index i) (seek_cursor index maximum i)
  unfolding seek_cursor OkAll
  seek_cursor-Located i wide valid few inside =
      let all_chunks = index.tables.chunk_count in
      let rows = index.tables.sample_to_chunk in
      let found = locate_run-Stands index.tables 0 0 i rows wide valid (omega arith) inside in
      let from_zero : i ≡ 0 + i = omega arith in
      let located = ap (locate_run all_chunks 0 rows) from_zero ∙ found.1 in
      bind-Gives (λ cursor. cursor ≡ found.0) _
        (lift (
          Tables.required (locate_run all_chunks 0 rows i) inconsistent_tables
            "stsc does not cover the requested sample"))
        _ (λ reads. required-OkAll _ (locate_run all_chunks 0 rows i) _ _ (λ cursor e. cc))
        (λ cursor e.
          let stands : Stands all_chunks rows i cursor =
            subst (Stands all_chunks rows i) (sym e) found.2 in
          bind-Gives (StartsAt index.readers.chunk_offset cursor.chunk_index) _
            (read_chunk_offset index maximum cursor.chunk_index) _
            (read_chunk_offset-Gives index maximum cursor.chunk_index)
            (λ start starts.
              bind-Gives
                (λ offset.
                  (offset ≡ sum_sizes index (i - cursor.ordinal_in_chunk) cursor.ordinal_in_chunk)
                  × (offset ≤ u64_max))
                _ (offset_of_ordinal index maximum i cursor.ordinal_in_chunk) _
                (offset_of_ordinal-Gives i cursor.ordinal_in_chunk
                  (Stands-ordinal all_chunks rows i cursor stands) (omega arith))
                (λ offset (summed, small) reads.
                  let moved : ChunkCursor = record cursor {
                    chunk_start_offset = start;
                    offset_in_chunk = offset;
                  } in
                  let done : Located index i moved = record {
                    stands = Stands-offsets all_chunks rows i cursor start offset stands;
                    starts = starts;
                    offset = summed;
                    small = small;
                  } in
                  done)))
