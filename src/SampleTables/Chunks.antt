-- ===== src/SampleTables/Chunks.antt =====
-- The cursor of `Mp4SampleTableIndex` into the chunks, and the table reads that it counts.
use stream_view.Common.{
  ℕ, zero, suc, ◌/◌, ◌%◌, List, [], ◌∷◌, Option, none, some, Bool, String, ltb, leb, ◌==◌, not,
  if◌then◌else◌, add64, sub64, mul64,
}
use stream_view.SampleTables.{
  Mp4SampleTableIndex, Mp4SampleTableReaders, Mp4TrackSampleTables, Mp4SampleToChunkRow,
  Mp4SampleTableIndexStatus, Answer, inconsistent_tables, arithmetic_overflow, resource_limit,
  source_error, add_would_overflow, multiply_would_overflow,
}
use stream_view.SampleTables as Tables
use stream_view.SampleTables.Build.{next_first_chunk}

-- What a step of a page does with the reads counted so far.
abbrev pub Reads {ℓ} : Type ℓ → Type ℓ
Reads A = ℕ → ℕ × Answer A

abbrev pub resume {ℓ κ} : {A : Type ℓ} {B : Type κ} → ℕ × Answer A → (A → Reads B) → ℕ × Answer B
resume (reads, Answer.ok a) f = f a reads
resume (reads, Answer.refused status message) f = (reads, Answer.refused status message)

infixl 5 ◌>>=◌ ◌>>◌
abbrev pub ◌>>=◌ {ℓ κ} : {A : Type ℓ} {B : Type κ} → Reads A → (A → Reads B) → Reads B
◌>>=◌ m f reads = resume (m reads) f

abbrev pub ◌>>◌ {ℓ} : {B : Type ℓ} → Reads (Unit {0}) → Reads B → Reads B
m >> k = m >>= λ _. k

abbrev pub ok {ℓ} : {A : Type ℓ} → A → Reads A
ok a reads = (reads, Answer.ok a)

abbrev pub lift {ℓ} : {A : Type ℓ} → Answer A → Reads A
lift answer reads = (reads, answer)

abbrev pub refuse_if : Bool → Mp4SampleTableIndexStatus → String → Reads (Unit {0})
refuse_if refused status message = lift (Tables.refuse_if refused status message)

-- A table read within the page's budget, which its answer counts against.
unfoldable pub table_read {ℓ} : {A : Type ℓ} → ℕ → Option (ℕ → Option A) → ℕ → String → Reads A
table_read maximum_reads none entry message reads =
    if leb maximum_reads reads
    then (reads, Answer.refused resource_limit "Page exceeded its sample table read budget")
    else (add64 reads 1, Answer.refused source_error message)
table_read maximum_reads (some read) entry message reads =
    if leb maximum_reads reads
    then (reads, Answer.refused resource_limit "Page exceeded its sample table read budget")
    else (add64 reads 1, Tables.required (read entry) source_error message)

module _ (index : Mp4SampleTableIndex) (maximum_reads : ℕ) where
  abbrev pub default_size : ℕ
  default_size = index.tables.default_sample_size

  unfoldable pub read_sample_size : ℕ → Reads ℕ
  read_sample_size sample_index =
      if not (default_size == 0)
      then ok default_size
      else table_read maximum_reads index.readers.sample_size sample_index
          "Sample size table could not supply an entry"

  unfoldable pub read_chunk_offset : ℕ → Reads ℕ
  read_chunk_offset chunk_index = do
    refuse_if (leb index.tables.chunk_count chunk_index) inconsistent_tables
        "Sample maps to a chunk beyond the stco/co64 table"
    table_read maximum_reads index.readers.chunk_offset chunk_index
        "Chunk offset table could not supply an entry"

-- `rows` are the rows of stsc from `runIndex` on.
pub record ChunkCursor : Type 0 where
  pub rows : List Mp4SampleToChunkRow
  pub run_first_sample_index : ℕ
  pub chunk_index : ℕ
  pub ordinal_in_chunk : ℕ
  pub offset_in_chunk : ℕ
  pub chunk_start_offset : ℕ
  pub sample_description_index : ℕ

unfoldable pub samples_in_run : ℕ → Mp4SampleToChunkRow → List Mp4SampleToChunkRow → ℕ
samples_in_run chunk_count entry rows =
    mul64 (sub64 (next_first_chunk chunk_count rows) entry.first_chunk) entry.samples_per_chunk

-- The loop of `seekCursor`.
unfoldable pub locate_run : ℕ → ℕ → List Mp4SampleToChunkRow → ℕ → Option ChunkCursor
locate_run chunk_count consumed [] sample_index = none
locate_run chunk_count consumed (entry ∷ rows) sample_index =
    let behind = add64 consumed (samples_in_run chunk_count entry rows) in
    let offset_in_run = sub64 sample_index consumed in
    let rest = locate_run chunk_count behind rows sample_index in
    if ltb sample_index behind
    then some (record {
      rows = entry ∷ rows;
      run_first_sample_index = consumed;
      chunk_index = add64 (sub64 entry.first_chunk 1) (offset_in_run / entry.samples_per_chunk);
      ordinal_in_chunk = offset_in_run % entry.samples_per_chunk;
      offset_in_chunk = 0;
      chunk_start_offset = 0;
      sample_description_index = entry.sample_description_index;
    })
    else rest

module _ (index : Mp4SampleTableIndex) (maximum_reads : ℕ) where
  -- The sizes of the samples that precede one in its chunk, from `sample_index` on.
  unfoldable pub catch_up : ℕ → ℕ → ℕ → Reads ℕ
  catch_up zero sample_index offset = ok offset
  catch_up (suc preceding) sample_index offset = do
    size ← read_sample_size index maximum_reads sample_index
    refuse_if (add_would_overflow offset size) arithmetic_overflow
        "Chunk-relative sample offset overflows"
    catch_up preceding (add64 sample_index 1) (add64 offset size)

  unfoldable pub offset_of_ordinal : ℕ → ℕ → Reads ℕ
  offset_of_ordinal sample_index ordinal =
      if not (index.tables.default_sample_size == 0)
      then (do
        refuse_if (multiply_would_overflow ordinal index.tables.default_sample_size)
            arithmetic_overflow "Chunk-relative sample offset overflows"
        ok (mul64 ordinal index.tables.default_sample_size))
      else catch_up ordinal (sub64 sample_index ordinal) 0

  unfoldable pub seek_cursor : ℕ → Reads ChunkCursor
  seek_cursor sample_index = do
    cursor ← lift (
        Tables.required
          (locate_run index.tables.chunk_count 0 index.tables.sample_to_chunk sample_index)
          inconsistent_tables "stsc does not cover the requested sample")
    start ← read_chunk_offset index maximum_reads cursor.chunk_index
    offset ← offset_of_ordinal sample_index cursor.ordinal_in_chunk
    ok (record cursor { chunk_start_offset = start; offset_in_chunk = offset })

  -- The first sample of a chunk.
  unfoldable pub enter_chunk : ChunkCursor → Reads ChunkCursor
  enter_chunk cursor = do
    start ← read_chunk_offset index maximum_reads cursor.chunk_index
    ok (record cursor { chunk_start_offset = start })

  -- Behind the last chunk of a run.
  unfoldable pub leave_run :
      ChunkCursor → Mp4SampleToChunkRow → List Mp4SampleToChunkRow → Reads ChunkCursor
  leave_run cursor entry [] =
      lift (Answer.refused inconsistent_tables "stsc runs out of chunks before samples")
  leave_run cursor entry (next ∷ rows) = enter_chunk (record cursor {
    rows = next ∷ rows;
    run_first_sample_index =
        add64 cursor.run_first_sample_index
          (samples_in_run index.tables.chunk_count entry (next ∷ rows));
    chunk_index = sub64 next.first_chunk 1;
    sample_description_index = next.sample_description_index;
  })

  -- `runChunkLimit`
  abbrev pub run_chunk_limit : List Mp4SampleToChunkRow → ℕ
  run_chunk_limit [] = index.tables.chunk_count
  run_chunk_limit (next ∷ rows) = sub64 next.first_chunk 1

  unfoldable pub leave_chunk :
      ChunkCursor → Mp4SampleToChunkRow → List Mp4SampleToChunkRow → Reads ChunkCursor
  leave_chunk cursor entry rows =
      let left : ChunkCursor = record cursor {
        chunk_index = add64 cursor.chunk_index 1;
        ordinal_in_chunk = 0;
        offset_in_chunk = 0;
      } in
      if leb (run_chunk_limit rows) (add64 cursor.chunk_index 1)
      then leave_run left entry rows
      else enter_chunk left

  -- A cursor stands on a row; the source reads its row without a test.
  unfoldable pub advance_on : ChunkCursor → List Mp4SampleToChunkRow → ℕ → Reads ChunkCursor
  advance_on cursor [] consumed_sample_size =
      lift (Answer.refused inconsistent_tables "stsc runs out of chunks before samples")
  advance_on cursor (entry ∷ rows) consumed_sample_size =
      if ltb (add64 cursor.ordinal_in_chunk 1) entry.samples_per_chunk
      then (do
        refuse_if (add_would_overflow cursor.offset_in_chunk consumed_sample_size)
            arithmetic_overflow "Chunk-relative sample offset overflows"
        ok (record cursor {
          ordinal_in_chunk = add64 cursor.ordinal_in_chunk 1;
          offset_in_chunk = add64 cursor.offset_in_chunk consumed_sample_size;
        }))
      else leave_chunk cursor entry rows

  unfoldable pub advance_cursor : ChunkCursor → ℕ → Reads ChunkCursor
  advance_cursor cursor consumed_sample_size = advance_on cursor cursor.rows consumed_sample_size
