-- ===== src/SampleTables/Build.antt =====
-- `Mp4SampleTableIndex::build`: the checks that make tables an index.
use stream_view.Common.{
  ℕ, ◌^◌, List, [], ◌∷◌, ltb, leb, ◌==◌, ◌&&◌, ◌||◌, not, if◌then◌else◌, has_value, length, add64,
  sub64, mul64,
}
use stream_view.Coordinates.{is_nil}
use stream_view.SampleTables.{
  Mp4SampleTableIndex, Mp4SampleTableReaders, Mp4TrackSampleTables, Mp4SampleToChunkRow,
  Mp4TimeToSampleRow, Mp4CompositionOffsetRow, Answer, ok, refused, refuse_if, inconsistent_tables,
  unsupported_tables, arithmetic_overflow, invalid_request, resource_limit, add_would_overflow,
  multiply_would_overflow,
}

infixl 5 ◌>>=◌ ◌>>◌
abbrev pub ◌>>=◌ {ℓ κ} : {A : Type ℓ} {B : Type κ} → Answer A → (A → Answer B) → Answer B
ok a >>= f = f a
refused status message >>= f = refused status message

abbrev pub ◌>>◌ {ℓ} : {B : Type ℓ} → Answer (Unit {0}) → Answer B → Answer B
m >> k = m >>= λ _. k

abbrev pub maximum_run_rows : ℕ
maximum_run_rows = 2 ^ 22

-- The first loop over stsc.
unfoldable pub check_chunk_rows :
    Mp4TrackSampleTables → ℕ → List Mp4SampleToChunkRow → Answer (Unit {0})
check_chunk_rows tables previous_first_chunk [] = ok tt
check_chunk_rows tables previous_first_chunk (entry ∷ rows) = do
  refuse_if (entry.first_chunk == 0 || leb entry.first_chunk previous_first_chunk)
      inconsistent_tables "stsc first_chunk values must strictly increase from 1"
  refuse_if (entry.samples_per_chunk == 0) inconsistent_tables
      "stsc samples_per_chunk must be positive"
  refuse_if (entry.sample_description_index == 0) inconsistent_tables
      "stsc sample_description_index must be 1-based"
  refuse_if
      (not (is_nil tables.sample_descriptions)
        && ltb (length tables.sample_descriptions) entry.sample_description_index)
      inconsistent_tables "stsc sample_description_index has no matching stsd entry"
  refuse_if (ltb tables.chunk_count entry.first_chunk) inconsistent_tables
      "stsc references a chunk beyond the stco/co64 table"
  check_chunk_rows tables entry.first_chunk rows

-- The first chunk behind a run, before the rows that follow it.
abbrev pub next_first_chunk : ℕ → List Mp4SampleToChunkRow → ℕ
next_first_chunk chunk_count [] = add64 chunk_count 1
next_first_chunk chunk_count (entry ∷ rows) = entry.first_chunk

-- The second loop over stsc: the samples that the chunks cover.
unfoldable pub cover_chunks : ℕ → ℕ → List Mp4SampleToChunkRow → Answer ℕ
cover_chunks chunk_count covered [] = ok covered
cover_chunks chunk_count covered (entry ∷ rows) = do
  let run_chunks = sub64 (next_first_chunk chunk_count rows) entry.first_chunk
  refuse_if (multiply_would_overflow run_chunks entry.samples_per_chunk) arithmetic_overflow
      "stsc run sample count overflows"
  refuse_if (add_would_overflow covered (mul64 run_chunks entry.samples_per_chunk))
      arithmetic_overflow "stsc total sample count overflows"
  cover_chunks chunk_count (add64 covered (mul64 run_chunks entry.samples_per_chunk)) rows

-- The loop over stts.
unfoldable pub cover_times : ℕ → List Mp4TimeToSampleRow → Answer ℕ
cover_times covered [] = ok covered
cover_times covered (entry ∷ rows) = do
  refuse_if (add_would_overflow covered entry.sample_count) arithmetic_overflow
      "stts total sample count overflows"
  cover_times (add64 covered entry.sample_count) rows

-- The loop over ctts.
unfoldable pub cover_compositions : ℕ → List Mp4CompositionOffsetRow → Answer ℕ
cover_compositions covered [] = ok covered
cover_compositions covered (entry ∷ rows) = do
  refuse_if (add_would_overflow covered entry.sample_count) arithmetic_overflow
      "ctts total sample count overflows"
  cover_compositions (add64 covered entry.sample_count) rows

abbrev pub made_index : Mp4TrackSampleTables → Mp4SampleTableReaders → Mp4SampleTableIndex
made_index tables readers = record {
  tables = tables;
  readers = readers;
  sample_count = tables.declared_sample_count;
}

-- ctts, which may be absent.
unfoldable pub check_compositions : ℕ → List Mp4CompositionOffsetRow → Answer (Unit {0})
check_compositions sample_count [] = ok tt
check_compositions sample_count (entry ∷ rows) = do
  covered ← cover_compositions 0 (entry ∷ rows)
  refuse_if (not (covered == sample_count)) inconsistent_tables
      "ctts does not describe exactly the declared sample count"

-- The row of chunk 1, which is the first.
unfoldable pub check_first_row : List Mp4SampleToChunkRow → Answer (Unit {0})
check_first_row [] = ok tt
check_first_row (entry ∷ rows) =
    refuse_if (not (entry.first_chunk == 1)) inconsistent_tables "stsc must describe chunk 1"

-- The tables of a track that has samples.
unfoldable pub check_tables : Mp4TrackSampleTables → Answer (Unit {0})
check_tables tables = do
  refuse_if (is_nil tables.sample_to_chunk) inconsistent_tables "stsc is required to locate samples"
  refuse_if (tables.chunk_count == 0) inconsistent_tables "stco/co64 is required to locate samples"
  check_chunk_rows tables 0 tables.sample_to_chunk
  check_first_row tables.sample_to_chunk
  covered ← cover_chunks tables.chunk_count 0 tables.sample_to_chunk
  refuse_if (not (covered == tables.declared_sample_count)) inconsistent_tables
      "stsc chunk layout does not account for exactly the declared sample count"
  timed ← cover_times 0 tables.time_to_sample
  refuse_if (not (timed == tables.declared_sample_count)) inconsistent_tables
      "stts does not describe exactly the declared sample count"
  check_compositions tables.declared_sample_count tables.composition_offsets

unfoldable pub build : Mp4TrackSampleTables → Mp4SampleTableReaders → Answer Mp4SampleTableIndex
build tables readers = do
  refuse_if (tables.timescale == 0) inconsistent_tables "Track timescale must be greater than zero"
  refuse_if (ltb 1 tables.composition_offset_version) unsupported_tables "Unsupported ctts version"
  refuse_if
      (ltb maximum_run_rows (length tables.time_to_sample)
        || ltb maximum_run_rows (length tables.sample_to_chunk)
        || ltb maximum_run_rows (length tables.composition_offsets))
      resource_limit "Sample table run count exceeds the index budget"
  refuse_if (not (has_value readers.chunk_offset)) invalid_request
      "A chunk offset reader is required"
  refuse_if (tables.default_sample_size == 0 && not (has_value readers.sample_size)) invalid_request
      "A sample size reader is required when stsz declares no default size"
  refuse_if (tables.has_sync_sample_table && not (has_value readers.is_sync_sample)) invalid_request
      "A sync sample reader is required when stss exists"
  if tables.declared_sample_count == 0
      then ok (made_index tables readers)
      else (check_tables tables >> ok (made_index tables readers))
