-- ===== src/SampleTables/Pages.antt =====
-- `Mp4SampleTableIndex::descriptorPage`.
use stream_view.Common.{
  ℕ, zero, suc, ◌+◌, ◌-◌, ◌*◌, ◌/◌, ◌%◌, List, [], ◌∷◌, Option, none, some, Bool, true, false,
  String, ltb, ◌==◌, ◌&&◌, ◌||◌, not, if◌then◌else◌, u64_max, u64_mod, add64, sub64, mul64, Answers,
  answers, get_elem?, ◌^◌,
}
use stream_view.Common.Int.{ℤ, ◌+ℤ◌}
use stream_view.Coordinates.{SourceSpan, make_span}
use stream_view.SampleTables.{
  Mp4SampleTableIndex, Mp4SampleDescriptionBinding, Mp4SampleTableIndexStatus, Answer, built,
  inconsistent_tables, arithmetic_overflow, out_of_source_range, invalid_request, resource_limit,
  cancelled, add_would_overflow, multiply_would_overflow, signed_add_would_overflow,
  ranges_intersect,
}
use stream_view.SampleTables as Tables
use stream_view.SampleTables.Chunks.{
  Reads, ◌>>=◌, ◌>>◌, ok, lift, refuse_if, table_read, read_sample_size, ChunkCursor, seek_cursor,
  advance_cursor,
}
use stream_view.SampleTables.Timing.{
  TimelineCursor, seek_timeline, advance_timeline, duration_at, CompositionCursor, seek_composition,
  advance_composition, composition_offset_at,
}

pub record SampleDescriptor : Type 0 where
  pub track_id : ℕ
  pub sample_index : ℕ
  pub sample_description_index : ℕ
  pub source_spans : List SourceSpan
  pub dts : ℤ
  pub pts : ℤ
  pub duration : ℕ
  pub timescale : ℕ
  pub is_sync_sample : Bool

-- The kind of a progressive index and the parts of `PagedCachePageKey` that differ.
pub record PagedCachePageKey : Type 0 where
  pub stream_id : ℕ
  pub page_index : ℕ

pub record Mp4SamplePageRequest : Type 0 where
  pub page_index : ℕ
  pub page_size : ℕ
  pub maximum_descriptors_per_page : ℕ
  pub maximum_table_reads_per_page : ℕ
  pub cancellation : Answers

pub record Mp4SamplePageResult : Type 0 where
  pub status : Mp4SampleTableIndexStatus
  pub descriptors : List SampleDescriptor
  pub first_sample_index : ℕ
  pub table_read_count : ℕ
  pub cache_key : PagedCachePageKey
  pub error_message : String

-- The shift leaves the lowest byte clear, where the kind of the index, 1, goes.
unfoldable pub cache_page_key : Mp4SampleTableIndex → ℕ → PagedCachePageKey
cache_page_key index page_index = record {
  stream_id = index.tables.track_id * 2 ^ 8 % u64_mod + 1;
  page_index = page_index;
}

unfoldable pub sample_description : Mp4SampleTableIndex → ℕ → Option Mp4SampleDescriptionBinding
sample_description index sample_description_index =
    if sample_description_index == 0
    then none
    else get_elem? index.tables.sample_descriptions (sample_description_index - 1)

-- The extent of the sample before, for the overlap test.
abbrev pub Previous : Type 0
Previous = Option (ℕ × ℕ)

abbrev pub overlaps : Previous → ℕ → ℕ → Bool
overlaps none offset size = false
overlaps (some (previous_start, previous_size)) offset size =
    ranges_intersect previous_start previous_size offset size

-- The three cursors of a page.
pub record Cursors : Type 0 where
  pub chunk : ChunkCursor
  pub timeline : TimelineCursor
  pub composition : CompositionCursor

abbrev pub max_byte_coordinate : ℕ
max_byte_coordinate = u64_max / 8

module _ (index : Mp4SampleTableIndex) (request : Mp4SamplePageRequest) where
  abbrev pub maximum_reads : ℕ
  maximum_reads = request.maximum_table_reads_per_page

  abbrev pub sample_offset : ChunkCursor → ℕ
  sample_offset cursor = add64 cursor.chunk_start_offset cursor.offset_in_chunk

  -- The checks of a sample's extent.
  unfoldable pub check_extent : ChunkCursor → ℕ → Previous → Reads (Unit {0})
  check_extent cursor size previous = do
    let offset = sample_offset cursor
    refuse_if (add_would_overflow cursor.chunk_start_offset cursor.offset_in_chunk)
        arithmetic_overflow "Sample byte offset overflows"
    refuse_if (add_would_overflow offset size) arithmetic_overflow "Sample byte extent overflows"
    refuse_if
        (not (index.tables.source_size_bytes == 0)
          && ltb index.tables.source_size_bytes (add64 offset size))
        out_of_source_range "Sample extends beyond the media source"
    refuse_if (overlaps previous offset size) out_of_source_range "Sample byte ranges overlap"
    refuse_if (ltb max_byte_coordinate offset || ltb max_byte_coordinate size) arithmetic_overflow
        "Sample bit coordinate overflows"

  unfoldable pub read_sync : ℕ → Reads Bool
  read_sync sample_index =
      if index.tables.has_sync_sample_table
      then table_read maximum_reads index.readers.is_sync_sample (add64 sample_index 1)
          "Sync sample table could not supply an entry"
      else ok true

  -- One sample of the page, its extent checked.
  unfoldable pub describe : ℕ → Cursors → ℕ → Reads SampleDescriptor
  describe sample_index cursors size = do
    let offset = sample_offset cursors.chunk
    let dts = cursors.timeline.dts
    let composition_offset =
        composition_offset_at index.tables.composition_offset_version cursors.composition
    refuse_if (signed_add_would_overflow dts composition_offset) arithmetic_overflow
        "Presentation timeline overflows"
    is_sync ← read_sync sample_index
    span ← lift (
        Tables.required (make_span (mul64 offset 8) (mul64 size 8)) invalid_request
          "Sample source span is not representable")
    ok (record {
      track_id = index.tables.track_id;
      sample_index = sample_index;
      sample_description_index = cursors.chunk.sample_description_index;
      source_spans = span ∷ [];
      dts = dts;
      pts = dts +ℤ composition_offset;
      duration = duration_at cursors.timeline;
      timescale = index.tables.timescale;
      is_sync_sample = is_sync;
    })

  unfoldable pub advance : Cursors → ℕ → Reads Cursors
  advance cursors size = do
    chunk ← advance_cursor index maximum_reads cursors.chunk size
    timeline ← lift (advance_timeline cursors.timeline)
    composition ← lift (
        Tables.required (advance_composition cursors.composition) inconsistent_tables
          "ctts does not cover the requested sample")
    ok (record { chunk = chunk; timeline = timeline; composition = composition })

  -- The sample at the cursors and its size.
  unfoldable pub take_sample : ℕ → ℕ → Cursors → Previous → Reads (ℕ × SampleDescriptor)
  take_sample asked sample_index cursors previous = do
    refuse_if (answers request.cancellation asked) cancelled ""
    size ← read_sample_size index maximum_reads sample_index
    check_extent cursors.chunk size previous
    descriptor ← describe sample_index cursors size
    ok (size, descriptor)

  -- The loop, with the samples that follow the one at the cursors.
  unfoldable pub page_loop : ℕ → ℕ → ℕ → Cursors → Previous → Reads (List SampleDescriptor)
  page_loop zero asked sample_index cursors previous = do
    taken ← take_sample asked sample_index cursors previous
    ok (taken.1 ∷ [])
  page_loop (suc left) asked sample_index cursors previous = do
    taken ← take_sample asked sample_index cursors previous
    next ← advance cursors taken.0
    descriptors ←
        page_loop left (asked + 1) (add64 sample_index 1) next
          (some (sample_offset cursors.chunk, taken.0))
    ok (taken.1 ∷ descriptors)

  -- The cursor into the chunks at the first sample, and the extent of the sample before it.
  unfoldable pub position_chunk : ℕ → Reads (ChunkCursor × Previous)
  position_chunk start =
      if start == 0 then (do cursor ← seek_cursor index maximum_reads 0; ok (cursor, none)) else (do
        cursor ← seek_cursor index maximum_reads (sub64 start 1)
        size ← read_sample_size index maximum_reads (sub64 start 1)
        refuse_if (add_would_overflow cursor.chunk_start_offset cursor.offset_in_chunk)
            arithmetic_overflow "Sample byte offset overflows"
        at ← advance_cursor index maximum_reads cursor size
        ok (at, some (sample_offset cursor, size)))

  -- The samples of a page that is within the tables and the budget.
  unfoldable pub page_samples : ℕ → ℕ → Reads (List SampleDescriptor)
  page_samples start page_count = do
    chunk ← position_chunk start
    timeline ← lift (seek_timeline index.tables.time_to_sample start)
    composition ← lift (
        Tables.required (seek_composition index.tables.composition_offsets start)
          inconsistent_tables "ctts does not cover the requested sample")
    page_loop (page_count - 1) 1 start
        (record { chunk = chunk.0; timeline = timeline; composition = composition }) chunk.1
