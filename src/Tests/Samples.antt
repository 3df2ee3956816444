-- ===== src/Tests/Samples.antt =====
-- The tables of an MP4 track with four samples in two chunks.
use stream_view.Common.{
  ◌+◌, ◌*◌, ◌≤◌, ◌≡◌, ◌↔◌, ◌⊎◌, refl, List, [], ◌∷◌, none, some, true, false, ℕ, arith, IsU64, ltb,
  if◌then◌else◌,
}
use stream_view.Common.Int.{pos, i64_max, ◌+ℤ◌, ◌-ℤ◌}
use stream_view.SampleTables.{
  Mp4TrackSampleTables, Mp4SampleTableReaders, Mp4SampleTableIndex, Mp4TimeToSampleRow, ok, built,
  ranges_intersect, reinterpret_composition_offset, signed_add_would_overflow,
  multiply_would_overflow, add_would_overflow,
}
use stream_view.SampleTables.Build.{
  build, check_tables, check_chunk_rows, check_first_row, cover_chunks, cover_times,
  check_compositions, cover_compositions, made_index,
}
use stream_view.SampleTables.Built.{IsIndex, build-IsIndex}
use stream_view.SampleTables.Timing.{
  TimelineCursor, seek_rows, later_dts, advance_rows, skip_empty_rows, seek_offsets,
  seek_composition, skip_empty_offsets, advance_composition, seek_timeline, advance_timeline,
  duration_at,
}
use stream_view.SampleTables.Timelines.{described, decode_time, delta_of}
use stream_view.SampleTables.TimelineBounds.{seek_timeline_iff}
use stream_view.SampleTables.TimelineSteps.{advance_timeline-seek_timeline}
use stream_view.Coordinates as Coordinates
use stream_view.Coordinates.{make_span}
use stream_view.SampleTables.Chunks.{
  seek_cursor, locate_run, samples_in_run, read_chunk_offset, table_read, offset_of_ordinal,
  catch_up, read_sample_size, advance_cursor, advance_on, enter_chunk, leave_chunk, leave_run,
}
use stream_view.SampleTables.Pages.{
  Mp4SamplePageRequest, page_samples, position_chunk, advance, cache_page_key, check_extent,
  describe, page_loop, read_sync, take_sample,
}
use stream_view.SampleTables.DescriptorPage.{
  descriptor_page, page_of, check_request, page_outcome, page_count,
}
use stream_view.SampleTables.Budget.{descriptor_page-table_read_count}
use stream_view.SampleTables.Offsets.{StartsAt}
use stream_view.SampleTables.WholePage.{IsPage, descriptor_page-IsPage}

-- Two samples a tick of 100 apart, one that lasts 50, and one more.
abbrev times : List Mp4TimeToSampleRow
times =
    record { sample_count = 2; sample_delta = 100 }
    ∷ record { sample_count = 0; sample_delta = 7 }
    ∷ record { sample_count = 2; sample_delta = 50 }
    ∷ []

abbrev track : Mp4TrackSampleTables
track = record {
  track_id = 1;
  timescale = 1000;
  source_size_bytes = 5000;
  time_to_sample = times;
  sample_to_chunk =
      record { first_chunk = 1; samples_per_chunk = 2; sample_description_index = 1 } ∷ [];
  chunk_count = 2;
  default_sample_size = 0;
  declared_sample_count = 4;
  has_sync_sample_table = false;
  composition_offsets = record { sample_count = 4; raw_sample_offset = 5 } ∷ [];
  composition_offset_version = 0;
  sample_descriptions = [];
}

abbrev readers : Mp4SampleTableReaders
readers = record {
  sample_size = some (λ i. some (10 * (i + 1)));
  chunk_offset = some (λ chunk. if ltb chunk 2 then some (1000 * (chunk + 1)) else none);
  is_sync_sample = none;
}

abbrev track_index : Mp4SampleTableIndex
track_index = made_index track readers

-- The second page of two samples.
abbrev request : Mp4SamplePageRequest
request = record {
  page_index = 1;
  page_size = 2;
  maximum_descriptors_per_page = 16;
  maximum_table_reads_per_page = 64;
  cancellation = none;
}

index_built : build track readers ≡ ok track_index
unfolding build check_tables check_chunk_rows check_first_row cover_chunks multiply_would_overflow
    add_would_overflow cover_times check_compositions cover_compositions
index_built = refl

-- Samples 2 and 3, of 30 and 40 bytes, from byte 2000 on.
page_made : descriptor_page track_index request ≡ record {
  status = built;
  descriptors =
      record {
        track_id = 1;
        sample_index = 2;
        sample_description_index = 1;
        source_spans = record { start = 16000; bit_length = 240 } ∷ [];
        dts = pos 200;
        pts = pos 205;
        duration = 50;
        timescale = 1000;
        is_sync_sample = true;
      }
      ∷ record {
        track_id = 1;
        sample_index = 3;
        sample_description_index = 1;
        source_spans = record { start = 16240; bit_length = 320 } ∷ [];
        dts = pos 250;
        pts = pos 255;
        duration = 50;
        timescale = 1000;
        is_sync_sample = true;
      }
      ∷ [];
  first_sample_index = 2;
  table_read_count = 6;
  cache_key = record { stream_id = 257; page_index = 1 };
  error_message = "";
}
unfolding descriptor_page page_of check_request multiply_would_overflow page_outcome page_samples
    position_chunk seek_cursor locate_run samples_in_run read_chunk_offset table_read
    offset_of_ordinal catch_up read_sample_size add_would_overflow advance_cursor advance_on ◌+ℤ◌
    ◌-ℤ◌ Coordinates.add_would_overflow make_span enter_chunk leave_chunk leave_run page_count
    advance cache_page_key check_extent describe page_loop read_sync take_sample advance_composition
    advance_rows later_dts seek_composition seek_offsets seek_rows skip_empty_offsets
    skip_empty_rows ranges_intersect reinterpret_composition_offset signed_add_would_overflow
page_made = refl

-- The theorems at these inputs.
build-IsIndex_example : IsIndex track_index × (track_index ≡ made_index track readers)
build-IsIndex_example = build-IsIndex track readers track_index (omega arith) index_built

seek_timeline_iff_example : (decode_time times 2 ≤ i64_max) ↔ (
    (cursor : TimelineCursor) × (seek_timeline times 2 ≡ ok cursor)
    × (cursor.dts ≡ pos (decode_time times 2))
    × (duration_at cursor ≡ delta_of times 2))
unfolding described
seek_timeline_iff_example = seek_timeline_iff times 2 (omega arith) (omega arith)

advance_timeline-seek_timeline_example :
    (cursor next : TimelineCursor) × (seek_timeline times 1 ≡ ok cursor)
    × (advance_timeline cursor ≡ ok next)
    × (seek_timeline times 2 ≡ ok next)
unfolding described decode_time delta_of
advance_timeline-seek_timeline_example =
    advance_timeline-seek_timeline times 1 (omega arith) (omega arith) (omega arith)

starts_wide :
    (chunk start : ℕ) → StartsAt track_index.readers.chunk_offset chunk start → IsU64 start
unfolding StartsAt
starts_wide chunk start h = ground (arith, h)

descriptor_page-IsPage_example :
    ((descriptor_page track_index request).descriptors ≡ [])
    ⊎ IsPage track_index request (descriptor_page track_index request)
descriptor_page-IsPage_example =
    descriptor_page-IsPage track_index request (omega arith) (omega arith) starts_wide
      (build-IsIndex track readers track_index (omega arith) index_built).0

descriptor_page-table_read_count_example :
    (descriptor_page track_index request).table_read_count ≤ request.maximum_table_reads_per_page
descriptor_page-table_read_count_example = descriptor_page-table_read_count track_index request
