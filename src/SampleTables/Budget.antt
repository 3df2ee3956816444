-- ===== src/SampleTables/Budget.antt =====
-- A page stays within its budget of table reads.
use stream_view.Common.{
  ℕ, zero, suc, ◌+◌, ◌-◌, ◌≤◌, List, [], ◌∷◌, Bool, true, false, arith, ltb, leb, ◌==◌, ◌&&◌, not,
  add64, sub64, if◌then◌else◌,
}
use stream_view.SampleTables.{
  Mp4SampleTableIndex, Mp4SampleToChunkRow, Answer, add_would_overflow, inconsistent_tables,
}
use stream_view.SampleTables as Tables
use stream_view.SampleTables.Timing.{
  advance_timeline, advance_composition, seek_timeline, seek_composition,
}
use stream_view.SampleTables.Chunks.{
  Reads, lift, refuse_if, read_sample_size, read_chunk_offset, catch_up, offset_of_ordinal,
  seek_cursor, enter_chunk, leave_run, leave_chunk, advance_on, advance_cursor, ChunkCursor,
}
use stream_view.SampleTables.Gives.{
  Bounded, bind-Bounded, unread-Bounded, table_read-Bounded, refuse_if-Bounded,
}
use stream_view.SampleTables.Pages.{
  SampleDescriptor, Mp4SamplePageRequest, Cursors, Previous, overlaps, sample_offset, check_extent,
  read_sync, describe, advance, take_sample, page_loop, position_chunk, page_samples,
}
use stream_view.SampleTables.DescriptorPage.{
  check_request, page_count, page_outcome, page_of, descriptor_page,
}

-- Both branches of a test.
if-Bounded {ℓ} :
    {A : Type ℓ} (maximum : ℕ) (b : Bool) (m k : Reads A)
    → Bounded maximum m
    → Bounded maximum k
    → Bounded maximum (if b then m else k)
if-Bounded maximum true m k h g = h
if-Bounded maximum false m k h g = g

module _ (index : Mp4SampleTableIndex) (maximum : ℕ) where
  read_sample_size-Bounded :
      (sample_index : ℕ) → Bounded maximum (read_sample_size index maximum sample_index)
  unfolding read_sample_size
  read_sample_size-Bounded sample_index =
      if-Bounded maximum (not (index.tables.default_sample_size == 0)) _ _ (unread-Bounded maximum)
        (table_read-Bounded maximum _ _ _)

  read_chunk_offset-Bounded :
      (chunk_index : ℕ) → Bounded maximum (read_chunk_offset index maximum chunk_index)
  unfolding read_chunk_offset
  read_chunk_offset-Bounded chunk_index =
      bind-Bounded maximum (refuse_if (leb index.tables.chunk_count chunk_index) _ _) _
        (unread-Bounded maximum) (λ _. table_read-Bounded maximum _ _ _)

  catch_up-Bounded :
      (preceding sample_index offset : ℕ)
      → Bounded maximum (catch_up index maximum preceding sample_index offset)
  unfolding catch_up
  catch_up-Bounded zero sample_index offset = unread-Bounded maximum
  catch_up-Bounded (suc preceding) sample_index offset =
      bind-Bounded maximum (read_sample_size index maximum sample_index) _
        (read_sample_size-Bounded sample_index)
        (λ size.
          bind-Bounded maximum _ _ (unread-Bounded maximum)
            (λ _. catch_up-Bounded preceding (add64 sample_index 1) (add64 offset size)))

  enter_chunk-Bounded : (cursor : ChunkCursor) → Bounded maximum (enter_chunk index maximum cursor)
  unfolding enter_chunk
  enter_chunk-Bounded cursor =
      bind-Bounded maximum (read_chunk_offset index maximum cursor.chunk_index) _
        (read_chunk_offset-Bounded cursor.chunk_index) (λ start. unread-Bounded maximum)

  leave_run-Bounded :
      (cursor : ChunkCursor) (entry : Mp4SampleToChunkRow) (rows : List Mp4SampleToChunkRow)
      → Bounded maximum (leave_run index maximum cursor entry rows)
  unfolding leave_run
  leave_run-Bounded cursor entry [] = unread-Bounded maximum
  leave_run-Bounded cursor entry (next ∷ rows) = enter_chunk-Bounded _

  leave_chunk-Bounded :
      (cursor : ChunkCursor) (entry : Mp4SampleToChunkRow) (rows : List Mp4SampleToChunkRow)
      → Bounded maximum (leave_chunk index maximum cursor entry rows)
  unfolding leave_chunk
  leave_chunk-Bounded cursor entry rows =
      if-Bounded maximum _ _ _ (leave_run-Bounded _ entry rows) (enter_chunk-Bounded _)

  advance_on-Bounded :
      (cursor : ChunkCursor) (rows : List Mp4SampleToChunkRow) (size : ℕ)
      → Bounded maximum (advance_on index maximum cursor rows size)
  unfolding advance_on
  advance_on-Bounded cursor [] size = unread-Bounded maximum
  advance_on-Bounded cursor (entry ∷ rows) size =
      if-Bounded maximum _ _ _
        (bind-Bounded maximum _ _ (unread-Bounded maximum) (λ _. unread-Bounded maximum))
        (leave_chunk-Bounded cursor entry rows)

  advance_cursor-Bounded :
      (cursor : ChunkCursor) (size : ℕ) → Bounded maximum (advance_cursor index maximum cursor size)
  unfolding advance_cursor
  advance_cursor-Bounded cursor size = advance_on-Bounded cursor cursor.rows size

  offset_of_ordinal-Bounded :
      (sample_index ordinal : ℕ)
      → Bounded maximum (offset_of_ordinal index maximum sample_index ordinal)
  unfolding offset_of_ordinal
  offset_of_ordinal-Bounded sample_index ordinal =
      if-Bounded maximum (not (index.tables.default_sample_size == 0)) _ _
        (bind-Bounded maximum _ _ (unread-Bounded maximum) (λ _. unread-Bounded maximum))
        (catch_up-Bounded ordinal (sub64 sample_index ordinal) 0)

  seek_cursor-Bounded :
      (sample_index : ℕ) → Bounded maximum (seek_cursor index maximum sample_index)
  unfolding seek_cursor
  seek_cursor-Bounded sample_index = bind-Bounded maximum _ _ (unread-Bounded maximum) (λ cursor.
      bind-Bounded maximum (read_chunk_offset index maximum cursor.chunk_index) _
        (read_chunk_offset-Bounded cursor.chunk_index)
        (λ start.
          bind-Bounded maximum
            (offset_of_ordinal index maximum sample_index cursor.ordinal_in_chunk) _
            (offset_of_ordinal-Bounded sample_index cursor.ordinal_in_chunk)
            (λ offset. unread-Bounded maximum)))

module _ (index : Mp4SampleTableIndex) (request : Mp4SamplePageRequest) where
  abbrev maximum : ℕ
  maximum = request.maximum_table_reads_per_page

  check_extent-Bounded :
      (cursor : ChunkCursor) (size : ℕ) (previous : Previous)
      → Bounded maximum (check_extent index request cursor size previous)
  unfolding check_extent
  check_extent-Bounded cursor size previous =
      let offset = sample_offset index request cursor in
      refuse_if-Bounded maximum
        (add_would_overflow cursor.chunk_start_offset cursor.offset_in_chunk) _ _ _
        (refuse_if-Bounded maximum (add_would_overflow offset size) _ _ _ (
          refuse_if-Bounded maximum
            (not (index.tables.source_size_bytes == 0)
              && ltb index.tables.source_size_bytes (add64 offset size))
            _ _ _
            (refuse_if-Bounded maximum (overlaps previous offset size) _ _ _
              (unread-Bounded maximum))))

  read_sync-Bounded : (sample_index : ℕ) → Bounded maximum (read_sync index request sample_index)
  unfolding read_sync
  read_sync-Bounded sample_index =
      if-Bounded maximum index.tables.has_sync_sample_table _ _ (table_read-Bounded maximum _ _ _)
        (unread-Bounded maximum)

  describe-Bounded :
      (sample_index : ℕ) (cursors : Cursors) (size : ℕ)
      → Bounded maximum (describe index request sample_index cursors size)
  unfolding describe
  describe-Bounded sample_index cursors size =
      bind-Bounded maximum _ _ (unread-Bounded maximum) (λ _.
        bind-Bounded maximum (read_sync index request sample_index) _
          (read_sync-Bounded sample_index)
          (λ is_sync.
            bind-Bounded maximum _ _ (unread-Bounded maximum) (λ span. unread-Bounded maximum)))

  advance-Bounded :
      (cursors : Cursors) (size : ℕ) → Bounded maximum (advance index request cursors size)
  unfolding advance
  advance-Bounded cursors size =
      bind-Bounded maximum (advance_cursor index maximum cursors.chunk size) _
        (advance_cursor-Bounded index maximum cursors.chunk size)
        (λ chunk.
          bind-Bounded maximum (lift (advance_timeline cursors.timeline)) _ (unread-Bounded maximum)
            (λ timeline.
              bind-Bounded maximum
                (lift (
                  Tables.required (advance_composition cursors.composition) inconsistent_tables
                    "ctts does not cover the requested sample"))
                _ (unread-Bounded maximum) (λ composition. unread-Bounded maximum)))

  take_sample-Bounded :
      (asked sample_index : ℕ) (cursors : Cursors) (previous : Previous)
      → Bounded maximum (take_sample index request asked sample_index cursors previous)
  unfolding take_sample
  take_sample-Bounded asked sample_index cursors previous =
      bind-Bounded maximum _ _ (unread-Bounded maximum) (λ _.
        bind-Bounded maximum (read_sample_size index maximum sample_index) _
          (read_sample_size-Bounded index maximum sample_index)
          (λ size.
            bind-Bounded maximum (check_extent index request cursors.chunk size previous) _
              (check_extent-Bounded cursors.chunk size previous)
              (λ _.
                bind-Bounded maximum (describe index request sample_index cursors size) _
                  (describe-Bounded sample_index cursors size)
                  (λ descriptor. unread-Bounded maximum))))

  page_loop-Bounded :
      (left asked sample_index : ℕ) (cursors : Cursors) (previous : Previous)
      → Bounded maximum (page_loop index request left asked sample_index cursors previous)
  unfolding page_loop
  page_loop-Bounded zero asked sample_index cursors previous =
      bind-Bounded maximum (take_sample index request asked sample_index cursors previous) _
        (take_sample-Bounded asked sample_index cursors previous) (λ taken. unread-Bounded maximum)
  page_loop-Bounded (suc left) asked sample_index cursors previous =
      bind-Bounded maximum (take_sample index request asked sample_index cursors previous) _
        (take_sample-Bounded asked sample_index cursors previous)
        (λ taken.
          bind-Bounded maximum (advance index request cursors taken.0) _
            (advance-Bounded cursors taken.0)
            (λ next.
              bind-Bounded maximum _ _
                (page_loop-Bounded left (asked + 1) (add64 sample_index 1) next _)
                (λ descriptors. unread-Bounded maximum)))

  position_chunk-Bounded : (start : ℕ) → Bounded maximum (position_chunk index request start)
  unfolding position_chunk
  position_chunk-Bounded start =
      if-Bounded maximum (start == 0) _ _
        (bind-Bounded maximum (seek_cursor index maximum 0) _ (seek_cursor-Bounded index maximum 0)
          (λ cursor. unread-Bounded maximum))
        (bind-Bounded maximum (seek_cursor index maximum (sub64 start 1)) _
          (seek_cursor-Bounded index maximum (sub64 start 1))
          (λ cursor.
            bind-Bounded maximum (read_sample_size index maximum (sub64 start 1)) _
              (read_sample_size-Bounded index maximum (sub64 start 1))
              (λ size. bind-Bounded maximum _ _ (unread-Bounded maximum) (λ _.
                bind-Bounded maximum (advance_cursor index maximum cursor size) _
                  (advance_cursor-Bounded index maximum cursor size)
                  (λ at. unread-Bounded maximum)))))

  page_samples-Bounded :
      (start page_count : ℕ) → Bounded maximum (page_samples index request start page_count)
  unfolding page_samples
  page_samples-Bounded start page_count =
      bind-Bounded maximum (position_chunk index request start) _ (position_chunk-Bounded start)
        (λ chunk.
          bind-Bounded maximum (lift (seek_timeline index.tables.time_to_sample start)) _
            (unread-Bounded maximum)
            (λ timeline.
              bind-Bounded maximum
                (lift (
                  Tables.required (seek_composition index.tables.composition_offsets start)
                    inconsistent_tables "ctts does not cover the requested sample"))
                _ (unread-Bounded maximum)
                (λ composition. page_loop-Bounded (page_count - 1) 1 start _ chunk.1)))

  outcome-bounded :
      (first : ℕ) (result : ℕ × Answer (List SampleDescriptor))
      → result.0 ≤ maximum
      → (page_outcome index request first result).table_read_count ≤ maximum
  unfolding page_outcome
  outcome-bounded first (reads, Answer.ok descriptors) few = few
  outcome-bounded first (reads, Answer.refused status message) few = few

  page_of-bounded :
      (checked : Answer ℕ) → (page_of index request checked).table_read_count ≤ maximum
  unfolding page_of
  page_of-bounded (Answer.refused status message) = omega arith
  page_of-bounded (Answer.ok start) =
      outcome-bounded start (page_samples index request start (page_count index request start) 0)
        (page_samples-Bounded start (page_count index request start) 0 (omega arith))

  -- Whatever the tables hold, and whether the page succeeds or is refused, the table reads that it
  -- counts are at most the budget of the request.
  pub descriptor_page-table_read_count :
      (descriptor_page index request).table_read_count ≤ request.maximum_table_reads_per_page
  unfolding descriptor_page
  descriptor_page-table_read_count = page_of-bounded (check_request index request)
