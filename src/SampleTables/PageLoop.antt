-- ===== src/SampleTables/PageLoop.antt =====
-- A page of an index is the page that its tables describe.
use stream_view.Common.{
  ℕ, zero, suc, ◌+◌, ◌-◌, ◌≤◌, ◌<◌, ◌≡◌, ◌⊎◌, refl, ap, List, [], ◌∷◌, some, inl, inr, arith, ◌==◌,
  false, IsU64, sub64, add64, length, answers,
}
use stream_view.Common.Int.{i64_max}
use stream_view.SampleTables.{
  add_would_overflow, Mp4SampleTableIndex, Mp4TimeToSampleRow, Mp4CompositionOffsetRow, Answer,
  add_would_overflow, signed_add_would_overflow, ranges_intersect, inconsistent_tables,
  invalid_request,
}
use stream_view.SampleTables as Tables
use stream_view.SampleTables.Timing.{seek_timeline, seek_composition}
use stream_view.SampleTables.Chunks.{lift, read_sample_size}
use stream_view.SampleTables.Overflow.{OkAll, required-OkAll, map-OkAll}
use stream_view.SampleTables.Timelines.{described, decode_time, cursor_at}
use stream_view.SampleTables.TimelineBounds.{seek_timeline-stands}
use stream_view.SampleTables.Compositions.{
  offsets_described, Covered, offset_cursor, seek_composition-some,
}
use stream_view.SampleTables.Gives.{Gives, bind-Gives, refuse_if-Gives}
use stream_view.SampleTables.Pages.{
  SampleDescriptor, Mp4SamplePageRequest, Cursors, Previous, sample_offset, check_extent, describe,
  advance, take_sample, page_loop, position_chunk, page_samples,
}
use stream_view.SampleTables.Offsets.{size_at, read_sample_size-Gives}
use stream_view.SampleTables.Located.{Located, Located-IsPlace, seek_cursor-Located}
use stream_view.SampleTables.LocatedSteps.{advance_cursor-Located}
use stream_view.SampleTables.Chunks.{ChunkCursor, seek_cursor, advance_cursor}
use stream_view.SampleTables.Paged.{
  Sound, IsSample, Clear, Page, IsBefore, Checked, At, check_extent-Gives, describe-Gives,
  advance-Gives,
}
use stream_view.SampleTables.DescriptorPage.{page_count}

module _ (index : Mp4SampleTableIndex) (request : Mp4SamplePageRequest) where
  take_sample-Gives :
      (asked i : ℕ) (cursors : Cursors) (previous : Previous)
      → Sound index
      → At index request i cursors
      → Gives
          (λ taken.
            IsSample index i (sample_offset index request cursors.chunk) taken.0 taken.1
            × Clear previous (sample_offset index request cursors.chunk) taken.0)
          (take_sample index request asked i cursors previous)
  unfolding take_sample OkAll
  take_sample-Gives asked i cursors previous sound at =
      refuse_if-Gives _ (answers request.cancellation asked) _ _ _ (λ going.
        bind-Gives (λ size. size ≡ size_at index i) _
          (read_sample_size index request.maximum_table_reads_per_page i) _
          (read_sample_size-Gives index request.maximum_table_reads_per_page i)
          (λ size sized.
            bind-Gives _ _ (check_extent index request cursors.chunk size previous) _
              (check_extent-Gives index request cursors.chunk size previous (
                sound.starts cursors.chunk.chunk_index cursors.chunk.chunk_start_offset
                  at.located.starts))
              (λ _ checked.
                bind-Gives _ _ (describe index request i cursors size) _
                  (describe-Gives index request i cursors size previous at checked sized)
                  (λ descriptor sample reads. (sample, (unfold Checked in checked.2))))))

  page_loop-Gives :
      (left asked i : ℕ) (cursors : Cursors) (previous : Previous)
      → Sound index
      → i + left < described index.tables.time_to_sample
      → At index request i cursors
      → Gives
          (λ descriptors. Page index i previous descriptors × (length descriptors ≡ suc left))
          (page_loop index request left asked i cursors previous)
  unfolding page_loop OkAll Page
  page_loop-Gives zero asked i cursors previous sound more at =
      bind-Gives _ _ (take_sample index request asked i cursors previous) _
        (take_sample-Gives asked i cursors previous sound at)
        (λ taken (sample, clear) reads.
          ((sample_offset index request cursors.chunk, taken.0, sample, clear, tt), refl))
  page_loop-Gives (suc left) asked i cursors previous sound more at =
      let next_index : add64 i 1 ≡ suc i = omega (arith, more, sound.few) in
      bind-Gives _ _ (take_sample index request asked i cursors previous) _
        (take_sample-Gives asked i cursors previous sound at)
        (λ taken (sample, clear).
          bind-Gives _ _ (advance index request cursors taken.0) _
            (advance-Gives index request i cursors taken.0 sound (omega (arith, more)) sample.sized
              at)
            (λ next stands.
              bind-Gives
                (λ descriptors.
                  Page index (suc i) (some (sample_offset index request cursors.chunk, taken.0))
                    descriptors
                  × (length descriptors ≡ suc left))
                _
                (page_loop index request left (asked + 1) (add64 i 1) next
                  (some (sample_offset index request cursors.chunk, taken.0)))
                _
                (rw next_index (
                  page_loop-Gives left (asked + 1) (suc i) next
                    (some (sample_offset index request cursors.chunk, taken.0)) sound
                    (omega (arith, more)) stands))
                (λ descriptors (page, count) reads. (
                  (sample_offset index request cursors.chunk, taken.0, sample, clear, page),
                  ap suc count,
                ))))

-- The offset of a located sample, when its sum is one that the code lets pass.
located_offset :
    (index : Mp4SampleTableIndex) (request : Mp4SamplePageRequest) (cursor : ChunkCursor)
    → IsU64 cursor.chunk_start_offset
    → add_would_overflow cursor.chunk_start_offset cursor.offset_in_chunk ≡ false
    → sample_offset index request cursor ≡ cursor.chunk_start_offset + cursor.offset_in_chunk
unfolding add_would_overflow
located_offset index request cursor start exact = ground (arith, exact, start)

-- Every sample of an index is covered by its ctts.
pub covers :
    (rows : List Mp4CompositionOffsetRow) (count : ℕ)
    → (rows ≡ []) ⊎ (offsets_described rows ≡ count)
    → (j : ℕ) → j < count
    → Covered rows j
unfolding Covered offsets_described
covers [] count agree j h = tt
covers (entry ∷ rows) count (inl e) j h = absurd (cc)
covers (entry ∷ rows) count (inr e) j h = omega arith

pub covers_few :
    (rows : List Mp4CompositionOffsetRow) (count : ℕ)
    → (rows ≡ []) ⊎ (offsets_described rows ≡ count)
    → offsets_described rows ≤ count
unfolding offsets_described
covers_few rows count (inl e) = rw e (omega arith)
covers_few rows count (inr e) = omega arith

module _ (index : Mp4SampleTableIndex) (request : Mp4SamplePageRequest) where
  -- The chunk cursor of a page is located at its first sample, and comes with the sample before.
  abbrev Positioned : ℕ → ChunkCursor × Previous → Type 0
  Positioned start chunk = Located index start chunk.0 × IsBefore index start chunk.1

  position_chunk-Located :
      (start : ℕ)
      → Sound index
      → start < described index.tables.time_to_sample
      → Gives (Positioned start) (position_chunk index request start)
  unfolding position_chunk OkAll IsBefore
  position_chunk-Located zero sound inside =
      bind-Gives (Located index 0) _ (seek_cursor index request.maximum_table_reads_per_page 0) _
        (seek_cursor-Located index request.maximum_table_reads_per_page 0 sound.wide sound.ascending
          (omega (arith, sound.chunked, sound.few)) (omega (arith, sound.chunked, inside)))
        (λ cursor located reads. (located, refl))
  position_chunk-Located (suc before) sound inside =
      let reads_budget = request.maximum_table_reads_per_page in
      let later : (suc before == 0) ≡ false = ground arith in
      let at : sub64 (suc before) 1 ≡ before = omega (arith, inside, sound.few) in
      rw (later, at)
        (bind-Gives (Located index before) _ (seek_cursor index reads_budget before) _
          (seek_cursor-Located index reads_budget before sound.wide sound.ascending
            (omega (arith, sound.chunked, sound.few)) (omega (arith, sound.chunked, inside)))
          (λ cursor located.
            bind-Gives (λ size. size ≡ size_at index before) _
              (read_sample_size index reads_budget before) _
              (read_sample_size-Gives index reads_budget before)
              (λ size sized.
                refuse_if-Gives _
                  (add_would_overflow cursor.chunk_start_offset cursor.offset_in_chunk) _ _ _
                  (λ exact.
                    bind-Gives (Located index (suc before)) _
                      (advance_cursor index reads_budget cursor size) _
                      (advance_cursor-Located index reads_budget before size cursor sound.wide
                        sound.ascending (omega (arith, sound.chunked, sound.few))
                        (omega (arith, inside, sound.few)) sized located)
                      (λ next stands reads.
                        let place =
                          Located-IsPlace index before (sample_offset index request cursor) cursor
                            located
                            (located_offset index request cursor
                              (sound.starts cursor.chunk_index cursor.chunk_start_offset
                                located.starts)
                              exact) in
                        (
                          stands,
                          (
                            sample_offset index request cursor,
                            cursor.sample_description_index,
                            ap (λ n. some (sample_offset index request cursor, n)) sized,
                            place,
                          ),
                        ))))))

  -- Descriptors of the samples from `start` on, the first apart from the sample before it as well.
  abbrev pub Follows : ℕ → List SampleDescriptor → Type 0
  Follows start descriptors =
      (previous : Previous) × IsBefore index start previous × Page index start previous descriptors

  pub page_samples-Gives :
      (start page_count : ℕ)
      → Sound index
      → start + (page_count - 1) < described index.tables.time_to_sample
      → Gives
          (λ descriptors. Follows start descriptors × (length descriptors ≡ suc (page_count - 1)))
          (page_samples index request start page_count)
  unfolding page_samples OkAll
  page_samples-Gives start page_count sound inside =
      bind-Gives (Positioned start) _ (position_chunk index request start) _
        (position_chunk-Located start sound (omega (arith, inside)))
        (λ chunk (located, before).
          bind-Gives
            (λ cursor.
              (cursor
                ≡ cursor_at index.tables.time_to_sample start
                    (decode_time index.tables.time_to_sample start))
              × (decode_time index.tables.time_to_sample start ≤ i64_max))
            _ (lift (seek_timeline index.tables.time_to_sample start)) _
            (λ reads.
              seek_timeline-stands index.tables.time_to_sample start sound.few
                (omega (arith, inside)))
            (λ timeline (stands, bounded).
              bind-Gives (λ next. next ≡ offset_cursor index.tables.composition_offsets start) _
                (lift (
                  Tables.required (seek_composition index.tables.composition_offsets start)
                    inconsistent_tables "ctts does not cover the requested sample"))
                _
                (λ reads.
                  required-OkAll _ (seek_composition index.tables.composition_offsets start) _ _
                    (λ next e.
                      let sought =
                        seek_composition-some index.tables.composition_offsets start
                          sound.few_offsets (sound.covered start (omega (arith, inside))) in
                      cc))
                (λ composition shifted reads.
                  let cursors : Cursors = record {
                    chunk = chunk.0;
                    timeline = timeline;
                    composition = composition;
                  } in
                  let at : At index request start cursors = record {
                    timeline = stands;
                    composition = shifted;
                    inside = omega (arith, inside);
                    bounded = bounded;
                    located = located;
                  } in
                  map-OkAll
                    (λ descriptors.
                      Page index start chunk.1 descriptors
                      × (length descriptors ≡ suc (page_count - 1)))
                    _ (page_loop index request (page_count - 1) 1 start cursors chunk.1 reads).1
                    (λ descriptors (page, count). ((chunk.1, before, page), count))
                    (page_loop-Gives index request (page_count - 1) 1 start cursors chunk.1 sound
                      inside at reads))))
