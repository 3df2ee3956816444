-- ===== src/SampleTables/Paged.antt =====
-- The samples of a page, against the tables as functions of a sample's number.
use stream_view.Common.{
  ℕ, zero, suc, ◌+◌, ◌*◌, ◌≤◌, ◌<◌, ◌≡◌, ◌⊎◌, refl, ap, ◌∙◌, List, [], ◌∷◌, none, some, false,
  arith, ltb, ◌==◌, ◌&&◌, ◌||◌, not, add64, mul64, u64_max, IsU64,
}
use stream_view.Common.Int.{pos, ◌+ℤ◌, i64_max}
use stream_view.Coordinates.{SourceSpan, make_span}
use stream_view.SampleTables.{
  Mp4SampleTableIndex, Mp4TimeToSampleRow, Mp4CompositionOffsetRow, Answer, add_would_overflow,
  signed_add_would_overflow, ranges_intersect, inconsistent_tables, invalid_request,
}
use stream_view.SampleTables as Tables
use stream_view.SampleTables.Timing.{
  TimelineCursor, advance_timeline, advance_composition, duration_at, composition_offset_at,
}
use stream_view.SampleTables.Chunks.{lift, advance_cursor, ChunkCursor}
use stream_view.SampleTables.Overflow.{OkAll, refusal-OkAll, required-OkAll}
use stream_view.SampleTables.Timelines.{
  described, delta_of, decode_time, cursor_at, duration_at-place,
}
use stream_view.SampleTables.TimelineBounds.{advance_timeline-next}
use stream_view.SampleTables.Compositions.{
  offset_of, offsets_described, Covered, offset_cursor, advance_composition-some,
  composition_offset_at-offset_cursor,
}
use stream_view.SampleTables.Checked.{Ascending, chunk_samples}
use stream_view.SampleTables.Offsets.{size_at, StartsAt}
use stream_view.SampleTables.Located.{Located, IsPlace, Located-IsPlace}
use stream_view.SampleTables.LocatedSteps.{advance_cursor-Located}
use stream_view.SampleTables.Gives.{Gives, bind-Gives, skip-Gives, refuse_if-Gives}
use stream_view.SampleTables.Pages.{
  SampleDescriptor, Mp4SamplePageRequest, Cursors, Previous, overlaps, sample_offset,
  max_byte_coordinate, check_extent, read_sync, describe, advance,
}

-- Sample `i` of a track, at the `size` bytes from `offset` on.
pub record IsSample (index : Mp4SampleTableIndex) (i offset size : ℕ)
    (descriptor : SampleDescriptor) : Type 0 where
  pub numbered : descriptor.sample_index ≡ i
  pub of_track : descriptor.track_id ≡ index.tables.track_id
  pub scaled : descriptor.timescale ≡ index.tables.timescale
  pub decoded : descriptor.dts ≡ pos (decode_time index.tables.time_to_sample i)
  pub presented :
      descriptor.pts
      ≡ descriptor.dts
        +ℤ offset_of index.tables.composition_offset_version index.tables.composition_offsets i
  pub lasts : descriptor.duration ≡ delta_of index.tables.time_to_sample i
  pub spans : descriptor.source_spans ≡ record { start = offset * 8; bit_length = size * 8 } ∷ []
  pub placed : IsPlace index i offset descriptor.sample_description_index
  pub sized : size ≡ size_at index i
  pub addressable : offset + size ≤ u64_max
  pub inside :
      (index.tables.source_size_bytes ≡ 0) ⊎ (offset + size ≤ index.tables.source_size_bytes)

-- Two extents share no byte.
abbrev pub Apart : ℕ → ℕ → ℕ → ℕ → Type 0
Apart start size offset next =
    (size ≡ 0) ⊎ (next ≡ 0) ⊎ (start + size ≤ offset) ⊎ (offset + next ≤ start)

-- An extent shares no byte with that of the sample before, unless that one is not addressable, which
-- every sample of a page is.
abbrev pub Clear : Previous → ℕ → ℕ → Type 0
Clear none offset size = Unit {0}
Clear (some (start, previous_size)) offset size =
    (u64_max < start + previous_size) ⊎ Apart start previous_size offset size

-- Descriptors of consecutive samples from `i` on, neighbours apart.
unfoldable pub Page : Mp4SampleTableIndex → ℕ → Previous → List SampleDescriptor → Type 0
Page index i previous [] = Unit {0}
Page index i previous (descriptor ∷ descriptors) =
    (offset : ℕ) × (size : ℕ) × IsSample index i offset size descriptor
    × Clear previous offset size
    × Page index (suc i) (some (offset, size)) descriptors

-- What the sample before a page's first occupies; there is none before sample 0.
unfoldable pub IsBefore : Mp4SampleTableIndex → ℕ → Previous → Type 0
IsBefore index zero previous = previous ≡ none
IsBefore index (suc before) previous =
    (offset : ℕ) × (description : ℕ) × (previous ≡ some (offset, size_at index before))
    × IsPlace index before offset description

overlaps-Clear :
    (previous : Previous) (offset size : ℕ)
    → offset + size ≤ u64_max
    → overlaps previous offset size ≡ false
    → Clear previous offset size
unfolding ranges_intersect
overlaps-Clear none offset size fits e = tt
overlaps-Clear (some (start, previous_size)) offset size fits e = ground (arith, e)

make_span-record :
    (start bit_length : ℕ) (span : SourceSpan)
    → make_span start bit_length ≡ some span
    → span ≡ record { start = start; bit_length = bit_length }
unfolding make_span
make_span-record start bit_length span e = ground (arith, e)

-- An index whose tables agree, with 64-bit chunk offsets.
pub record Sound (index : Mp4SampleTableIndex) : Type 0 where
  pub wide : IsU64 index.tables.chunk_count
  pub ascending : Ascending index.tables 0 index.tables.sample_to_chunk
  pub chunked :
      chunk_samples index.tables.chunk_count index.tables.sample_to_chunk
      ≡ described index.tables.time_to_sample
  pub few : described index.tables.time_to_sample ≤ u64_max
  pub few_offsets : offsets_described index.tables.composition_offsets ≤ u64_max
  pub covered :
      (j : ℕ)
      → j < described index.tables.time_to_sample
      → Covered index.tables.composition_offsets j
  pub starts : (chunk start : ℕ) → StartsAt index.readers.chunk_offset chunk start → IsU64 start

module _ (index : Mp4SampleTableIndex) (request : Mp4SamplePageRequest) where
  -- What the checks of an extent establish.
  unfoldable pub Checked : ChunkCursor → ℕ → Previous → Type 0
  Checked cursor size previous =
      (sample_offset index request cursor + size ≤ u64_max)
      × ((index.tables.source_size_bytes ≡ 0)
          ⊎ (sample_offset index request cursor + size ≤ index.tables.source_size_bytes))
      × Clear previous (sample_offset index request cursor) size
      × (sample_offset index request cursor ≤ max_byte_coordinate)
      × (size ≤ max_byte_coordinate)
      × (sample_offset index request cursor ≡ cursor.chunk_start_offset + cursor.offset_in_chunk)

  pub check_extent-Gives :
      (cursor : ChunkCursor) (size : ℕ) (previous : Previous)
      → IsU64 cursor.chunk_start_offset
      → Gives (λ _. Checked cursor size previous) (check_extent index request cursor size previous)
  unfolding check_extent Checked add_would_overflow
  check_extent-Gives cursor size previous start =
      let offset = sample_offset index request cursor in
      refuse_if-Gives _ (add_would_overflow cursor.chunk_start_offset cursor.offset_in_chunk) _ _ _
        (λ exact. refuse_if-Gives _ (add_would_overflow offset size) _ _ _ (λ fits.
          refuse_if-Gives _
            (not (index.tables.source_size_bytes == 0)
              && ltb index.tables.source_size_bytes (add64 offset size))
            _ _ _
            (λ within. refuse_if-Gives _ (overlaps previous offset size) _ _ _ (λ clear reads.
              refusal-OkAll _ (ltb max_byte_coordinate offset || ltb max_byte_coordinate size) _ _
                (λ small.
                  let bound : offset + size ≤ u64_max = ground (arith, small) in
                  (
                    bound,
                    ground (arith, within, bound),
                    overlaps-Clear previous offset size bound clear,
                    ground (arith, small),
                    ground (arith, small),
                    ground (arith, exact, start),
                  ))))))

  abbrev pub stts : List Mp4TimeToSampleRow
  stts = index.tables.time_to_sample

  abbrev pub ctts : List Mp4CompositionOffsetRow
  ctts = index.tables.composition_offsets

  -- The cursors stand at a sample.
  pub record At (i : ℕ) (cursors : Cursors) : Type 0 where
    pub timeline : cursors.timeline ≡ cursor_at stts i (decode_time stts i)
    pub composition : cursors.composition ≡ offset_cursor ctts i
    pub inside : i < described stts
    pub bounded : decode_time stts i ≤ i64_max
    pub located : Located index i cursors.chunk

  pub describe-Gives :
      (i : ℕ) (cursors : Cursors) (size : ℕ) (previous : Previous)
      → At i cursors
      → Checked cursors.chunk size previous
      → size ≡ size_at index i
      → Gives
          (IsSample index i (sample_offset index request cursors.chunk) size)
          (describe index request i cursors size)
  unfolding describe Checked OkAll
  describe-Gives i cursors size previous at checked sized =
      let offset = sample_offset index request cursors.chunk in
      let dts = cursors.timeline.dts in
      let delay =
        composition_offset_at index.tables.composition_offset_version cursors.composition in
      refuse_if-Gives _ (signed_add_would_overflow dts delay) _ _ _ (λ presentable.
        skip-Gives _ (read_sync index request i) _ (λ is_sync.
          bind-Gives
            (λ (span : SourceSpan). span ≡ record { start = offset * 8; bit_length = size * 8 }) _
            (lift (
              Tables.required (make_span (mul64 offset 8) (mul64 size 8)) invalid_request
                "Sample source span is not representable"))
            _
            (λ reads. required-OkAll _ (make_span (mul64 offset 8) (mul64 size 8)) _ _ (λ span e.
              let start : mul64 offset 8 ≡ offset * 8 = omega (arith, checked.3) in
              let length_bits : mul64 size 8 ≡ size * 8 = omega (arith, checked.4) in
              make_span-record (offset * 8) (size * 8) span (rw (← start, ← length_bits) e)))
            (λ span e reads. record {
              numbered = refl;
              of_track = refl;
              scaled = refl;
              decoded = ap (λ (cursor : TimelineCursor). cursor.dts) at.timeline;
              presented =
                  ap (λ d. dts +ℤ d)
                    (ap (composition_offset_at index.tables.composition_offset_version)
                        at.composition
                      ∙ composition_offset_at-offset_cursor index.tables.composition_offset_version
                          ctts i);
              lasts =
                  ap duration_at at.timeline
                  ∙ duration_at-place stts i (decode_time stts i) at.inside;
              spans = ap (λ x. x ∷ []) e;
              placed = Located-IsPlace index i offset cursors.chunk at.located checked.5;
              sized = sized;
              addressable = checked.0;
              inside = checked.1;
            })))

  pub advance-Gives :
      (i : ℕ) (cursors : Cursors) (size : ℕ)
      → Sound index
      → suc i < described stts
      → size ≡ size_at index i
      → At i cursors
      → Gives (At (suc i)) (advance index request cursors size)
  unfolding advance OkAll
  advance-Gives i cursors size sound more sized at =
      bind-Gives (Located index (suc i)) _
        (advance_cursor index request.maximum_table_reads_per_page cursors.chunk size) _
        (advance_cursor-Located index request.maximum_table_reads_per_page i size cursors.chunk
          sound.wide sound.ascending (omega (arith, sound.chunked, sound.few))
          (omega (arith, more, sound.few)) sized at.located)
        (λ chunk located.
          bind-Gives
            (λ next.
              (next ≡ cursor_at stts (suc i) (decode_time stts (suc i)))
              × (decode_time stts (suc i) ≤ i64_max))
            _ (lift (advance_timeline cursors.timeline)) _
            (λ reads. rw at.timeline (advance_timeline-next stts i sound.few more at.bounded))
            (λ timeline (moved, bounded).
              bind-Gives (λ next. next ≡ offset_cursor ctts (suc i)) (At (suc i))
                (lift (
                  Tables.required (advance_composition cursors.composition) inconsistent_tables
                    "ctts does not cover the requested sample"))
                _
                (λ reads. required-OkAll _ (advance_composition cursors.composition) _ _ (λ next e.
                  let step =
                    ap advance_composition at.composition
                    ∙ advance_composition-some ctts i sound.few_offsets
                        (sound.covered (suc i) more) in
                  cc))
                (λ composition shifted reads.
                  let next : Cursors = record {
                    chunk = chunk;
                    timeline = timeline;
                    composition = composition;
                  } in
                  let stands : At (suc i) next = record {
                    timeline = moved;
                    composition = shifted;
                    inside = more;
                    bounded = bounded;
                    located = located;
                  } in
                  stands)))
