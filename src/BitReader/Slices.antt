-- ===== src/BitReader/Slices.antt =====
-- Readers over a mapping and over a slice of one.
use stream_view.Common.{ℕ, ◌+◌, ◌*◌, ◌^◌, ◌≤◌, ◌<◌, List, ◌≡◌, some, refl, ap, ◌∙◌, arith}
use stream_view.BitReader.{BitReader, from_mapping, from_spans, from_mapping_slice}
use stream_view.BitReader.Numbers.{number, number-ext}
use stream_view.BitReader.Chunks.{logical_bit}
use stream_view.BitReader.Reads.{IsReader}
use stream_view.Coordinates.{SourceSpan, SourceMapping, LogicalRange}
use stream_view.Coordinates.Spans.{Within, bit_at, IsMapping}
use stream_view.Coordinates.Address.{make_range-fits}
use stream_view.Coordinates.Locate.{locate-clip, clip, clip-Within, total-clip, bit_at-clip}
use stream_view.Source.{RandomAccessSource}

-- Logical offsets with the same source bit have the same value.
logical_bit-bit_at :
    (byte : ℕ → ℕ) (xs ys : List SourceSpan) (i j : ℕ)
    → bit_at xs i ≡ bit_at ys j
    → logical_bit byte xs i ≡ logical_bit byte ys j
unfolding logical_bit
logical_bit-bit_at byte xs ys i j e = rw (e, logical_bit)

module _ (source : RandomAccessSource) (mapping : SourceMapping) (valid : IsMapping mapping)
    (inside : Within (source.size_bytes * 8) mapping.source_spans)
    (addressable : source.size_bytes * 8 < 2 ^ 64) (byte : ℕ → ℕ) where
  -- A reader over a mapping whose spans lie in the source starts as a valid reader of them.
  from_mapping-IsReader : IsReader source mapping.source_spans (from_mapping mapping)
  unfolding from_mapping from_spans
  from_mapping-IsReader = record {
    backed = refl;
    inside = inside;
    counted = valid.counted;
    bounded = valid.bounded;
    addressable = addressable;
    positioned = omega arith;
  }

  -- A slice that ends within the mapping gives a valid reader over spans of its own, at the start of
  -- as many bits as the slice has, and what that reader's bits spell is what the mapping's bits spell
  -- from the slice's start on.
  pub from_mapping_slice_lem :
      (start length : ℕ)
      → start + length ≤ mapping.logical_bit_length
      → (reader : BitReader) × (spans : List SourceSpan) × (from_mapping_slice mapping start length
          ≡ some reader)
        × IsReader source spans reader
        × (reader.logical_bit_length ≡ length)
        × (reader.position ≡ 0)
        × ((position count : ℕ)
            → position + count ≤ length
            → number (logical_bit byte spans) position count
              ≡ number (logical_bit byte mapping.source_spans) (start + position) count)
  unfolding from_mapping_slice from_spans
  from_mapping_slice_lem start length h =
      let range : LogicalRange = record {
        view_id = mapping.view_id;
        bit_offset = start;
        bit_length = length;
      } in
      let long = valid.counted in
      let bounded = valid.bounded in
      let spans = clip start (start + length) 0 mapping.source_spans in
      let sum = total-clip start (start + length) 0 mapping.source_spans in
      (
        from_spans spans length,
        spans,
        rw (
          make_range-fits mapping.view_id start length (omega arith),
          locate-clip mapping valid range (omega arith) refl h,
          from_mapping_slice,
        ),
        record {
          backed = refl;
          inside = clip-Within start (start + length) 0 _ mapping.source_spans inside;
          counted = omega arith;
          bounded = omega arith;
          addressable = addressable;
          positioned = omega arith;
        },
        refl,
        refl,
        λ position count fits. number-ext _ _ position (start + position) count (λ i l.
            logical_bit-bit_at byte spans mapping.source_spans (position + i) (start + position + i)
              (bit_at-clip start (start + length) 0 mapping.source_spans (position + i)
                  (omega arith)
                ∙ ap (bit_at mapping.source_spans) (omega arith))),
      )
