-- ===== src/BoundedView.antt =====
-- src/core/bounded_source_view.cpp: a source whose bytes are those of a mapping into another.
pub mod Refines
use stream_view.Common.{
  ℕ, ◌+◌, ◌-◌, ◌*◌, ◌/◌, ◌%◌, List, [], ◌∷◌, ◌++◌, Option, none, some, String, min, ltb, leb, ◌==◌,
  ◌||◌, ◌&&◌, not, take, if◌then◌else◌, mul64, add64, u64_max,
}
use stream_view.Coordinates.{
  SourceSpan, SourceMapping, FieldLocation, make_range, locate, byte_offset, bit_offset_in_byte,
  is_nil,
}
use stream_view.Source.{
  RandomAccessSource, SourceReadResult, SourceReadStatus, complete, end_of_source, error,
  read_result, is_complete,
}

-- The result after the loop of `readAt`, for a destination of `size` bytes.
abbrev pub filled_result : ℕ → ℕ → ℕ → List ℕ → SourceReadResult
filled_result count size bytes_filled filled =
    read_result (if bytes_filled == count && count == size then complete else end_of_source)
      bytes_filled "" filled

-- The loop of `readAt` over the located spans, `filled` being the bytes written so far.
unfoldable pub fill : RandomAccessSource → ℕ → ℕ → ℕ → List ℕ → List SourceSpan → SourceReadResult
fill base count size bytes_filled filled [] = filled_result count size bytes_filled filled
fill base count size bytes_filled filled (span ∷ spans) =
    let to_read = min (span.bit_length / 8) (count - bytes_filled) in
    let result = base.read_at (byte_offset span.start) to_read in
    let filled' = filled ++ take result.bytes_read result.written in
    let bytes_filled' = bytes_filled + result.bytes_read in
    let rest = fill base count size bytes_filled' filled' spans in
    if not (bit_offset_in_byte span.start == 0) || not (span.bit_length % 8 == 0)
    then read_result error bytes_filled "Bounded source view span is not byte-aligned" filled
    else if ltb to_read result.bytes_read
    then read_result error bytes_filled "Bounded source view received an oversized read" filled
    else if not (is_complete result)
    then read_result result.status bytes_filled' result.error_message filled'
    else if not (result.bytes_read == to_read)
    then read_result error bytes_filled'
        "Bounded source view received an incomplete successful read" filled'
    else if leb count bytes_filled'
    then filled_result count size bytes_filled' filled'
    else rest

unfoldable pub view_read_at : RandomAccessSource → SourceMapping → ℕ → ℕ → ℕ → SourceReadResult
view_read_at base mapping size_bytes offset size =
    let count = min size (size_bytes - offset) in
    let limit = u64_max / 8 in
    if size == 0
    then read_result complete 0 "" []
    else if leb size_bytes offset
    then read_result end_of_source 0 "" []
    else if ltb limit offset || ltb limit count || ltb limit (add64 offset count)
    then read_result error 0 "Bounded source view coordinate overflow" []
    else elim (make_range mapping.view_id (mul64 offset 8) (mul64 count 8)) [
      | none ↦ read_result error 0 "Invalid range in bounded source view" []
      | some range ↦ elim (locate mapping range) [
        | none ↦ read_result error 0 "Failed to locate spans in bounded source view" []
        | some location ↦
            (if is_nil location.source_spans
              then read_result error 0 "Failed to locate spans in bounded source view" []
              else fill base count size 0 [] location.source_spans)
      ]
    ]

unfoldable pub bounded_view : RandomAccessSource → SourceMapping → ℕ → RandomAccessSource
bounded_view base mapping size_bytes = record {
  size_bytes = size_bytes;
  read_at = λ offset size. view_read_at base mapping size_bytes offset size;
}
