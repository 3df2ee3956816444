-- ===== src/BitReader.antt =====
-- src/core/bit_reader.cpp: big-endian reads of 1 to 64 bits across the spans of a mapping.
pub mod Numbers
pub mod Chunks
pub mod Reads
pub mod Slices
use stream_view.Common.{
  ℕ, zero, suc, ◌+◌, ◌-◌, ◌*◌, ◌/◌, ◌%◌, ◌^◌, ◌≤◌, ◌<◌, List, [], ◌∷◌, Option, none, some, Bool,
  true, false, String, min, ltb, leb, ◌==◌, ◌||◌, ◌&&◌, not, get_or, drop, if◌then◌else◌, add64,
  sub64, u64_mod,
}
use stream_view.Coordinates.{SourceSpan, SourceMapping, make_range, locate}
use stream_view.Source.{RandomAccessSource, SourceReadStatus, SourceReadResult, is_complete}

pub data BitReadStatus : Type 0 where
  complete invalid_bit_count end_of_range end_of_source source_error : BitReadStatus

pub record BitReadResult : Type 0 where
  pub status : BitReadStatus
  pub value : ℕ
  pub bit_count : ℕ
  pub error_message : String

abbrev pub failed : BitReadStatus → String → BitReadResult
failed status error_message = record {
  status = status;
  value = 0;
  bit_count = 0;
  error_message = error_message;
}

abbrev pub complete_result : ℕ → ℕ → BitReadResult
complete_result value bit_count = record {
  status = complete;
  value = value;
  bit_count = bit_count;
  error_message = "";
}

-- `(value << 1U) | bit`: the shift wraps and leaves the lowest bit clear.
abbrev pub push_bit : ℕ → ℕ → ℕ
push_bit value bit = value * 2 % u64_mod + bit

-- The loop of `readContiguousBits`, with `left` bits to go and `absolute` the next of them.
unfoldable pub collect_bits : List ℕ → ℕ → ℕ → ℕ → ℕ → ℕ
collect_bits bytes start_byte absolute zero value = value
collect_bits bytes start_byte absolute (suc left) value =
    let byte_value = get_or bytes (absolute / 8 - start_byte) 0 in
    let bit = byte_value / 2 ^ (7 - absolute % 8) % 2 in
    collect_bits bytes start_byte (add64 absolute 1) left (push_bit value bit)

unfoldable pub read_contiguous_bits : RandomAccessSource → ℕ → ℕ → BitReadResult
read_contiguous_bits source absolute_start bit_count =
    let absolute_end = sub64 (add64 absolute_start bit_count) 1 in
    let start_byte = absolute_start / 8 in
    let byte_count = sub64 (absolute_end / 8) start_byte + 1 in
    let result = source.read_at start_byte byte_count in
    if not (is_complete result) || not (result.bytes_read == byte_count)
    then elim (result.status) [
      | SourceReadStatus.end_of_source ↦ failed end_of_source ""
      | SourceReadStatus.complete ↦
          failed source_error "Source reported an incomplete successful read"
      | SourceReadStatus.error ↦ failed source_error result.error_message
    ]
    else complete_result (collect_bits result.written start_byte absolute_start bit_count 0)
        bit_count

-- `backing` holds `logicalSpanStarts_` and `backingSpans_` side by side.
pub record BitReader : Type 0 where
  pub backing : List (ℕ × SourceSpan)
  pub logical_bit_length : ℕ
  pub position : ℕ

unfoldable pub index_backing_spans : ℕ → List SourceSpan → List (ℕ × SourceSpan)
index_backing_spans logical_start [] = []
index_backing_spans logical_start (span ∷ spans) =
    (logical_start, span) ∷ index_backing_spans (add64 logical_start span.bit_length) spans

unfoldable pub from_spans : List SourceSpan → ℕ → BitReader
from_spans spans logical_bit_length = record {
  backing = index_backing_spans 0 spans;
  logical_bit_length = logical_bit_length;
  position = 0;
}

unfoldable pub from_mapping : SourceMapping → BitReader
from_mapping mapping = from_spans mapping.source_spans mapping.logical_bit_length

unfoldable pub from_mapping_slice : SourceMapping → ℕ → ℕ → Option BitReader
from_mapping_slice mapping logical_start logical_bit_length =
    elim (make_range mapping.view_id logical_start logical_bit_length) [
      | none ↦ none
      | some range ↦ elim (locate mapping range) [
        | none ↦ none
        | some location ↦ some (from_spans location.source_spans logical_bit_length)
      ]
    ]

abbrev pub remaining_bits : BitReader → ℕ
remaining_bits reader = sub64 reader.logical_bit_length reader.position

unfoldable pub seek : BitReader → ℕ → BitReader × Bool
seek reader bit_offset =
    if ltb reader.logical_bit_length bit_offset
    then (reader, false)
    else (record reader { position = bit_offset }, true)

-- `std::upper_bound` over the logical starts: the index of the first that is past the position.
unfoldable pub upper_bound : ℕ → List (ℕ × SourceSpan) → ℕ
upper_bound position [] = 0
upper_bound position ((start, span) ∷ backing) =
    let rest = upper_bound position backing in if ltb position start then 0 else suc rest

abbrev pub not_covered : BitReadResult
not_covered = failed source_error "Reader backing does not cover its logical range"

-- `chunkBits == 64 ? chunk.value : (value << chunkBits) | chunk.value`
abbrev pub join_chunk : ℕ → ℕ → ℕ → ℕ
join_chunk value chunk_bits chunk =
    if chunk_bits == 64 then chunk else value * 2 ^ chunk_bits % u64_mod + chunk

-- The loop of `readBits`, over the spans from `spanIndex` on.
unfoldable pub read_chunks :
    RandomAccessSource → ℕ → ℕ → List (ℕ × SourceSpan) → ℕ → ℕ → BitReadResult
read_chunks source bit_count logical_position [] bits_remaining value =
    if bits_remaining == 0 then complete_result value bit_count else not_covered
read_chunks source bit_count logical_position ((start, span) ∷ backing) bits_remaining value =
    let offset_in_span = sub64 logical_position start in
    let available_in_span = sub64 span.bit_length offset_in_span in
    let chunk_bits = min available_in_span bits_remaining in
    let chunk = read_contiguous_bits source (add64 span.start offset_in_span) chunk_bits in
    let rest =
      read_chunks source bit_count (add64 logical_position chunk_bits) backing
        (bits_remaining - chunk_bits) (join_chunk value chunk_bits chunk.value) in
    if bits_remaining == 0
    then complete_result value bit_count
    else elim (chunk.status) [ complete ↦ rest | _ ↦ chunk ]

-- What follows `upper_bound`: no span starts by the position, or the loop runs from the last that does.
unfoldable pub read_from : RandomAccessSource → BitReader → ℕ → ℕ → BitReadResult
read_from source reader bit_count zero = not_covered
read_from source reader bit_count (suc span_index) =
    read_chunks source bit_count reader.position (drop span_index reader.backing) bit_count 0

unfoldable pub read_bits : RandomAccessSource → BitReader → ℕ → BitReader × BitReadResult
read_bits source reader bit_count =
    let result = read_from source reader bit_count (upper_bound reader.position reader.backing) in
    if bit_count == 0 || ltb 64 bit_count
    then (reader, failed invalid_bit_count "Bit count must be 1..64")
    else if ltb (remaining_bits reader) bit_count
    then (reader, failed end_of_range "")
    else elim (result.status) [
      | complete ↦ (record reader { position = add64 reader.position bit_count }, result)
      | _ ↦ (reader, result)
    ]
