-- ===== src/EbspRbsp.antt =====
-- src/rules/h264_ebsp_rbsp_mapper.cpp and its header: which bytes of an H.264 NAL unit are its
-- RBSP, without the emulation prevention bytes (03 behind 00 00).
pub mod Bytes
pub mod Batches
pub mod Rbsp
pub mod Steps
pub mod Mappings
pub mod Totals
pub mod Starts
use stream_view.Common.{
  ℕ, ◌+◌, ◌-◌, ◌*◌, ◌/◌, ◌%◌, List, [], ◌∷◌, ◌++◌, Option, none, some, Bool, true, false, String,
  min, ltb, leb, ◌==◌, ◌||◌, ◌&&◌, not, length, if◌then◌else◌, has_value, add64, sub64, mul64,
  u64_max,
}
use stream_view.Buffered.{Buffer, ReadByte}
use stream_view.Coordinates.{
  SourceSpan, SourceMapping, from_byte_and_bit, make_span, make_mapping, byte_offset,
  bit_offset_in_byte, end_exclusive,
}
use stream_view.Source.{RandomAccessSource}

unfoldable pub make_byte_span : ℕ → ℕ → Option SourceSpan
make_byte_span offset byte_length = elim (from_byte_and_bit offset 0) [
  | none ↦ none
  | some start ↦
      if ltb ((u64_max - start) / 8) byte_length
      then none
      else make_span start (mul64 byte_length 8)
]

pub data H264EbspRbspMapStatus : Type 0 where
  in_progress complete cancelled source_error invalid_input invalid_batch_size resource_limit :
      H264EbspRbspMapStatus

pub data H264EbspRbspIssueKind : Type 0 where
  prohibited_000000 prohibited_000001 prohibited_000002 prohibited_000003xx final_zero_byte :
      H264EbspRbspIssueKind

pub record H264EbspRbspExcludedSpan : Type 0 where
  pub source_span : SourceSpan
  pub rbsp_bit_offset : ℕ

pub record H264EbspRbspIssue : Type 0 where
  pub kind : H264EbspRbspIssueKind
  pub source_span : SourceSpan

pub record H264EbspRbspMapLimits : Type 0 where
  pub maximum_mapping_segments : ℕ
  pub maximum_excluded_spans : ℕ
  pub maximum_issues : ℕ

-- `forwardedSpans_` is `front` with `back` behind it. `terminal` holds the status and the message
-- that a terminal mapper repeats.
pub record Mapper : Type 0 where
  pub rbsp_view_id : ℕ
  pub limits : H264EbspRbspMapLimits
  pub buffer : Buffer
  pub input_end_byte : ℕ
  pub source_cursor : ℕ
  pub inspected_bytes : ℕ
  pub rbsp_logical_bit_length : ℕ
  pub zero_run : ℕ
  pub pending_escape_start_byte : Option ℕ
  pub front : List SourceSpan
  pub back : Option SourceSpan
  pub mapping : SourceMapping
  pub excluded_spans : List H264EbspRbspExcludedSpan
  pub issues : List H264EbspRbspIssue
  pub terminal : Option (H264EbspRbspMapStatus × String)

abbrev pub listed : Option SourceSpan → List SourceSpan
listed none = []
listed (some span) = span ∷ []

abbrev pub forwarded_spans : Mapper → List SourceSpan
forwarded_spans mapper = mapper.front ++ listed mapper.back

abbrev pub reject : Mapper → String → Mapper
reject mapper message = record mapper { terminal = some (invalid_input, message) }

-- The constructor.
unfoldable pub make_mapper : RandomAccessSource → ℕ → SourceSpan → H264EbspRbspMapLimits → Mapper
make_mapper source rbsp_view_id ebsp_span limits =
    let cursor = byte_offset ebsp_span.start in
    let input_bytes = ebsp_span.bit_length / 8 in
    let mapper : Mapper = record {
      rbsp_view_id = rbsp_view_id;
      limits = limits;
      buffer = record { bytes = []; start = 0; end = 0 };
      input_end_byte = 0;
      source_cursor = cursor;
      inspected_bytes = 0;
      rbsp_logical_bit_length = 0;
      zero_run = 0;
      pending_escape_start_byte = none;
      front = [];
      back = none;
      mapping = record { view_id = rbsp_view_id; logical_bit_length = 0; source_spans = [] };
      excluded_spans = [];
      issues = [];
      terminal = none;
    } in
    if limits.maximum_mapping_segments == 0
      || limits.maximum_excluded_spans == 0
      || limits.maximum_issues == 0
    then reject mapper "H.264 EBSP-to-RBSP cumulative limits must be greater than zero"
    else if not (bit_offset_in_byte ebsp_span.start == 0) || not (ebsp_span.bit_length % 8 == 0)
    then reject mapper "H.264 EBSP input must be byte-aligned and byte-sized"
    else if ltb source.size_bytes cursor || ltb (source.size_bytes - cursor) input_bytes
    then reject mapper "H.264 EBSP input span exceeds the source"
    else record mapper {
      input_end_byte = cursor + input_bytes;
      buffer = record { bytes = []; start = cursor; end = cursor };
    }
