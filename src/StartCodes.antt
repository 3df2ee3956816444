-- ===== src/StartCodes.antt =====
-- src/rules/h264_start_code_scanner.cpp, its header and h264_start_code_prefix.h: the scan of an
-- H.264 Annex B byte stream for start codes, in batches.
pub mod Scan
pub mod Prefixes
pub mod Records
pub mod Passed
pub mod Steps
pub mod Batches
pub mod Totals
use stream_view.Common.{
  ℕ, zero, suc, ◌+◌, ◌-◌, ◌*◌, ◌/◌, ◌%◌, List, [], ◌∷◌, ◌++◌, Option, none, some, Bool, true, false,
  String, ltb, leb, ◌==◌, ◌||◌, ◌&&◌, not, length, if◌then◌else◌, has_value, add64, u64_max,
}
use stream_view.Buffered.{Buffer, ReadByte, read_byte}
use stream_view.Coordinates.{SourceSpan, make_span}
use stream_view.Source.{RandomAccessSource}

unfoldable pub h264_start_code_prefix_length : ℕ → ℕ → Option ℕ → Option ℕ → ℕ
h264_start_code_prefix_length first second none fourth = 0
h264_start_code_prefix_length first second (some third) none =
    if not (first == 0) || not (second == 0) then 0 else if third == 1 then 3 else 0
h264_start_code_prefix_length first second (some third) (some fourth) =
    if not (first == 0) || not (second == 0)
    then 0
    else if third == 1
    then 3
    else if not (third == 0) || not (fourth == 1)
    then 0
    else 4

unfoldable pub make_byte_span : ℕ → ℕ → Option SourceSpan
make_byte_span offset byte_length =
    if ltb (u64_max / 8) byte_length || ltb (u64_max / 8) offset
    then none
    else make_span (offset * 8) (byte_length * 8)

-- The byte that a read leaves in its variable, which starts as 0.
abbrev pub byte_of : ReadByte → ℕ
byte_of (ReadByte.available value) = value
byte_of ReadByte.end = 0
byte_of (ReadByte.error message) = 0

pub data PrefixLength : Type 0 where
  prefix : ℕ → PrefixLength
  fault : String → PrefixLength

abbrev pub scan_fallback : String
scan_fallback = "Unable to read source while scanning start codes"

-- A byte of `prefixLengthAt`: an error ends it, and `next` has the byte otherwise.
abbrev pub with_byte :
    RandomAccessSource → Buffer → ℕ → (Buffer → ℕ → Buffer × PrefixLength) → Buffer × PrefixLength
with_byte source buffer offset next =
    let (buffer', read) = read_byte source scan_fallback buffer offset in
    elim read [
      | ReadByte.available value ↦ next buffer' value
      | ReadByte.end ↦ next buffer' 0
      | ReadByte.error message ↦ (buffer', fault message)
    ]

-- The end of `prefixLengthAt`, which reads a fourth byte behind a third that is 0.
unfoldable pub prefix_after_third :
    RandomAccessSource → ℕ → ℕ → ℕ → Buffer → ℕ → Buffer × PrefixLength
prefix_after_third source offset first second buffer third =
    let at_once = h264_start_code_prefix_length first second (some third) none in
    if not (third == 0) && not (third == 1)
    then (buffer, prefix 0)
    else if not (third == 0)
    then (buffer, prefix at_once)
    else with_byte source buffer (add64 offset 3) λ buffer' fourth.
      (buffer', prefix (h264_start_code_prefix_length first second (some third) (some fourth)))

unfoldable pub prefix_after_second : RandomAccessSource → ℕ → ℕ → Buffer → ℕ → Buffer × PrefixLength
prefix_after_second source offset first buffer second =
    if not (second == 0)
    then (buffer, prefix 0)
    else with_byte source buffer (add64 offset 2) (prefix_after_third source offset first second)

unfoldable pub prefix_after_first : RandomAccessSource → ℕ → Buffer → ℕ → Buffer × PrefixLength
prefix_after_first source offset buffer first =
    if not (first == 0)
    then (buffer, prefix 0)
    else with_byte source buffer (add64 offset 1) (prefix_after_second source offset first)

unfoldable pub prefix_length_at : RandomAccessSource → Buffer → ℕ → Buffer × PrefixLength
prefix_length_at source buffer offset =
    with_byte source buffer offset (prefix_after_first source offset)

pub record PendingStartCode : Type 0 where
  pub offset : ℕ
  pub length : ℕ

pub record H264StartCodeRecord : Type 0 where
  pub start_code : Option SourceSpan
  pub nal_unit : Option SourceSpan
  pub trailing_zero_8_bits : Option SourceSpan
  pub start_code_offset : ℕ
  pub start_code_length : ℕ
  pub nal_unit_offset : ℕ
  pub nal_unit_length : ℕ
  pub trailing_zero_8_bits_offset : ℕ
  pub trailing_zero_8_bits_length : ℕ

pub data Outcome {ℓ} (A : Type ℓ) : Type ℓ where
  ok : A → Outcome A
  err : String → Outcome A

unfoldable pub make_record : PendingStartCode → ℕ → ℕ → Outcome H264StartCodeRecord
make_record pending end_offset trailing =
    let nal_offset = add64 pending.offset pending.length in
    let bytes_after_start_code = end_offset - nal_offset in
    let nal_length = bytes_after_start_code - trailing in
    let trailing_offset = add64 nal_offset nal_length in
    let start_code = make_byte_span pending.offset pending.length in
    let nal_unit = if nal_length == 0 then none else make_byte_span nal_offset nal_length in
    let trailing_span = if trailing == 0 then none else make_byte_span trailing_offset trailing in
    if ltb (u64_max - pending.length) pending.offset || ltb end_offset nal_offset
    then err "Start-code offsets are not ordered"
    else if ltb bytes_after_start_code trailing
    then err "Trailing-zero length exceeds the NAL-unit extent"
    else if not (has_value start_code)
        || (not (nal_length == 0) && not (has_value nal_unit))
        || (not (trailing == 0) && not (has_value trailing_span))
    then err "Start-code span exceeds bit coordinate limits"
    else ok (record {
      start_code = start_code;
      nal_unit = nal_unit;
      trailing_zero_8_bits = trailing_span;
      start_code_offset = pending.offset;
      start_code_length = pending.length;
      nal_unit_offset = nal_offset;
      nal_unit_length = nal_length;
      trailing_zero_8_bits_offset = trailing_offset;
      trailing_zero_8_bits_length = trailing;
    })
