-- ===== src/EbspRbsp/Bytes.antt =====
-- One byte of `mapBatch`: what it plans, the limits that may stop it, and what it commits.
use stream_view.Common.{
  ℕ, ◌+◌, ◌-◌, List, [], ◌∷◌, ◌++◌, Option, none, some, Bool, true, false, String, min, ltb, leb,
  ◌==◌, ◌||◌, ◌&&◌, length, if◌then◌else◌, add64, sub64, u64_max,
}
use stream_view.Coordinates.{SourceSpan, make_span, end_exclusive}
use stream_view.EbspRbsp.{
  Mapper, H264EbspRbspIssue, H264EbspRbspIssueKind, prohibited_000000, prohibited_000001,
  prohibited_000002, prohibited_000003xx, final_zero_byte, make_byte_span, forwarded_spans,
}

-- `limit` is a return with the status `ResourceLimit`.
pub data Planned {ℓ} (A : Type ℓ) : Type ℓ where
  ok : A → Planned A
  limit : String → Planned A

infixl 5 ◌>>=◌ ◌>>◌
abbrev pub ◌>>=◌ {ℓ κ} : {A : Type ℓ} {B : Type κ} → Planned A → (A → Planned B) → Planned B
ok a >>= f = f a
limit message >>= f = limit message

abbrev pub ◌>>◌ {ℓ} : {B : Type ℓ} → Planned (Unit {0}) → Planned B → Planned B
m >> k = m >>= λ _. k

abbrev pub refuse_if : Bool → String → Planned (Unit {0})
refuse_if true message = limit message
refuse_if false message = ok tt

abbrev pub required {ℓ} : {A : Type ℓ} → Option A → String → Planned A
required none message = limit message
required (some a) message = ok a

-- `firstIssue` and `secondIssue`.
abbrev pub Issues : Type 0
Issues = Option H264EbspRbspIssue × Option H264EbspRbspIssue

abbrev pub plan_issue : Issues → H264EbspRbspIssue → Issues
plan_issue (none, second) issue = (some issue, second)
plan_issue (some first, second) issue = (some first, some issue)

abbrev pub listed_issues : Issues → List H264EbspRbspIssue
listed_issues (none, none) = []
listed_issues (none, some second) = second ∷ []
listed_issues (some first, none) = first ∷ []
listed_issues (some first, some second) = first ∷ second ∷ []

abbrev pub issue_of : H264EbspRbspIssueKind → SourceSpan → H264EbspRbspIssue
issue_of kind span = record { kind = kind; source_span = span }

abbrev pub issue_message : String
issue_message = "H.264 EBSP issue exceeds coordinate limits"

unfoldable pub plan_escape : Mapper → ℕ → Issues → Planned Issues
plan_escape mapper value issues = elim (mapper.pending_escape_start_byte) [
  | none ↦ ok issues
  | some start ↦
      if ltb 0x03 value
      then (do
        span ← required (make_byte_span start 4) issue_message
        ok (plan_issue issues (issue_of prohibited_000003xx span)))
      else ok issues
]

unfoldable pub plan_prohibited : Mapper → ℕ → Issues → Planned Issues
plan_prohibited mapper value issues =
    let kind =
      if value == 0x01
      then prohibited_000001
      else if value == 0x02
      then prohibited_000002
      else prohibited_000000 in
    if leb 2 mapper.zero_run && leb value 0x02
    then (do
      span ← required (make_byte_span (sub64 mapper.source_cursor 2) 3) issue_message
      ok (plan_issue issues (issue_of kind span)))
    else ok issues

unfoldable pub plan_final : Mapper → ℕ → SourceSpan → Issues → Issues
plan_final mapper value span issues =
    if add64 mapper.source_cursor 1 == mapper.input_end_byte && value == 0
    then plan_issue issues (issue_of final_zero_byte span)
    else issues

abbrev pub excludes_byte : Mapper → ℕ → Bool
excludes_byte mapper value = leb 2 mapper.zero_run && value == 0x03

-- A new segment for the byte.
unfoldable pub begin_segment : Mapper → SourceSpan → Planned (List SourceSpan × Option SourceSpan)
begin_segment mapper span = do
  refuse_if (leb mapper.limits.maximum_mapping_segments (length (forwarded_spans mapper)))
      "H.264 RBSP mapping segment limit exceeded"
  refuse_if (ltb (u64_max - 8) mapper.rbsp_logical_bit_length)
      "H.264 RBSP logical length exceeds coordinate limits"
  ok (forwarded_spans mapper, some span)

-- The last span with the byte behind it.
unfoldable pub extend_segment : Mapper → SourceSpan → Planned (List SourceSpan × Option SourceSpan)
extend_segment mapper back = do
  refuse_if (ltb (u64_max - 8) mapper.rbsp_logical_bit_length)
      "H.264 RBSP logical length exceeds coordinate limits"
  refuse_if (ltb (u64_max - 8) back.bit_length) "H.264 RBSP source span exceeds coordinate limits"
  merged ←
      required (make_span back.start (back.bit_length + 8))
        "H.264 RBSP source span exceeds coordinate limits"
  ok (mapper.front, some merged)

-- The forwarded spans with one more byte, behind their last one.
unfoldable pub forward_behind :
    Mapper → SourceSpan → Option SourceSpan → Planned (List SourceSpan × Option SourceSpan)
forward_behind mapper span none = begin_segment mapper span
forward_behind mapper span (some back) =
    if end_exclusive back == span.start
    then extend_segment mapper back
    else begin_segment mapper span

unfoldable pub forward : Mapper → SourceSpan → Planned (List SourceSpan × Option SourceSpan)
forward mapper span = forward_behind mapper span mapper.back

-- What the byte leaves: an excluded byte stands apart, a forwarded one joins the RBSP.
unfoldable pub exclude : Mapper → SourceSpan → Issues → Mapper
exclude mapper span issues = record mapper {
  issues = mapper.issues ++ listed_issues issues;
  excluded_spans =
      mapper.excluded_spans
      ++ (record { source_span = span; rbsp_bit_offset = mapper.rbsp_logical_bit_length } ∷ []);
  pending_escape_start_byte = some (sub64 mapper.source_cursor 2);
  zero_run = 0;
  source_cursor = add64 mapper.source_cursor 1;
  inspected_bytes = add64 mapper.inspected_bytes 1;
}

unfoldable pub commit : Mapper → ℕ → Issues → List SourceSpan × Option SourceSpan → Mapper
commit mapper value issues (front, back) = record mapper {
  issues = mapper.issues ++ listed_issues issues;
  front = front;
  back = back;
  rbsp_logical_bit_length = add64 mapper.rbsp_logical_bit_length 8;
  pending_escape_start_byte = none;
  zero_run = if value == 0 then min 2 (mapper.zero_run + 1) else 0;
  source_cursor = add64 mapper.source_cursor 1;
  inspected_bytes = add64 mapper.inspected_bytes 1;
}

unfoldable pub place_byte : Mapper → ℕ → SourceSpan → Issues → Planned Mapper
place_byte mapper value span issues =
    if excludes_byte mapper value
    then (do
      refuse_if (leb mapper.limits.maximum_excluded_spans (length mapper.excluded_spans))
          "H.264 EBSP excluded-span limit exceeded"
      ok (exclude mapper span issues))
    else (do spans ← forward mapper span; ok (commit mapper value issues spans))

unfoldable pub map_byte : Mapper → ℕ → Planned Mapper
map_byte mapper value = do
  span ←
      required (make_byte_span mapper.source_cursor 1)
        "H.264 EBSP source position exceeds coordinate limits"
  escaped ← plan_escape mapper value (none, none)
  prohibited ← plan_prohibited mapper value escaped
  let issues = plan_final mapper value span prohibited
  let planned = length (listed_issues issues)
  refuse_if
      (ltb mapper.limits.maximum_issues (length mapper.issues)
        || ltb (mapper.limits.maximum_issues - length mapper.issues) planned)
      "H.264 EBSP conformance issue limit exceeded"
  place_byte mapper value span issues
