-- ===== src/Coordinates.antt =====
-- src/core/coordinates.cpp and its header: bit addresses, source spans, logical ranges, field
-- locations and source mappings. A `quint64` is a native number; sums of coordinates wrap.
pub mod Spans
pub mod Address
pub mod Location
pub mod Mapping
pub mod Locate
use stream_view.Common.{
  ℕ, ◌-◌, ◌/◌, ◌%◌, List, [], ◌∷◌, ◌++◌, Option, none, some, Bool, true, false, ◌&&◌, ◌||◌, not,
  min, max, ltb, leb, ◌==◌, if◌then◌else◌, add64, mul64, u64_max,
}

unfoldable pub add_would_overflow : ℕ → ℕ → Bool
add_would_overflow left right = ltb (u64_max - left) right

-- A `SourceBitAddress` is its absolute bit offset.
abbrev pub SourceBitAddress : Type 0
SourceBitAddress = ℕ

abbrev pub byte_offset : SourceBitAddress → ℕ
byte_offset address = address / 8

abbrev pub bit_offset_in_byte : SourceBitAddress → ℕ
bit_offset_in_byte address = address % 8

unfoldable pub from_byte_and_bit : ℕ → ℕ → Option SourceBitAddress
from_byte_and_bit byte bit =
    if leb 8 bit
    then none
    else if ltb ((u64_max - bit) / 8) byte
    then none
    else some (add64 (mul64 byte 8) bit)

pub record SourceSpan : Type 0 where
  pub start : SourceBitAddress
  pub bit_length : ℕ

abbrev pub end_exclusive : SourceSpan → SourceBitAddress
end_exclusive span = add64 span.start span.bit_length

unfoldable pub make_span : SourceBitAddress → ℕ → Option SourceSpan
unfolding add_would_overflow
make_span start bit_length =
    if add_would_overflow start bit_length
    then none
    else some (record { start = start; bit_length = bit_length })

-- A `LogicalBitAddress` is a view's identifier and an offset; a range adds a length.
pub record LogicalRange : Type 0 where
  pub view_id : ℕ
  pub bit_offset : ℕ
  pub bit_length : ℕ

abbrev pub end_offset_exclusive : LogicalRange → ℕ
end_offset_exclusive range = add64 range.bit_offset range.bit_length

unfoldable pub make_range : ℕ → ℕ → ℕ → Option LogicalRange
unfolding add_would_overflow
make_range view_id bit_offset bit_length =
    if add_would_overflow bit_offset bit_length
    then none
    else some (record { view_id = view_id; bit_offset = bit_offset; bit_length = bit_length })

pub record FieldLocation : Type 0 where
  pub logical_range : LogicalRange
  pub source_spans : List SourceSpan

pub record SourceMapping : Type 0 where
  pub view_id : ℕ
  pub logical_bit_length : ℕ
  pub source_spans : List SourceSpan

-- `previousEnd && span.start() <= *previousEnd`
abbrev pub starts_by : Option SourceBitAddress → SourceSpan → Bool
starts_by none span = false
starts_by (some previous_end) span = leb span.start previous_end

-- The loop of `FieldLocation::create`: the total length, if no span is refused.
unfoldable pub check_spans : ℕ → Option SourceBitAddress → List SourceSpan → Option ℕ
unfolding add_would_overflow
check_spans total_length previous_end [] = some total_length
check_spans total_length previous_end (span ∷ spans) =
    let rest = check_spans (add64 total_length span.bit_length) (some (end_exclusive span)) spans in
    if span.bit_length == 0
      || add_would_overflow total_length span.bit_length
      || starts_by previous_end span
    then none
    else rest

abbrev pub is_nil {ℓ} : {A : Type ℓ} → List A → Bool
is_nil [] = true
is_nil (x ∷ xs) = false

unfoldable pub make_location : LogicalRange → List SourceSpan → Option FieldLocation
make_location range spans = elim (check_spans 0 none spans) [
  | none ↦ none
  | some total_length ↦
      if not (total_length == range.bit_length) || (range.bit_length == 0 && not (is_nil spans))
      then none
      else some (record { logical_range = range; source_spans = spans })
]

-- The loop of `SourceMapping::create`. `previous` is `normalized.back()` and `normalized` what
-- stands before it, in order.
unfoldable pub normalize_from :
    List SourceSpan → SourceSpan → ℕ → List SourceSpan → Option (ℕ × List SourceSpan)
unfolding add_would_overflow make_span
normalize_from normalized previous logical_bit_length [] =
    some (logical_bit_length, normalized ++ (previous ∷ []))
normalize_from normalized previous logical_bit_length (span ∷ spans) =
    let total = add64 logical_bit_length span.bit_length in
    let previous_end = end_exclusive previous in
    let merge : Option (ℕ × List SourceSpan) =
      elim (make_span previous.start (add64 previous.bit_length span.bit_length)) [
        | none ↦ none
        | some merged ↦ normalize_from normalized merged total spans
      ] in
    let push = normalize_from (normalized ++ (previous ∷ [])) span total spans in
    if span.bit_length == 0 || add_would_overflow logical_bit_length span.bit_length
    then none
    else if ltb span.start previous_end
    then none
    else if span.start == previous_end
    then merge
    else push

unfoldable pub normalize : List SourceSpan → Option (ℕ × List SourceSpan)
unfolding normalize_from add_would_overflow
normalize [] = some (0, [])
normalize (span ∷ spans) =
    if span.bit_length == 0 || add_would_overflow 0 span.bit_length
    then none
    else normalize_from [] span (add64 0 span.bit_length) spans

unfoldable pub make_mapping : ℕ → List SourceSpan → Option SourceMapping
make_mapping view_id spans = elim (normalize spans) [
  | none ↦ none
  | some (total, normalized) ↦
      some (record { view_id = view_id; logical_bit_length = total; source_spans = normalized })
]

-- One span of the loop of `SourceMapping::locate`: `resolved`, with the overlap pushed if there is one.
unfoldable pub push_overlap : ℕ → ℕ → ℕ → SourceSpan → List SourceSpan → Option (List SourceSpan)
unfolding make_span
push_overlap requested_start requested_end cursor span resolved =
    let overlap_start = max requested_start cursor in
    let overlap_end = min requested_end (add64 cursor span.bit_length) in
    if ltb overlap_start overlap_end
    then elim (make_span (add64 span.start (overlap_start - cursor))
        (overlap_end - overlap_start)) [
          | none ↦ none
          | some found ↦ some (resolved ++ (found ∷ []))
        ]
    else some resolved

-- The loop of `SourceMapping::locate`.
unfoldable pub resolve : ℕ → ℕ → ℕ → List SourceSpan → List SourceSpan → Option (List SourceSpan)
resolve requested_start requested_end cursor resolved [] = some resolved
resolve requested_start requested_end cursor resolved (span ∷ spans) =
    let span_end = add64 cursor span.bit_length in
    elim (push_overlap requested_start requested_end cursor span resolved) [
      | none ↦ none
      | some found ↦
          (let rest = resolve requested_start requested_end span_end found spans in
            if leb requested_end span_end then some found else rest)
    ]

unfoldable pub locate : SourceMapping → LogicalRange → Option FieldLocation
locate mapping range =
    if not (range.view_id == mapping.view_id)
      || ltb mapping.logical_bit_length (end_offset_exclusive range)
    then none
    else if range.bit_length == 0
    then some (record { logical_range = range; source_spans = [] })
    else elim (resolve range.bit_offset (end_offset_exclusive range) 0 [] mapping.source_spans) [
      | none ↦ none
      | some resolved ↦ some (record { logical_range = range; source_spans = resolved })
    ]
