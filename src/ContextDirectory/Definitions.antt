-- ===== src/ContextDirectory/Definitions.antt =====
-- Context definitions, the directory that holds them, and tests on their keys and spans.
use stream_view.Common.{
  ℕ, zero, suc, ◌+◌, ◌-◌, Bool, true, false, ◌&&◌, ◌||◌, Option, none, some, List, [], ◌∷◌, length,
  get_elem?, ltb, leb, ◌==◌, if◌then◌else◌,
}
use stream_view.Coordinates.{SourceBitAddress, SourceSpan, end_exclusive}

pub data ContextDefinitionKind : Type 0 where
  h264_sequence_parameter_set : ContextDefinitionKind
  h264_picture_parameter_set : ContextDefinitionKind
  aac_audio_specific_config : ContextDefinitionKind
  iso_bmff_sample_description : ContextDefinitionKind

-- A `ContextDefinitionId` is its value.
abbrev pub ContextDefinitionId : Type 0
ContextDefinitionId = ℕ

pub record ContextKey : Type 0 where
  pub kind : ContextDefinitionKind
  pub scope_id : ℕ
  pub value : ℕ

pub record ContextDefinitionSpec : Type 0 where
  pub key : ContextKey
  pub source_spans : List SourceSpan
  pub analysis_node_id : ℕ
  pub dependencies : List ContextDefinitionId
  pub baseline : Bool

pub record ContextDefinition : Type 0 where
  pub id : ContextDefinitionId
  pub key : ContextKey
  pub source_spans : List SourceSpan
  pub analysis_node_id : ℕ
  pub dependencies : List ContextDefinitionId
  pub baseline : Bool

-- `definitionsByKey_`, a `std::map`, as its entries in the order of the keys.
pub record ContextDirectory : Type 0 where
  pub definitions : List ContextDefinition
  pub definitions_by_key : List (ContextKey × List ContextDefinitionId)

abbrev pub maximum_dependency_depth : ℕ
maximum_dependency_depth = 64

-- The position of a kind in the enumeration, by which keys are compared first.
abbrev pub kind_index : ContextDefinitionKind → ℕ
kind_index h264_sequence_parameter_set = 0
kind_index h264_picture_parameter_set = 1
kind_index aac_audio_specific_config = 2
kind_index iso_bmff_sample_description = 3

unfoldable pub key_eq : ContextKey → ContextKey → Bool
key_eq left right =
    kind_index left.kind == kind_index right.kind
    && left.scope_id == right.scope_id
    && left.value == right.value

unfoldable pub key_lt : ContextKey → ContextKey → Bool
key_lt left right =
    ltb (kind_index left.kind) (kind_index right.kind)
    || (kind_index left.kind == kind_index right.kind
        && (ltb left.scope_id right.scope_id
            || (left.scope_id == right.scope_id && ltb left.value right.value)))

unfoldable pub is_known_kind : ContextDefinitionKind → Bool
is_known_kind h264_sequence_parameter_set = true
is_known_kind h264_picture_parameter_set = true
is_known_kind aac_audio_specific_config = true
is_known_kind iso_bmff_sample_description = true

-- Spans of definitions are never empty; 0 stands for what `front` and `back` read there.
unfoldable pub source_start : List SourceSpan → SourceBitAddress
source_start [] = 0
source_start (span ∷ spans) = span.start

unfoldable pub source_end : List SourceSpan → SourceBitAddress
source_end [] = 0
source_end (span ∷ []) = end_exclusive span
source_end (span ∷ (next ∷ spans)) = source_end (next ∷ spans)

-- The loop over two lists of spans; the fuel counts the spans that are left in both.
unfoldable pub spans_overlap_from : ℕ → List SourceSpan → List SourceSpan → Bool
spans_overlap_from zero left right = false
spans_overlap_from (suc fuel) [] right = false
spans_overlap_from (suc fuel) (left ∷ lefts) [] = false
spans_overlap_from (suc fuel) (left ∷ lefts) (right ∷ rights) =
    let next_left = spans_overlap_from fuel lefts (right ∷ rights) in
    let next_right = spans_overlap_from fuel (left ∷ lefts) rights in
    if ltb left.start (end_exclusive right) && ltb right.start (end_exclusive left)
    then true
    else if leb (end_exclusive left) right.start
    then next_left
    else next_right

unfoldable pub spans_overlap : List SourceSpan → List SourceSpan → Bool
unfolding spans_overlap_from
spans_overlap left right = spans_overlap_from (length left + length right) left right

-- `definition(id)`.
unfoldable pub definition : List ContextDefinition → ContextDefinitionId → Option ContextDefinition
definition definitions id =
    if id == 0 || ltb (length definitions) id then none else get_elem? definitions (id - 1)

-- `definitions_.at(id.value() - 1)` of an identifier that the directory lists: its end and whether
-- it is a baseline. Other identifiers, at which the source throws, read as 0 and false.
unfoldable pub end_of : List ContextDefinition → ContextDefinitionId → SourceBitAddress
unfolding source_end
end_of definitions id = elim (get_elem? definitions (id - 1)) [
  | none ↦ 0
  | some found ↦ source_end found.source_spans
]

unfoldable pub baseline_of : List ContextDefinition → ContextDefinitionId → Bool
baseline_of definitions id = elim (get_elem? definitions (id - 1)) [
  | none ↦ false
  | some found ↦ found.baseline
]

unfoldable pub find :
    ContextKey → List (ContextKey × List ContextDefinitionId) → Option (List ContextDefinitionId)
unfolding key_eq
find key [] = none
find key (entry ∷ entries) =
    let rest = find key entries in if key_eq entry.0 key then some entry.1 else rest

abbrev pub contains : ContextDefinitionId → List ContextDefinitionId → Bool
contains id [] = false
contains id (first ∷ ids) = first == id || contains id ids
