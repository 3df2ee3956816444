-- ===== src/AnalysisTree/Nodes.antt =====
-- The nodes of an analysis tree and the operations that create, change and restore them.
use stream_view.Common.{
  ℕ, ◌-◌, Bool, true, false, not, ◌&&◌, ◌||◌, Option, none, List, [], String, length, get_elem?,
  ltb, ◌==◌, if◌then◌else◌, add64, is_empty, has_value,
}
use stream_view.Coordinates.{FieldLocation}

pub data AnalysisNodeKind : Type 0 where
  root : AnalysisNodeKind
  structure : AnalysisNodeKind
  syntax_field : AnalysisNodeKind
  computed_field : AnalysisNodeKind
  compressed_payload : AnalysisNodeKind
  region : AnalysisNodeKind

pub data MaterializationState : Type 0 where
  lazy : MaterializationState
  indexing : MaterializationState
  waiting_dependency : MaterializationState
  cancelled : MaterializationState
  unsupported : MaterializationState
  invalid : MaterializationState
  materialized : MaterializationState

pub data DiagnosticSeverity : Type 0 where
  info : DiagnosticSeverity
  warning : DiagnosticSeverity
  error : DiagnosticSeverity

-- `Cancelled` is `cancelled_by_user` here, apart from the state of that name.
pub data DiagnosticCode : Type 0 where
  truncated_source : DiagnosticCode
  invalid_syntax : DiagnosticCode
  unsupported_syntax : DiagnosticCode
  cancelled_by_user : DiagnosticCode
  source_error : DiagnosticCode
  resource_limit : DiagnosticCode
  dependency_unavailable : DiagnosticCode

pub record ParseDiagnostic : Type 0 where
  pub code : DiagnosticCode
  pub severity : DiagnosticSeverity
  pub message : String
  pub field_path : String
  pub location : Option FieldLocation

pub record AnalysisSpecification : Type 0 where
  pub standard : String
  pub clause : String

pub record AnalysisNodeWindowMetadata : Type 0 where
  pub entry_struct_index : ℕ
  pub entry_count_field_index : ℕ
  pub entry_size_bits : ℕ
  pub entry_count : ℕ

pub record AnalysisNodeMetadata : Type 0 where
  pub type_name : String
  pub description : String
  pub specification : Option AnalysisSpecification
  pub container_child_struct_index : Option ℕ
  pub target_format : Option String
  pub window : Option AnalysisNodeWindowMetadata

-- An `AnalysisNodeId` is its value.
abbrev pub AnalysisNodeId : Type 0
AnalysisNodeId = ℕ

pub record AnalysisNodeSpec (V : Type 0) : Type 0 where
  pub kind : AnalysisNodeKind
  pub name : String
  pub state : MaterializationState
  pub value : V
  pub location : Option FieldLocation
  pub metadata : AnalysisNodeMetadata

pub record AnalysisNode (V : Type 0) : Type 0 where
  pub id : AnalysisNodeId
  pub parent_id : Option AnalysisNodeId
  pub kind : AnalysisNodeKind
  pub name : String
  pub state : MaterializationState
  pub value : V
  pub location : Option FieldLocation
  pub metadata : AnalysisNodeMetadata
  pub children : List AnalysisNodeId
  pub diagnostics : List ParseDiagnostic

pub record AnalysisTreeSnapshot (V : Type 0) : Type 0 where
  pub tree_identity : ℕ
  pub node_count : ℕ
  pub preserved_nodes : List (AnalysisNode V)

pub record AnalysisTree (V : Type 0) : Type 0 where
  pub instance_identity : ℕ
  pub nodes : List (AnalysisNode V)

-- `from == to` and `kind == AnalysisNodeKind::...`, by the position in the enumeration.
abbrev pub state_index : MaterializationState → ℕ
state_index lazy = 0
state_index indexing = 1
state_index waiting_dependency = 2
state_index cancelled = 3
state_index unsupported = 4
state_index invalid = 5
state_index materialized = 6

abbrev pub kind_index : AnalysisNodeKind → ℕ
kind_index root = 0
kind_index structure = 1
kind_index syntax_field = 2
kind_index computed_field = 3
kind_index compressed_payload = 4
kind_index region = 5

abbrev pub is_cancelled_code : DiagnosticCode → Bool
is_cancelled_code cancelled_by_user = true
is_cancelled_code _ = false

-- The `switch` of `canTransition`, reached when the states differ.
abbrev pub leaves : MaterializationState → MaterializationState → Bool
leaves lazy to = not (state_index to == 0)
leaves indexing to = not (state_index to == 0 || state_index to == 1)
leaves waiting_dependency to = not (state_index to == 0 || state_index to == 2)
leaves cancelled to = state_index to == 1
leaves unsupported to = false
leaves invalid to = false
leaves materialized to = false

unfoldable pub can_transition : MaterializationState → MaterializationState → Bool
can_transition from to = if state_index from == state_index to then true else leaves from to

-- The fetched value and the counter behind it; the counter wraps and 0 is passed over.
unfoldable pub next_instance_identity : ℕ → ℕ × ℕ
next_instance_identity counter = if counter == 0 then (1, 2) else (counter, add64 counter 1)

module _ {V : Type 0} where
  unfoldable pub make_node :
      AnalysisNodeId → Option AnalysisNodeId → AnalysisNodeSpec V → AnalysisNode V
  make_node id parent_id spec = record {
    id = id;
    parent_id = parent_id;
    kind = spec.kind;
    name = spec.name;
    state = spec.state;
    value = spec.value;
    location = spec.location;
    metadata = spec.metadata;
    children = [];
    diagnostics = [];
  }

  unfoldable pub is_valid_spec : AnalysisNodeSpec V → Bool
  is_valid_spec spec =
      if is_empty spec.name
      then false
      else if kind_index spec.kind == 2 && not (has_value spec.location)
      then false
      else if kind_index spec.kind == 3 && has_value spec.location
      then false
      else true

  -- `nodeForMutation` and `nodeForRead`, and `node`.
  unfoldable pub node_for_read : List (AnalysisNode V) → AnalysisNodeId → Option (AnalysisNode V)
  node_for_read nodes id =
      if id == 0 || ltb (length nodes) id then none else get_elem? nodes (id - 1)
