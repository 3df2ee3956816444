-- ===== src/AnalysisTree/Operations.antt =====
-- The operations of an analysis tree: copies and moves, children, states, diagnostics, snapshots.
-- An operation that changes the tree returns it beside its answer.
use stream_view.Common.{
  ℕ, ◌-◌, Bool, true, false, not, ◌&&◌, ◌||◌, Option, none, some, List, [], ◌∷◌, ◌++◌, String,
  length, take, set, ltb, ◌==◌, if◌then◌else◌, add64, is_empty,
}
use stream_view.Coordinates.{is_nil}
use stream_view.AnalysisTree.Nodes.{
  AnalysisNode, AnalysisNodeId, AnalysisNodeMetadata, AnalysisNodeSpec, AnalysisTree,
  AnalysisTreeSnapshot, MaterializationState, ParseDiagnostic, can_transition, indexing,
  is_cancelled_code, is_valid_spec, kind_index, make_node, next_instance_identity, node_for_read,
  root, state_index,
}

abbrev pub empty_metadata : AnalysisNodeMetadata
empty_metadata = record {
  type_name = "";
  description = "";
  specification = none;
  container_child_struct_index = none;
  target_format = none;
  window = none;
}

abbrev pub root_id : AnalysisNodeId
root_id = 1

-- The states that `markPartial` accepts.
abbrev pub is_partial : MaterializationState → Bool
is_partial state =
    let index = state_index state in index == 2 || index == 3 || index == 4 || index == 5

-- `std::erase_if` of the diagnostics that say the work was cancelled.
abbrev pub without_cancelled : List ParseDiagnostic → List ParseDiagnostic
without_cancelled [] = []
without_cancelled (diagnostic ∷ diagnostics) =
    if is_cancelled_code diagnostic.code
    then without_cancelled diagnostics
    else diagnostic ∷ without_cancelled diagnostics

module _ {V : Type 0} where
  -- The copy, and the counter; the original stays as it is.
  unfoldable pub copy : ℕ → AnalysisTree V → AnalysisTree V × ℕ
  unfolding next_instance_identity
  copy counter other =
      let (identity, later) = next_instance_identity counter in
      (record { instance_identity = identity; nodes = other.nodes }, later)

  -- Assignment to `tree`; `same` is `this == &other`.
  unfoldable pub copy_assign : Bool → ℕ → AnalysisTree V → AnalysisTree V → AnalysisTree V × ℕ
  unfolding copy
  copy_assign same counter tree other = if same then (tree, counter) else copy counter other

  -- The new tree, the one moved from, and the counter.
  unfoldable pub move : ℕ → AnalysisTree V → AnalysisTree V × (AnalysisTree V × ℕ)
  unfolding next_instance_identity
  move counter other =
      let (identity, later) = next_instance_identity counter in
      let emptied : AnalysisTree V = record { instance_identity = identity; nodes = [] } in
      (other, (emptied, later))

  unfoldable pub move_assign :
      Bool → ℕ → AnalysisTree V → AnalysisTree V → AnalysisTree V × (AnalysisTree V × ℕ)
  unfolding move
  move_assign same counter tree other =
      if same then (tree, (other, counter)) else move counter other

  -- `QVariant` starts out invalid, here `unset`.
  unfoldable pub create : V → ℕ → String → Option (AnalysisTree V × ℕ)
  unfolding next_instance_identity make_node
  create unset counter root_name =
      let (identity, later) = next_instance_identity counter in
      let root_spec : AnalysisNodeSpec V = record {
        kind = root;
        name = root_name;
        state = indexing;
        value = unset;
        location = none;
        metadata = empty_metadata;
      } in
      if is_empty root_name
      then none
      else some
          (record { instance_identity = identity; nodes = make_node 1 none root_spec ∷ [] }, later)

  -- The store through the pointer that `nodeForMutation` returned.
  abbrev pub store : AnalysisTree V → AnalysisNodeId → AnalysisNode V → AnalysisTree V
  store tree id node = record tree { nodes = set tree.nodes (id - 1) node }

  abbrev pub with_child : AnalysisNodeId → AnalysisNode V → AnalysisNode V
  with_child child_id node = record node { children = node.children ++ (child_id ∷ []) }

  unfoldable pub refused : AnalysisNodeSpec V → AnalysisNode V → Bool
  unfolding is_valid_spec
  refused spec parent =
      not (state_index parent.state == 1) || not (is_valid_spec spec) || kind_index spec.kind == 0

  unfoldable pub append_child :
      AnalysisTree V → AnalysisNodeId → AnalysisNodeSpec V → AnalysisTree V × Option AnalysisNodeId
  unfolding node_for_read refused make_node
  append_child tree parent_id spec = elim (node_for_read tree.nodes parent_id) [
    | none ↦ (tree, none)
    | some parent ↦
        let next_id = add64 (length tree.nodes) 1 in
        let grown = tree.nodes ++ (make_node next_id (some parent_id) spec ∷ []) in
        if refused spec parent then (tree, none) else if next_id == 0 then (tree, none) else (
          record tree {
            nodes = elim (node_for_read grown parent_id) [
              | none ↦ grown
              | some found ↦ set grown (parent_id - 1) (with_child next_id found)
            ];
          },
          some next_id,
        )
  ]

  unfoldable pub transition :
      AnalysisTree V → AnalysisNodeId → MaterializationState → AnalysisTree V × Bool
  unfolding node_for_read can_transition
  transition tree id next_state = elim (node_for_read tree.nodes id) [
    | none ↦ (tree, false)
    | some node ↦
        if can_transition node.state next_state
        then (store tree id (record node { state = next_state }), true)
        else (tree, false)
  ]

  unfoldable pub add_diagnostic :
      AnalysisTree V → AnalysisNodeId → ParseDiagnostic → AnalysisTree V × Bool
  unfolding node_for_read
  add_diagnostic tree id diagnostic = elim (node_for_read tree.nodes id) [
    | none ↦ (tree, false)
    | some node ↦
        (store tree id (record node { diagnostics = node.diagnostics ++ (diagnostic ∷ []) }), true)
  ]

  unfoldable pub mark_partial :
      AnalysisTree V
      → AnalysisNodeId
      → MaterializationState
      → ParseDiagnostic
      → AnalysisTree V × Bool
  unfolding transition add_diagnostic
  mark_partial tree id terminal_state diagnostic =
      if not (is_partial terminal_state)
      then (tree, false)
      else if not (transition tree id terminal_state).1
      then ((transition tree id terminal_state).0, false)
      else add_diagnostic (transition tree id terminal_state).0 id diagnostic

  unfoldable pub resume_cancelled : AnalysisTree V → AnalysisNodeId → AnalysisTree V × Bool
  unfolding node_for_read
  resume_cancelled tree id = elim (node_for_read tree.nodes id) [
    | none ↦ (tree, false)
    | some node ↦
        let resumed : AnalysisNode V = record node {
          state = indexing;
          diagnostics = without_cancelled node.diagnostics;
        } in
        if not (state_index node.state == 3) then (tree, false) else (store tree id resumed, true)
  ]

  unfoldable pub snapshot : AnalysisTree V → Option AnalysisNodeId → AnalysisTreeSnapshot V
  unfolding node_for_read
  snapshot tree preserved_node =
      let node_to_preserve : AnalysisNodeId = elim preserved_node [
        | none ↦ root_id
        | some id ↦ id
      ] in
      record {
        tree_identity = tree.instance_identity;
        node_count = length tree.nodes;
        preserved_nodes = elim (node_for_read tree.nodes node_to_preserve) [
          | none ↦ []
          | some node ↦ node ∷ []
        ];
      }

  abbrev pub all_within : ℕ → List (AnalysisNode V) → Bool
  all_within node_count [] = true
  all_within node_count (node ∷ nodes) =
      not (node.id == 0 || ltb node_count node.id) && all_within node_count nodes

  abbrev pub put_back : List (AnalysisNode V) → List (AnalysisNode V) → List (AnalysisNode V)
  put_back nodes [] = nodes
  put_back nodes (node ∷ preserved) = put_back (set nodes (node.id - 1) node) preserved

  unfoldable pub restore : AnalysisTree V → AnalysisTreeSnapshot V → AnalysisTree V × Bool
  restore tree saved =
      if not (saved.tree_identity == tree.instance_identity)
        || saved.node_count == 0
        || ltb (length tree.nodes) saved.node_count
        || is_nil saved.preserved_nodes
      then (tree, false)
      else if not (all_within saved.node_count saved.preserved_nodes)
      then (tree, false)
      else (
        record tree { nodes = put_back (take saved.node_count tree.nodes) saved.preserved_nodes },
        true,
      )

  unfoldable pub has_partial_results : List (AnalysisNode V) → Bool
  has_partial_results [] = false
  has_partial_results (node ∷ nodes) =
      let index = state_index node.state in
      (index == 3 || index == 4 || index == 5) || has_partial_results nodes

  unfoldable pub is_fully_materialized : List (AnalysisNode V) → Bool
  is_fully_materialized [] = true
  is_fully_materialized (node ∷ nodes) = state_index node.state == 6 && is_fully_materialized nodes
