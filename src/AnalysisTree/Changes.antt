-- ===== src/AnalysisTree/Changes.antt =====
-- What an operation does to the nodes of a tree: it changes the state and the diagnostics of its
-- target, or it adds a child to it.
use stream_view.Common.{
  suc, ◌-◌, ◌≤◌, ◌<◌, ◌≡◌, true, some, List, [], ◌∷◌, ◌++◌, length, set, refl, Bool-cases,
  Option-cases, inl, inr, u64_max, arith, ◌==◌, add64,
}
use stream_view.AnalysisTree.Nodes.{
  AnalysisNode, AnalysisNodeId, AnalysisNodeSpec, AnalysisTree, MaterializationState,
  ParseDiagnostic, can_transition, indexing, make_node, node_for_read, state_index,
}
use stream_view.AnalysisTree.Reads.{node_for_read-grown}
use stream_view.AnalysisTree.Operations.{
  refused, add_diagnostic, append_child, mark_partial, is_partial, resume_cancelled, transition,
  with_child, without_cancelled,
}

-- What a caller asks of a tree.
pub data Command (V : Type 0) : Type 0 where
  append : AnalysisNodeId → AnalysisNodeSpec V → Command V
  move_to : AnalysisNodeId → MaterializationState → Command V
  diagnose : AnalysisNodeId → ParseDiagnostic → Command V
  mark : AnalysisNodeId → MaterializationState → ParseDiagnostic → Command V
  resume : AnalysisNodeId → Command V

abbrev pub target : {V : Type 0} → Command V → AnalysisNodeId
target (append id spec) = id
target (move_to id state) = id
target (diagnose id diagnostic) = id
target (mark id state diagnostic) = id
target (resume id) = id

same_state : (state : MaterializationState) → can_transition state state ≡ true
unfolding can_transition
same_state state = ground arith

module _ {V : Type 0} where
  -- A node after a change of its state and its diagnostics.
  pub record Keeps (node changed : AnalysisNode V) : Type 0 where
    pub id : changed.id ≡ node.id
    pub parent_id : changed.parent_id ≡ node.parent_id
    pub children : changed.children ≡ node.children
    pub moves : can_transition node.state changed.state ≡ true

  pub data Change (target : AnalysisNodeId) (nodes : List (AnalysisNode V))
      : List (AnalysisNode V) → Type 0 where
    touch :
        (node changed : AnalysisNode V)
        → node_for_read nodes target ≡ some node
        → Keeps node changed
        → Change target nodes (set nodes (target - 1) changed)
    grow :
        (parent child : AnalysisNode V)
        → node_for_read nodes target ≡ some parent
        → child.id ≡ suc (length nodes)
        → child.parent_id ≡ some target
        → child.children ≡ []
        → length nodes < u64_max
        → Change target nodes
            (set (nodes ++ (child ∷ [])) (target - 1) (with_child child.id parent))

  pub data Changes (target : AnalysisNodeId)
      : List (AnalysisNode V) → List (AnalysisNode V) → Type 0 where
    done : {nodes : List (AnalysisNode V)} → Changes target nodes nodes
    more :
        {before between after : List (AnalysisNode V)}
        → Change target before between
        → Changes target between after
        → Changes target before after

  unfoldable pub run : Command V → AnalysisTree V → AnalysisTree V
  unfolding append_child transition add_diagnostic mark_partial resume_cancelled
  run (append id spec) tree = (append_child tree id spec).0
  run (move_to id state) tree = (transition tree id state).0
  run (diagnose id diagnostic) tree = (add_diagnostic tree id diagnostic).0
  run (mark id state diagnostic) tree = (mark_partial tree id state diagnostic).0
  run (resume id) tree = (resume_cancelled tree id).0

  once :
      {id : AnalysisNodeId} {before after : List (AnalysisNode V)}
      → Change id before after
      → Changes id before after
  once change = more change done

  transition-Changes :
      (tree : AnalysisTree V) (id : AnalysisNodeId) (state : MaterializationState)
      → Changes id tree.nodes (transition tree id state).0.nodes
  unfolding transition
  transition-Changes tree id state = elim (Option-cases (node_for_read tree.nodes id)) [
    | inl e ↦ rw (transition, e) done
    | inr (node, e) ↦ elim (Bool-cases (can_transition node.state state)) [
      | inl moves ↦
          rw (transition, e, moves)
            (once (
              touch node (record node { state = state }) e
                (record { id = refl; parent_id = refl; children = refl; moves = moves })))
      | inr stays ↦ rw (transition, e, stays) done
    ]
  ]

  add_diagnostic-Changes :
      (tree : AnalysisTree V) (id : AnalysisNodeId) (diagnostic : ParseDiagnostic)
      → Changes id tree.nodes (add_diagnostic tree id diagnostic).0.nodes
  unfolding add_diagnostic
  add_diagnostic-Changes tree id diagnostic = elim (Option-cases (node_for_read tree.nodes id)) [
    | inl e ↦ rw (add_diagnostic, e) done
    | inr (node, e) ↦
        rw (add_diagnostic, e)
          (once (
            touch node (record node { diagnostics = node.diagnostics ++ (diagnostic ∷ []) }) e
              (record {
                id = refl;
                parent_id = refl;
                children = refl;
                moves = same_state node.state;
              })))
  ]

  resume_cancelled-Changes :
      (tree : AnalysisTree V) (id : AnalysisNodeId)
      → Changes id tree.nodes (resume_cancelled tree id).0.nodes
  unfolding resume_cancelled can_transition
  resume_cancelled-Changes tree id = elim (Option-cases (node_for_read tree.nodes id)) [
    | inl e ↦ rw (resume_cancelled, e) done
    | inr (node, e) ↦ elim (Bool-cases (state_index node.state == 3)) [
      | inl was ↦
          rw (resume_cancelled, e, was)
            (once (
              touch node
                (record node { state = indexing; diagnostics = without_cancelled node.diagnostics })
                e (record { id = refl; parent_id = refl; children = refl; moves = ground arith })))
      | inr other ↦ rw (resume_cancelled, e, other) done
    ]
  ]

  both :
      {id : AnalysisNodeId} {before between after : List (AnalysisNode V)}
      → Changes id before between
      → Changes id between after
      → Changes id before after
  both done changes = changes
  both (more change rest) changes = more change (both rest changes)

  mark_partial-Changes :
      (tree : AnalysisTree V) (id : AnalysisNodeId) (state : MaterializationState)
      (diagnostic : ParseDiagnostic)
      → Changes id tree.nodes (mark_partial tree id state diagnostic).0.nodes
  unfolding mark_partial
  mark_partial-Changes tree id state diagnostic =
      let moved = transition-Changes tree id state in
      let said = add_diagnostic-Changes (transition tree id state).0 id diagnostic in
      elim (Bool-cases (is_partial state)) [
        | inr other ↦ rw (mark_partial, other) done
        | inl partial ↦ elim (Bool-cases (transition tree id state).1) [
          | inl changed ↦ rw (mark_partial, partial, changed) (both moved said)
          | inr kept ↦ rw (mark_partial, partial, kept) moved
        ]
      ]

  append_child-Changes :
      (tree : AnalysisTree V) (id : AnalysisNodeId) (spec : AnalysisNodeSpec V)
      → length tree.nodes ≤ u64_max
      → Changes id tree.nodes (append_child tree id spec).0.nodes
  unfolding append_child make_node
  append_child-Changes tree id spec bounded = elim (Option-cases (node_for_read tree.nodes id)) [
    | inl e ↦ rw (append_child, e) done
    | inr (parent, e) ↦
        let next = add64 (length tree.nodes) 1 in
        let child = make_node next (some id) spec in
        elim (Bool-cases (refused spec parent)) [
          | inl refuse ↦ rw (append_child, e, refuse) done
          | inr accept ↦ elim (Bool-cases (next == 0)) [
            | inl wrapped ↦ rw (append_child, e, accept, wrapped) done
            | inr fresh ↦
                rw (append_child, e, accept, fresh, node_for_read-grown tree.nodes id child e)
                  (once (grow parent child e (ground arith) refl refl (ground arith)))
          ]
        ]
  ]

  pub run-Changes :
      (command : Command V) (tree : AnalysisTree V)
      → length tree.nodes ≤ u64_max
      → Changes (target command) tree.nodes (run command tree).nodes
  unfolding run
  run-Changes (append id spec) tree bounded = append_child-Changes tree id spec bounded
  run-Changes (move_to id state) tree bounded = transition-Changes tree id state
  run-Changes (diagnose id diagnostic) tree bounded = add_diagnostic-Changes tree id diagnostic
  run-Changes (mark id state diagnostic) tree bounded =
      mark_partial-Changes tree id state diagnostic
  run-Changes (resume id) tree bounded = resume_cancelled-Changes tree id
