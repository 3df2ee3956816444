-- ===== src/AnalysisTree/Terminal.antt =====
-- A node that has reached a terminal state stays in it.
use stream_view.Common.{
  ℕ, ◌-◌, ◌≡◌, Bool, true, List, [], ◌∷◌, ◌++◌, refl, ◌∙◌, leb, some, set, get_elem?, get_elem?-lt,
  get_elem?-set_eq, get_elem?-set_ne, get_elem?-append_lt, Bool-cases, inl, inr, ◌==◌, ◌≢◌, arith,
}
use stream_view.AnalysisTree.Nodes.{
  AnalysisNode, AnalysisNodeId, AnalysisTree, MaterializationState, can_transition, node_for_read,
  state_index,
}
use stream_view.AnalysisTree.Operations.{with_child}
use stream_view.AnalysisTree.Changes.{
  Change, Changes, Command, done, grow, more, run, run-Changes, touch,
}
use stream_view.AnalysisTree.Family.{IsTree}
use stream_view.AnalysisTree.Reads.{node_for_read-grown, node_for_read-inside, node_for_read-of}
use stream_view.AnalysisTree.Commands.{run-IsTree, run_all}

-- The states that `canTransition` lets nothing leave.
abbrev pub is_terminal : MaterializationState → Bool
is_terminal state = leb 4 (state_index state)

same_index : (from to : MaterializationState) → state_index from ≡ state_index to → from ≡ to
same_index from to e = ground arith

terminal_stays :
    (from to : MaterializationState)
    → is_terminal from ≡ true
    → can_transition from to ≡ true
    → to ≡ from
unfolding can_transition
terminal_stays from to stuck moves = ground arith

module _ {V : Type 0} where
  -- A node in that state, below that parent.
  pub record Stays (nodes : List (AnalysisNode V)) (id : AnalysisNodeId) (old : AnalysisNode V)
      : Type 0 where
    pub now : AnalysisNode V
    pub there : node_for_read nodes id ≡ some now
    pub state : now.state ≡ old.state
    pub parent_id : now.parent_id ≡ old.parent_id

  -- Another node at a position, whose state and parent are those of the node there.
  Stays-set :
      {nodes : List (AnalysisNode V)} {id : AnalysisNodeId} {old : AnalysisNode V} (i : ℕ)
      (node changed : AnalysisNode V)
      → get_elem? nodes i ≡ some node
      → (node.state ≡ old.state → changed.state ≡ node.state)
      → changed.parent_id ≡ node.parent_id
      → Stays nodes id old
      → Stays (set nodes i changed) id old
  Stays-set {nodes} {id} {old} i node changed e same_state same_parent stays =
      let (positive, there) = node_for_read-inside nodes id stays.there in
      elim (Bool-cases (i == id - 1)) [
        | inl here ↦
            let at : i ≡ id - 1 = ground arith in
            let is : stays.now ≡ node =
              (let found : get_elem? nodes i ≡ some stays.now = rw at there in cc) in
            let state : node.state ≡ old.state = rw (← is) stays.state in
            let parent : node.parent_id ≡ old.parent_id = rw (← is) stays.parent_id in
            let set_eq : get_elem? (set nodes i changed) (id - 1) ≡ some changed =
              rw (← at) (get_elem?-set_eq nodes i changed (get_elem?-lt nodes i e)) in
            record {
              now = changed;
              there = node_for_read-of (set nodes i changed) id positive set_eq;
              state = same_state state ∙ state;
              parent_id = same_parent ∙ parent;
            }
        | inr away ↦
            let apart : i ≢ id - 1 = (λ at. absurd (ground arith)) in
            record {
              now = stays.now;
              there =
                  node_for_read-of (set nodes i changed) id positive
                    (get_elem?-set_ne nodes i (id - 1) changed apart ∙ there);
              state = stays.state;
              parent_id = stays.parent_id;
            }
      ]

  Change-Stays :
      {target id : AnalysisNodeId} {nodes after : List (AnalysisNode V)} {old : AnalysisNode V}
      → is_terminal old.state ≡ true
      → Change target nodes after
      → Stays nodes id old
      → Stays after id old
  Change-Stays {target} {id} {nodes} {after} {old} stuck (touch node changed e keeps) stays =
      Stays-set (target - 1) node changed (node_for_read-inside nodes target e).1
        (λ same. terminal_stays node.state changed.state (rw same stuck) keeps.moves)
        keeps.parent_id stays
  Change-Stays {target} {id} {nodes} {after} {old} stuck
        (grow parent child e numbered below none_yet room) stays =
      let (positive, there) = node_for_read-inside nodes target e in
      let longer = nodes ++ (child ∷ []) in
      Stays-set (target - 1) parent (with_child child.id parent)
        (get_elem?-append_lt nodes (child ∷ []) (target - 1) (get_elem?-lt nodes (target - 1) there)
          ∙ there)
        (λ same. refl) refl
        (record {
          now = stays.now;
          there = node_for_read-grown nodes id child stays.there;
          state = stays.state;
          parent_id = stays.parent_id;
        })

  Changes-Stays :
      {target id : AnalysisNodeId} {nodes after : List (AnalysisNode V)} {old : AnalysisNode V}
      → is_terminal old.state ≡ true
      → Changes target nodes after
      → Stays nodes id old
      → Stays after id old
  Changes-Stays stuck done stays = stays
  Changes-Stays stuck (more change rest) stays =
      Changes-Stays stuck rest (Change-Stays stuck change stays)

  -- A node of a well-formed tree that is in a terminal state is still there, in that state and below
  -- its parent, after any calls of append_child, transition, add_diagnostic, mark_partial and
  -- resume_cancelled.
  pub run_all-Stays :
      (commands : List (Command V)) (tree : AnalysisTree V) (id : AnalysisNodeId)
      {node : AnalysisNode V}
      → IsTree tree.nodes
      → is_terminal node.state ≡ true
      → Stays tree.nodes id node
      → Stays (run_all commands tree).nodes id node
  unfolding run_all
  run_all-Stays [] tree id shaped stuck stays = stays
  run_all-Stays (command ∷ commands) tree id shaped stuck stays =
      run_all-Stays commands (run command tree) id (run-IsTree command tree shaped) stuck
        (Changes-Stays stuck (run-Changes command tree shaped.bounded) stays)
