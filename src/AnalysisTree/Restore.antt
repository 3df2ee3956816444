-- ===== src/AnalysisTree/Restore.antt =====
-- A snapshot that preserves one node, put back after work on that node and on nodes added since.
use stream_view.Common.{
  ℕ, ◌-◌, ◌≤◌, ◌<◌, ◌≡◌, ◌⊎◌, inl, inr, true, false, not, ◌&&◌, ◌||◌, ◌==◌, ltb, some, List, [],
  ◌∷◌, ◌++◌, refl, sym, ap, ◌∙◌, length, take, set, get_elem?, get_elem?-lt, length-append,
  length-set, set-set, set-out, set-same, take-set, take-append, take-length, length-take_le, arith,
  All,
}
use stream_view.AnalysisTree.Nodes.{AnalysisNode, AnalysisNodeId, AnalysisTree, node_for_read}
use stream_view.AnalysisTree.Operations.{restore, snapshot, with_child}
use stream_view.AnalysisTree.Changes.{
  Change, Changes, Command, done, grow, more, run, run-Changes, target, touch,
}
use stream_view.AnalysisTree.Family.{IsTree}
use stream_view.AnalysisTree.Reads.{node_for_read-inside}
use stream_view.AnalysisTree.Commands.{run-IsTree, run_all, run_all-identity}

-- The preserved node, or one behind the snapshot.
abbrev pub Within : AnalysisNodeId → ℕ → AnalysisNodeId → Type 0
Within id count aim = (aim ≡ id) ⊎ (count < aim)

valid :
    (saved_identity identity count size : ℕ)
    → saved_identity ≡ identity
    → 0 < count
    → count ≤ size
    → (not (saved_identity == identity) || count == 0 || ltb size count || false) ≡ false
valid saved_identity identity count size same some_node within = ground arith

inner : (id count : ℕ) → 0 < id → id ≤ count → (not (id == 0 || ltb count id) && true) ≡ true
inner id count positive within = ground arith

module _ {V : Type 0} where
  -- The nodes that a snapshot counted are as they were but for the preserved one.
  pub record Kept (old : List (AnalysisNode V)) (id : AnalysisNodeId) (node : AnalysisNode V)
      (nodes : List (AnalysisNode V)) : Type 0 where
    pub grown : length old ≤ length nodes
    pub back : set (take (length old) nodes) (id - 1) node ≡ old

  set-forgotten :
      (count : ℕ) (nodes : List (AnalysisNode V)) (id target : AnalysisNodeId)
      (node changed : AnalysisNode V)
      → Within id count target
      → set (set (take count nodes) (target - 1) changed) (id - 1) node
        ≡ set (take count nodes) (id - 1) node
  set-forgotten count nodes id target node changed (inl same) =
      rw same (set-set (take count nodes) (id - 1) changed node)
  set-forgotten count nodes id target node changed (inr new) =
      let few = length-take_le count nodes in
      ap (λ xs. set xs (id - 1) node)
        (set-out (take count nodes) (target - 1) changed (omega arith))

  Change-Kept :
      {id target : AnalysisNodeId} {old nodes after : List (AnalysisNode V)} {node : AnalysisNode V}
      → Within id (length old) target
      → Change target nodes after
      → Kept old id node nodes
      → Kept old id node after
  Change-Kept {id} {target} {old} {nodes} {after} {node} within (touch before changed e keeps)
        kept =
      let same = length-set nodes (target - 1) changed in
      record {
        grown = (let long = kept.grown in omega arith);
        back =
            ap (λ xs. set xs (id - 1) node) (take-set (length old) nodes (target - 1) changed)
            ∙ (set-forgotten (length old) nodes id target node changed within ∙ kept.back);
      }
  Change-Kept {id} {target} {old} {nodes} {after} {node} within
        (grow parent child e numbered below none_yet room) kept =
      let linked = with_child child.id parent in
      let longer = nodes ++ (child ∷ []) in
      let same = length-set longer (target - 1) linked in
      let by_one = length-append nodes (child ∷ []) in
      record {
        grown = (let long = kept.grown in omega arith);
        back =
            ap (λ xs. set xs (id - 1) node) (take-set (length old) longer (target - 1) linked)
            ∙ (set-forgotten (length old) longer id target node linked within
                ∙ (ap (λ xs. set xs (id - 1) node)
                      (take-append (length old) nodes (child ∷ []) kept.grown)
                    ∙ kept.back));
      }

  Changes-Kept :
      {id target : AnalysisNodeId} {old before after : List (AnalysisNode V)}
      {node : AnalysisNode V}
      → Within id (length old) target
      → Changes target before after
      → Kept old id node before
      → Kept old id node after
  Changes-Kept within done kept = kept
  Changes-Kept within (more change rest) kept =
      Changes-Kept within rest (Change-Kept within change kept)

  run_all-Kept :
      {old : List (AnalysisNode V)} {id : AnalysisNodeId} {node : AnalysisNode V}
      (commands : List (Command V)) (tree : AnalysisTree V)
      → IsTree tree.nodes
      → All (λ command. Within id (length old) (target command)) commands
      → Kept old id node tree.nodes
      → Kept old id node (run_all commands tree).nodes
  unfolding run_all
  run_all-Kept [] tree shaped within kept = kept
  run_all-Kept (command ∷ commands) tree shaped (first, within) kept =
      run_all-Kept commands (run command tree) (run-IsTree command tree shaped) within
        (Changes-Kept first (run-Changes command tree shaped.bounded) kept)

  start-Kept :
      (nodes : List (AnalysisNode V)) (id : AnalysisNodeId) (node : AnalysisNode V)
      → get_elem? nodes (id - 1) ≡ some node
      → Kept nodes id node nodes
  start-Kept nodes id node there = record {
    grown = omega arith;
    back = ap (λ xs. set xs (id - 1) node) (take-length nodes) ∙ set-same nodes (id - 1) node there;
  }

  snapshot-some :
      (tree : AnalysisTree V) (id : AnalysisNodeId) (node : AnalysisNode V)
      → node_for_read tree.nodes id ≡ some node
      → snapshot tree (some id) ≡ record {
        tree_identity = tree.instance_identity;
        node_count = length tree.nodes;
        preserved_nodes = node ∷ [];
      }
  unfolding snapshot
  snapshot-some tree id node e = rw (snapshot, e) refl

  restore-Kept :
      (tree later : AnalysisTree V) (id : AnalysisNodeId) (node : AnalysisNode V)
      → IsTree tree.nodes
      → node_for_read tree.nodes id ≡ some node
      → later.instance_identity ≡ tree.instance_identity
      → Kept tree.nodes id node later.nodes
      → restore later (snapshot tree (some id)) ≡ (tree, true)
  unfolding restore snapshot
  restore-Kept tree later id node shaped e same kept =
      let (positive, there) = node_for_read-inside tree.nodes id e in
      let at : node.id ≡ id = (let place = (shaped.placed (id - 1) node there).at in omega arith) in
      let inside = get_elem?-lt tree.nodes (id - 1) there in
      let back = ap (λ i. set (take (length tree.nodes) later.nodes) (i - 1) node) at ∙ kept.back in
      let long = kept.grown in
      let some_node = shaped.rooted in
      rw
        (
          snapshot-some tree id node e,
          restore,
          valid tree.instance_identity later.instance_identity (length tree.nodes)
              (length later.nodes) (sym same) (omega arith) (omega arith),
          inner node.id (length tree.nodes) (omega arith) (omega arith),
          back,
          same,
        )
        refl

  -- restoring a snapshot that preserves a node undoes any commands on that node and on nodes that
  -- were added behind the snapshot, and answers true
  pub restore-run_all :
      (tree : AnalysisTree V) (id : AnalysisNodeId) (commands : List (Command V))
      {node : AnalysisNode V}
      → IsTree tree.nodes
      → node_for_read tree.nodes id ≡ some node
      → All (λ command. (target command ≡ id) ⊎ (length tree.nodes < target command)) commands
      → restore (run_all commands tree) (snapshot tree (some id)) ≡ (tree, true)
  restore-run_all tree id commands {node} shaped e within =
      restore-Kept tree (run_all commands tree) id node shaped e (run_all-identity commands tree) (
        run_all-Kept commands tree shaped within
          (start-Kept tree.nodes id node (node_for_read-inside tree.nodes id e).1))
