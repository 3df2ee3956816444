-- ===== src/AnalysisTree/Commands.antt =====
-- Sequences of commands keep an analysis tree well-formed.
use stream_view.Common.{
  ℕ, ◌≡◌, Option, none, some, List, [], ◌∷◌, String, refl, ◌∙◌, arith, Bool-cases, inl, inr,
  is_empty, suc, zero, subst, get_elem?,
}
use stream_view.AnalysisTree.Nodes.{
  AnalysisNode, AnalysisNodeId, AnalysisTree, MaterializationState, make_node,
  next_instance_identity,
}
use stream_view.AnalysisTree.Operations.{
  add_diagnostic, append_child, create, mark_partial, resume_cancelled, transition,
}
use stream_view.AnalysisTree.Changes.{
  Command, append, diagnose, mark, move_to, resume, run, run-Changes,
}
use stream_view.AnalysisTree.Family.{Changes-IsTree, IsPlaced, IsTree}

module _ {V : Type 0} where
  unfoldable pub run_all : List (Command V) → AnalysisTree V → AnalysisTree V
  unfolding run
  run_all [] tree = tree
  run_all (command ∷ commands) tree = run_all commands (run command tree)

  pub run-IsTree :
      (command : Command V) (tree : AnalysisTree V)
      → IsTree tree.nodes
      → IsTree (run command tree).nodes
  run-IsTree command tree shaped = Changes-IsTree (run-Changes command tree shaped.bounded) shaped

  pub run_all-IsTree :
      (commands : List (Command V)) (tree : AnalysisTree V)
      → IsTree tree.nodes
      → IsTree (run_all commands tree).nodes
  unfolding run_all
  run_all-IsTree [] tree shaped = shaped
  run_all-IsTree (command ∷ commands) tree shaped =
      run_all-IsTree commands (run command tree) (run-IsTree command tree shaped)

  transition-identity :
      (tree : AnalysisTree V) (id : AnalysisNodeId) (state : MaterializationState)
      → (transition tree id state).0.instance_identity ≡ tree.instance_identity
  unfolding transition
  transition-identity tree id state = ground arith

  run-identity :
      (command : Command V) (tree : AnalysisTree V)
      → (run command tree).instance_identity ≡ tree.instance_identity
  unfolding run append_child transition add_diagnostic mark_partial resume_cancelled
  run-identity (append id spec) tree = ground arith
  run-identity (move_to id state) tree = ground arith
  run-identity (diagnose id diagnostic) tree = ground arith
  run-identity (mark id state diagnostic) tree = ground arith
  run-identity (resume id) tree = ground arith

  pub run_all-identity :
      (commands : List (Command V)) (tree : AnalysisTree V)
      → (run_all commands tree).instance_identity ≡ tree.instance_identity
  unfolding run_all
  run_all-identity [] tree = refl
  run_all-identity (command ∷ commands) tree =
      run_all-identity commands (run command tree) ∙ run-identity command tree

  only_root-IsPlaced :
      (node : AnalysisNode V)
      → node.id ≡ 1
      → node.parent_id ≡ none
      → node.children ≡ []
      → (position : ℕ) (other : AnalysisNode V) → get_elem? (node ∷ []) position ≡ some other
      → IsPlaced (node ∷ []) position other
  only_root-IsPlaced node first alone childless zero other e =
      let is : other ≡ node = cc in
      rw is (record { at = first; below = rw alone refl; listed = rw alone childless })
  only_root-IsPlaced node first alone childless (suc position) other e = absurd (cc)

  only_root-IsTree :
      (node : AnalysisNode V)
      → node.id ≡ 1
      → node.parent_id ≡ none
      → node.children ≡ []
      → IsTree (node ∷ [])
  only_root-IsTree node first alone childless = record {
    rooted = omega arith;
    bounded = omega arith;
    placed = only_root-IsPlaced node first alone childless;
  }

  MadeTree : Option (AnalysisTree V × ℕ) → Type 0
  MadeTree none = Unit
  MadeTree (some made) = IsTree made.0.nodes

  create-MadeTree :
      (unset : V) (counter : ℕ) (root_name : String) → MadeTree (create unset counter root_name)
  unfolding MadeTree create make_node next_instance_identity
  create-MadeTree unset counter root_name = elim (Bool-cases (is_empty root_name)) [
    | inl unnamed ↦ rw (create, unnamed) tt
    | inr named ↦ rw (create, named) (only_root-IsTree _ refl refl refl)
  ]

  -- Every tree that `create` and any calls of append_child, transition, add_diagnostic, mark_partial
  -- and resume_cancelled behind it make is well-formed: identifiers are positions, every parent stands
  -- before its children, and the children of a node are the nodes that name it as their parent.
  pub create-run_all-IsTree :
      (unset : V) (counter : ℕ) (root_name : String) (commands : List (Command V))
      {made : AnalysisTree V × ℕ}
      → create unset counter root_name ≡ some made
      → IsTree (run_all commands made.0).nodes
  unfolding MadeTree
  create-run_all-IsTree unset counter root_name commands {made} e =
      run_all-IsTree commands made.0 (subst MadeTree e (create-MadeTree unset counter root_name))
