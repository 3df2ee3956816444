-- ===== src/Tests/Trees.antt =====
-- Tests of the analysis tree, and its theorems at a concrete tree.
use stream_view.Common.{
  ℕ, ◌≡◌, refl, List, [], ◌∷◌, Option, none, some, true, inl, inr, arith, subst,
}
use stream_view.Coordinates.{FieldLocation}
use stream_view.AnalysisTree.{
  AnalysisNode, AnalysisNodeSpec, AnalysisTree, Best, ParseDiagnostic, append_child, best_of,
  cancelled, cancelled_by_user, cover, coverage_at, create, empty_metadata, indexing, is_valid_spec,
  make_node, materialized, most_specific_materialized_node_at, next_instance_identity,
  node_for_read, refused, restore, snapshot, structure, syntax_field, warning, depth_from,
  add_saturating, is_better, root,
}
use stream_view.AnalysisTree.Changes.{Command, append, diagnose, mark, move_to, resume, run}
use stream_view.AnalysisTree.Commands.{create-run_all-IsTree, run_all}
use stream_view.AnalysisTree.Family.{IsTree}
use stream_view.AnalysisTree.MostSpecific.{id_of, most_specific-IsBest}
use stream_view.AnalysisTree.Ranks.{IsBest}
use stream_view.AnalysisTree.Restore.{restore-run_all}
use stream_view.AnalysisTree.Terminal.{Stays, run_all-Stays}

-- A field of four bytes.
abbrev field : FieldLocation
field = record {
  logical_range = record { view_id = 1; bit_offset = 0; bit_length = 32 };
  source_spans = record { start = 0; bit_length = 32 } ∷ [];
}

abbrev box_spec : AnalysisNodeSpec ℕ
box_spec = record {
  kind = structure;
  name = "box";
  state = indexing;
  value = 0;
  location = none;
  metadata = empty_metadata;
}

abbrev size_spec : AnalysisNodeSpec ℕ
size_spec = record {
  kind = syntax_field;
  name = "size";
  state = materialized;
  value = 20;
  location = some field;
  metadata = empty_metadata;
}

abbrev stopped : ParseDiagnostic
stopped = record {
  code = cancelled_by_user;
  severity = warning;
  message = "stopped";
  field_path = "";
  location = none;
}

abbrev root_node : AnalysisNode ℕ
root_node = record {
  id = 1;
  parent_id = none;
  kind = root;
  name = "file";
  state = indexing;
  value = 0;
  location = none;
  metadata = empty_metadata;
  children = [];
  diagnostics = [];
}

abbrev box_node : AnalysisNode ℕ
box_node = record {
  id = 2;
  parent_id = some 1;
  kind = structure;
  name = "box";
  state = indexing;
  value = 0;
  location = none;
  metadata = empty_metadata;
  children = 3 ∷ [];
  diagnostics = [];
}

abbrev size_node : AnalysisNode ℕ
size_node = record {
  id = 3;
  parent_id = some 2;
  kind = syntax_field;
  name = "size";
  state = materialized;
  value = 20;
  location = some field;
  metadata = empty_metadata;
  children = [];
  diagnostics = [];
}

abbrev seed : AnalysisTree ℕ
seed = record { instance_identity = 7; nodes = root_node ∷ [] }

abbrev family : AnalysisTree ℕ
family = record {
  instance_identity = 7;
  nodes = record root_node { children = 2 ∷ [] } ∷ box_node ∷ size_node ∷ [];
}

abbrev growth : List (Command ℕ)
growth = append 1 box_spec ∷ append 2 size_spec ∷ []

-- Work on the box and on a node behind the tree that stops and goes on.
abbrev work : List (Command ℕ)
work =
    append 2 box_spec
    ∷ mark 4 cancelled stopped
    ∷ resume 4
    ∷ diagnose 2 stopped
    ∷ move_to 2 materialized
    ∷ []

-- Tests.
seeded : create 0 7 "file" ≡ some (seed, 8)
unfolding create make_node next_instance_identity
seeded = refl

grown : run_all growth seed ≡ family
unfolding run_all run append_child node_for_read is_valid_spec make_node refused
grown = refl

-- The theorems at these inputs.
create-run_all-IsTree_example : IsTree (run_all growth seed).nodes
create-run_all-IsTree_example = create-run_all-IsTree 0 7 "file" growth {made = (seed, 8)} seeded

family-IsTree : IsTree family.nodes
family-IsTree =
    subst (λ tree. IsTree tree.nodes) grown
      (create-run_all-IsTree 0 7 "file" growth {made = (seed, 8)} seeded)

restore-run_all_example : restore (run_all work family) (snapshot family (some 2)) ≡ (family, true)
unfolding node_for_read
restore-run_all_example =
    restore-run_all family 2 work {node = box_node} family-IsTree refl
      (inl refl, (inr (omega arith), (inr (omega arith), (inl refl, (inl refl, tt)))))

most_specific-IsBest_example :
    (result : Option Best) × ((most_specific_materialized_node_at family 5 ≡ some (id_of result))
      × IsBest family.nodes 5 none family.nodes result)
most_specific-IsBest_example =
    most_specific-IsBest family 5 family-IsTree (tt, (tt, ((omega arith, tt), tt)))

found : most_specific_materialized_node_at family 5 ≡ some (some 3)
unfolding most_specific_materialized_node_at best_of coverage_at cover depth_from node_for_read
    is_better add_saturating
found = refl

size_node-Stays : Stays family.nodes 3 size_node
unfolding node_for_read
size_node-Stays = record { now = size_node; there = refl; state = refl; parent_id = refl }

run_all-Stays_example : Stays (run_all work family).nodes 3 size_node
run_all-Stays_example =
    run_all-Stays work family 3 {node = size_node} family-IsTree refl size_node-Stays
