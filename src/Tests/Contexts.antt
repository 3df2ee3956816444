-- ===== src/Tests/Contexts.antt =====
-- Tests of the context directory, and its theorems at a concrete directory.
use stream_view.Common.{
  ℕ, suc, zero, ◌≡◌, ◌↔◌, ◌<◌, refl, subst, [], ◌∷◌, none, some, false, arith, All, get_elem?,
}
use stream_view.Coordinates.{add_would_overflow, make_mapping, make_span, normalize, normalize_from}
use stream_view.ContextDirectory.{
  ContextDefinition, ContextDefinitionSpec, ContextDirectory, ContextKey, end_of,
  h264_picture_parameter_set, h264_sequence_parameter_set, maximum_dependency_depth, register,
  resolve_before, source_end, visible_candidate, add_definition, baseline_of, candidate_of,
  check_dependencies, definition, ending_by, find, find_overlap, insert_by_end, is_known_kind,
  key_eq, key_lt, last_with, list_definition, refuse_dependencies, resolve_from, set_entry,
  source_start, spans_overlap, spans_overlap_from, stale_or_new,
}
use stream_view.ContextDirectory.Accepted.{register-IsDirectory}
use stream_view.ContextDirectory.Latest.{IsLatest, empty, register_all, register_all-IsLatest}
use stream_view.ContextDirectory.Registered.{IsDirectory}
use stream_view.ContextDirectory.Dependencies.{Found}
use stream_view.ContextDirectory.Resolved.{Resolved, resolve_before-Resolved}
use stream_view.ContextDirectory.Visible.{IsVisible, visible_candidate-IsVisible}

abbrev sps_key : ContextKey
sps_key = record { kind = h264_sequence_parameter_set; scope_id = 0; value = 0 }

abbrev pps_key : ContextKey
pps_key = record { kind = h264_picture_parameter_set; scope_id = 0; value = 0 }

abbrev sps : ContextDefinition
sps = record {
  id = 1;
  key = sps_key;
  source_spans = record { start = 32; bit_length = 80 } ∷ [];
  analysis_node_id = 2;
  dependencies = [];
  baseline = false;
}

abbrev sps_spec : ContextDefinitionSpec
sps_spec = record {
  key = sps_key;
  source_spans = sps.source_spans;
  analysis_node_id = 2;
  dependencies = [];
  baseline = false;
}

abbrev pps_spec : ContextDefinitionSpec
pps_spec = record {
  key = pps_key;
  source_spans = record { start = 144; bit_length = 40 } ∷ [];
  analysis_node_id = 3;
  dependencies = 1 ∷ [];
  baseline = false;
}

abbrev pps : ContextDefinition
pps = record {
  id = 2;
  key = pps_key;
  source_spans = pps_spec.source_spans;
  analysis_node_id = 3;
  dependencies = 1 ∷ [];
  baseline = false;
}

abbrev with_sps : ContextDirectory
with_sps = record { definitions = sps ∷ []; definitions_by_key = (sps_key, 1 ∷ []) ∷ [] }

abbrev with_both : ContextDirectory
with_both = record {
  definitions = sps ∷ pps ∷ [];
  definitions_by_key = (sps_key, 1 ∷ []) ∷ (pps_key, 2 ∷ []) ∷ [];
}

sps-only :
    (position : ℕ) (entry : ContextDefinition)
    → get_elem? with_sps.definitions position ≡ some entry
    → (entry.id ≡ suc position) × All (λ id. id < entry.id) entry.dependencies
sps-only zero entry e = let is : sps ≡ entry = cc in rw (← is) (refl, tt)
sps-only (suc position) entry e = absurd (cc)

with_sps-IsDirectory : IsDirectory with_sps
with_sps-IsDirectory = record {
  ordered = record {
    numbered = λ position entry e. (sps-only position entry e).0;
    earlier = λ position entry e. (sps-only position entry e).1;
  };
  bounded = omega arith;
  entries = (((tt, tt), ((sps, (refl, refl)), tt)), tt);
}

-- Tests.
added : (register with_sps none pps_spec).0 ≡ with_both
unfolding register resolve_before visible_candidate source_end make_mapping normalize normalize_from
    make_span add_would_overflow add_definition baseline_of candidate_of check_dependencies
    definition end_of ending_by find find_overlap insert_by_end is_known_kind key_eq key_lt
    last_with list_definition refuse_dependencies resolve_from set_entry source_start spans_overlap
    spans_overlap_from stale_or_new
added = refl

pps-Found :
    Found
      (resolve_before (register_all ((none, sps_spec) ∷ (none, pps_spec) ∷ []) empty) pps_key 400)
      pps
unfolding register_all register resolve_before visible_candidate source_end make_mapping normalize
    normalize_from make_span add_would_overflow add_definition baseline_of candidate_of
    check_dependencies definition end_of ending_by find find_overlap insert_by_end is_known_kind
    key_eq key_lt last_with list_definition refuse_dependencies resolve_from set_entry source_start
    spans_overlap spans_overlap_from stale_or_new
pps-Found = (refl, refl)

-- The theorems at these inputs.
register-IsDirectory_example : IsDirectory (register with_sps none pps_spec).0
register-IsDirectory_example = register-IsDirectory with_sps none pps_spec with_sps-IsDirectory

with_both-IsDirectory : IsDirectory with_both
with_both-IsDirectory =
    subst IsDirectory added (register-IsDirectory with_sps none pps_spec with_sps-IsDirectory)

resolve_before-Resolved_example :
    Found (resolve_before with_both pps_key 400) pps
    ↔ Resolved with_both 400 maximum_dependency_depth pps_key pps
resolve_before-Resolved_example =
    resolve_before-Resolved with_both pps_key 400 pps with_both-IsDirectory.ordered

visible_candidate-IsVisible_example :
    IsVisible with_both.definitions 400
      (1 ∷ 2 ∷ [])
      (visible_candidate with_both.definitions (1 ∷ 2 ∷ []) 400)
unfolding end_of source_end
visible_candidate-IsVisible_example =
    visible_candidate-IsVisible with_both.definitions 400 (1 ∷ 2 ∷ []) ((omega arith, tt), (tt, tt))

register_all-IsLatest_example :
    IsLatest (register_all ((none, sps_spec) ∷ (none, pps_spec) ∷ []) empty) pps_key 400 pps
    × Resolved
        (register_all ((none, sps_spec) ∷ (none, pps_spec) ∷ []) empty)
        400
        maximum_dependency_depth
        pps_key
        pps
register_all-IsLatest_example =
    register_all-IsLatest ((none, sps_spec) ∷ (none, pps_spec) ∷ []) pps_key 400 pps pps-Found
