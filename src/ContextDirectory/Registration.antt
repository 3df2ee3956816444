-- ===== src/ContextDirectory/Registration.antt =====
-- Registration of a definition, and the replacement of one whose dependencies are stale.
use stream_view.Common.{
  ◌-◌, not, ◌&&◌, ◌||◌, Option, none, some, List, [], ◌∷◌, ◌++◌, length, get_elem?, ltb, leb, ◌==◌,
  if◌then◌else◌, u64_max, add64,
}
use stream_view.Coordinates.{SourceBitAddress, SourceSpan, make_mapping}
use stream_view.ContextDirectory.Definitions.{
  ContextDefinition, ContextDefinitionId, ContextDefinitionSpec, ContextDirectory, ContextKey,
  end_of, find, is_known_kind, key_eq, key_lt, source_end, spans_overlap,
}
use stream_view.ContextDirectory.Guards.{
  ContextRegistrationResult, duplicate_definition, invalid_definition, is_id, refusal,
  dependency_message, refuse_dependencies, registered, stale_or_new,
}

-- The first identifier of a key, other than the one replaced, whose spans overlap.
unfoldable pub find_overlap :
    List ContextDefinition
    → Option ContextDefinitionId
    → List SourceSpan
    → List ContextDefinitionId
    → Option ContextDefinitionId
unfolding spans_overlap
find_overlap definitions previous spans [] = none
find_overlap definitions previous spans (id ∷ ids) =
    let rest = find_overlap definitions previous spans ids in
    elim (get_elem? definitions (id - 1)) [
      | none ↦ rest
      | some other ↦
          if not (is_id id previous) && spans_overlap other.source_spans spans
          then some id
          else rest
    ]

-- Insertion before `std::lower_bound` of the end.
unfoldable pub insert_by_end :
    List ContextDefinition
    → SourceBitAddress
    → ContextDefinitionId
    → List ContextDefinitionId
    → List ContextDefinitionId
unfolding end_of
insert_by_end definitions end_position id [] = id ∷ []
insert_by_end definitions end_position id (other ∷ ids) =
    let rest = other ∷ insert_by_end definitions end_position id ids in
    if ltb (end_of definitions other) end_position then rest else id ∷ (other ∷ ids)

abbrev pub replace_first :
    ContextDefinitionId → ContextDefinitionId → List ContextDefinitionId → List ContextDefinitionId
replace_first previous id [] = []
replace_first previous id (other ∷ ids) =
    if other == previous then id ∷ ids else other ∷ replace_first previous id ids

-- `try_emplace` and the write to the entry.
unfoldable pub set_entry :
    ContextKey
    → List ContextDefinitionId
    → List (ContextKey × List ContextDefinitionId)
    → List (ContextKey × List ContextDefinitionId)
unfolding key_eq key_lt
set_entry key ids [] = (key, ids) ∷ []
set_entry key ids (entry ∷ entries) =
    let rest = set_entry key ids entries in
    if key_eq entry.0 key
    then (key, ids) ∷ entries
    else if key_lt key entry.0
    then (key, ids) ∷ (entry ∷ entries)
    else entry ∷ rest

abbrev pub entry_or_empty : Option (List ContextDefinitionId) → List ContextDefinitionId
entry_or_empty none = []
entry_or_empty (some ids) = ids

abbrev pub make_definition : List ContextDefinition → ContextDefinitionSpec → ContextDefinition
make_definition definitions spec = record {
  id = add64 (length definitions) 1;
  key = spec.key;
  source_spans = spec.source_spans;
  analysis_node_id = spec.analysis_node_id;
  dependencies = spec.dependencies;
  baseline = spec.baseline;
}

-- The identifiers of a key with the new one, in its place or in that of the one it replaces.
unfoldable pub list_definition :
    List ContextDefinition
    → Option ContextDefinitionId
    → SourceBitAddress
    → ContextDefinitionId
    → List ContextDefinitionId
    → List ContextDefinitionId
unfolding insert_by_end
list_definition definitions none end_position id ids = insert_by_end definitions end_position id ids
list_definition definitions (some previous) end_position id ids = replace_first previous id ids

-- What `registerDefinition` does once the specification and its dependencies are accepted.
unfoldable pub add_definition :
    ContextDirectory
    → Option ContextDefinitionId
    → ContextDefinitionSpec
    → ContextDirectory × ContextRegistrationResult
unfolding find find_overlap list_definition set_entry source_end
add_definition directory previous spec =
    let definitions = directory.definitions in
    let key_ids = entry_or_empty (find spec.key directory.definitions_by_key) in
    let id = add64 (length definitions) 1 in
    let listed = list_definition definitions previous (source_end spec.source_spans) id key_ids in
    let grown : ContextDirectory = record {
      definitions = definitions ++ (make_definition definitions spec ∷ []);
      definitions_by_key = set_entry spec.key listed directory.definitions_by_key;
    } in
    elim (find_overlap definitions previous spec.source_spans key_ids) [
      | some conflict ↦ (
        directory,
        refusal duplicate_definition "Context definitions for one key cannot overlap"
            (some conflict),
      )
      | none ↦ (
        grown,
        record {
          status = registered;
          definition_id = some id;
          error_message = "";
          conflicting_definition_id = none;
        },
      )
    ]

unfoldable pub register :
    ContextDirectory
    → Option ContextDefinitionId
    → ContextDefinitionSpec
    → ContextDirectory × ContextRegistrationResult
unfolding is_known_kind make_mapping refuse_dependencies add_definition stale_or_new
register directory previous given = elim (make_mapping 1 given.source_spans) [
  | none ↦ (directory, refusal invalid_definition "Context definition metadata is invalid" none)
  | some mapping ↦
      let spec : ContextDefinitionSpec = record given { source_spans = mapping.source_spans } in
      if not (is_known_kind spec.key.kind)
        || mapping.logical_bit_length == 0
        || spec.analysis_node_id == 0
      then (directory, refusal invalid_definition "Context definition metadata is invalid" none)
      else if not (stale_or_new directory previous spec)
      then (
        directory,
        refusal invalid_definition
            "Only a stale definition at the same source spans can be replaced" none,
      )
      else elim (refuse_dependencies directory spec [] spec.dependencies) [
        | some status ↦ (directory, refusal status (dependency_message status) none)
        | none ↦
            if leb u64_max (length directory.definitions)
            then (
              directory,
              refusal invalid_definition "Context definition identifier space is exhausted" none,
            )
            else add_definition directory previous spec
      ]
]

unfoldable pub register_definition :
    ContextDirectory → ContextDefinitionSpec → ContextDirectory × ContextRegistrationResult
unfolding register
register_definition directory spec = register directory none spec

unfoldable pub replace_stale_definition :
    ContextDirectory
    → ContextDefinitionId
    → ContextDefinitionSpec
    → ContextDirectory × ContextRegistrationResult
unfolding register
replace_stale_definition directory previous spec = register directory (some previous) spec
