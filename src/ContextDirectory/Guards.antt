-- ===== src/ContextDirectory/Guards.antt =====
-- What a registration refuses: a replacement of a definition that is not stale, and dependencies
-- that are not the visible definitions of their keys.
use stream_view.Common.{
  String, Bool, true, false, not, ◌&&◌, ◌||◌, Option, none, some, List, [], ◌∷◌, ◌++◌, ◌==◌,
  if◌then◌else◌,
}
use stream_view.Coordinates.{SourceSpan}
use stream_view.ContextDirectory.Definitions.{
  ContextDefinitionId, ContextDefinitionSpec, ContextDirectory, contains, definition, find, key_eq,
  source_end, source_start,
}
use stream_view.ContextDirectory.Lookups.{
  ContextLookupStatus, dependency_unavailable, found, is_found, not_found, resolve_before,
  visible_candidate,
}

-- `DependencyUnavailable` is `unavailable_dependency` here, apart from the lookup status of that name.
pub data ContextRegistrationStatus : Type 0 where
  registered : ContextRegistrationStatus
  invalid_definition : ContextRegistrationStatus
  duplicate_definition : ContextRegistrationStatus
  unavailable_dependency : ContextRegistrationStatus

pub record ContextRegistrationResult : Type 0 where
  pub status : ContextRegistrationStatus
  pub definition_id : Option ContextDefinitionId
  pub error_message : String
  pub conflicting_definition_id : Option ContextDefinitionId

abbrev pub refusal :
    ContextRegistrationStatus → String → Option ContextDefinitionId → ContextRegistrationResult
refusal status message conflict = record {
  status = status;
  definition_id = none;
  error_message = message;
  conflicting_definition_id = conflict;
}

-- The message of a refused dependency.
abbrev pub dependency_message : ContextRegistrationStatus → String
dependency_message invalid_definition = "Context definition dependency metadata is invalid"
dependency_message unavailable_dependency = "Context definition dependency is unavailable"
dependency_message registered = ""
dependency_message duplicate_definition = ""

abbrev pub same_spans : List SourceSpan → List SourceSpan → Bool
same_spans [] [] = true
same_spans [] (right ∷ rights) = false
same_spans (left ∷ lefts) [] = false
same_spans (left ∷ lefts) (right ∷ rights) =
    (left.start == right.start && left.bit_length == right.bit_length) && same_spans lefts rights

abbrev pub same_ids : List ContextDefinitionId → List ContextDefinitionId → Bool
same_ids [] [] = true
same_ids [] (right ∷ rights) = false
same_ids (left ∷ lefts) [] = false
same_ids (left ∷ lefts) (right ∷ rights) = left == right && same_ids lefts rights

abbrev pub same_flag : Bool → Bool → Bool
same_flag true right = right
same_flag false right = not right

abbrev pub is_id : ContextDefinitionId → Option ContextDefinitionId → Bool
is_id id none = false
is_id id (some other) = id == other

abbrev pub is_dependency_unavailable : ContextLookupStatus → Bool
is_dependency_unavailable found = false
is_dependency_unavailable not_found = false
is_dependency_unavailable dependency_unavailable = true

-- The guard of `replaceStaleDefinition`, on spans that are normalized.
unfoldable pub replaces_stale :
    ContextDirectory → ContextDefinitionId → ContextDefinitionSpec → Bool
unfolding definition find key_eq visible_candidate source_end resolve_before
replaces_stale directory previous spec = elim (definition directory.definitions previous) [
  | none ↦ false
  | some old ↦ elim (find spec.key directory.definitions_by_key) [
    | none ↦ false
    | some ids ↦
        let end_position = source_end spec.source_spans in
        key_eq old.key spec.key
        && same_spans old.source_spans spec.source_spans
        && same_flag old.baseline spec.baseline
        && not (same_ids old.dependencies spec.dependencies)
        && is_id previous (visible_candidate directory.definitions ids end_position)
        && is_dependency_unavailable (resolve_before directory spec.key end_position).status
  ]
]

-- The loop over the dependencies of a specification; none when each is the visible definition.
unfoldable pub refuse_dependencies :
    ContextDirectory
    → ContextDefinitionSpec
    → List ContextDefinitionId
    → List ContextDefinitionId
    → Option ContextRegistrationStatus
unfolding definition key_eq resolve_before source_start
refuse_dependencies directory spec checked [] = none
refuse_dependencies directory spec checked (id ∷ ids) =
    let rest = refuse_dependencies directory spec (checked ++ (id ∷ [])) ids in
    elim (definition directory.definitions id) [
      | none ↦ some invalid_definition
      | some dependency ↦
          let current = resolve_before directory dependency.key (source_start spec.source_spans) in
          let stale : Option ContextRegistrationStatus = some unavailable_dependency in
          if key_eq dependency.key spec.key || contains id checked
          then some invalid_definition
          else if not (is_found current.status)
          then stale
          else elim (current.definition) [
            | none ↦ stale
            | some latest ↦ if latest.id == id then rest else stale
          ]
    ]

unfoldable pub stale_or_new :
    ContextDirectory → Option ContextDefinitionId → ContextDefinitionSpec → Bool
unfolding replaces_stale
stale_or_new directory none spec = true
stale_or_new directory (some previous) spec = replaces_stale directory previous spec
