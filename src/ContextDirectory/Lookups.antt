-- ===== src/ContextDirectory/Lookups.antt =====
-- Lookups: the definition of a key that is visible at a source position, and whether the
-- definitions that it depends on are the visible ones too.
use stream_view.Common.{
  ℕ, zero, suc, ◌-◌, Bool, true, false, not, ◌&&◌, ◌||◌, Option, none, some, List, [], ◌∷◌,
  get_elem?, ltb, ◌==◌, if◌then◌else◌, u64_max,
}
use stream_view.Coordinates.{SourceBitAddress}
use stream_view.ContextDirectory.Definitions.{
  ContextDefinition, ContextDefinitionId, ContextDefinitionKind, ContextDirectory, ContextKey,
  baseline_of, contains, definition, end_of, find, key_lt, maximum_dependency_depth,
}

pub data ContextLookupStatus : Type 0 where
  found : ContextLookupStatus
  not_found : ContextLookupStatus
  dependency_unavailable : ContextLookupStatus

pub record ContextLookupResult : Type 0 where
  pub status : ContextLookupStatus
  pub definition : Option ContextDefinition
  pub unavailable_dependency : Option ContextDefinitionId

abbrev pub nothing_found : ContextLookupResult
nothing_found = record { status = not_found; definition = none; unavailable_dependency = none }

abbrev pub unavailable : ContextDefinitionId → ContextLookupResult
unavailable id = record {
  status = dependency_unavailable;
  definition = none;
  unavailable_dependency = some id;
}

abbrev pub found_definition : ContextDefinition → ContextLookupResult
found_definition candidate = record {
  status = found;
  definition = some candidate;
  unavailable_dependency = none;
}

-- What stands before `std::upper_bound`: the identifiers whose ends are not behind the position.
unfoldable pub ending_by :
    List ContextDefinition → SourceBitAddress → List ContextDefinitionId → List ContextDefinitionId
unfolding end_of
ending_by definitions position [] = []
ending_by definitions position (id ∷ ids) =
    let rest = id ∷ ending_by definitions position ids in
    if ltb position (end_of definitions id) then [] else rest

-- The last identifier whose definition is a baseline, or is none, from the back.
unfoldable pub last_with :
    Bool → List ContextDefinition → List ContextDefinitionId → Option ContextDefinitionId
unfolding baseline_of
last_with baseline definitions [] = none
last_with baseline definitions (id ∷ ids) = elim (last_with baseline definitions ids) [
  | some last ↦ some last
  | none ↦
      if (if baseline then baseline_of definitions id else not (baseline_of definitions id))
      then some id
      else none
]

unfoldable pub visible_candidate :
    List ContextDefinition
    → List ContextDefinitionId
    → SourceBitAddress
    → Option ContextDefinitionId
unfolding ending_by last_with
visible_candidate definitions ids position =
    elim (last_with false definitions (ending_by definitions position ids)) [
      | some id ↦ some id
      | none ↦ last_with true definitions ids
    ]

abbrev pub is_found : ContextLookupStatus → Bool
is_found found = true
is_found not_found = false
is_found dependency_unavailable = false

abbrev pub or_else : Option ContextDefinitionId → ContextDefinitionId → ContextDefinitionId
or_else none id = id
or_else (some other) id = other

-- The loop over the dependencies of a candidate, given how their keys resolve.
unfoldable pub check_dependencies :
    List ContextDefinition
    → (ContextKey → ContextLookupResult)
    → ContextDefinition
    → List ContextDefinitionId
    → ContextLookupResult
unfolding definition
check_dependencies definitions resolve candidate [] = found_definition candidate
check_dependencies definitions resolve candidate (id ∷ ids) =
    let rest = check_dependencies definitions resolve candidate ids in
    elim (definition definitions id) [
      | none ↦ unavailable id
      | some dependency ↦
          let current = resolve dependency.key in
          if not (is_found current.status)
          then unavailable (or_else current.unavailable_dependency id)
          else elim (current.definition) [
            | none ↦ unavailable id
            | some latest ↦ if latest.id == id then rest else unavailable id
          ]
    ]

-- The visible definition of a key.
unfoldable pub candidate_of :
    ContextDirectory → SourceBitAddress → ContextKey → Option ContextDefinition
unfolding find visible_candidate
candidate_of directory position key = elim (find key directory.definitions_by_key) [
  | none ↦ none
  | some ids ↦ elim (visible_candidate directory.definitions ids position) [
    | none ↦ none
    | some id ↦ get_elem? directory.definitions (id - 1)
  ]
]

-- `resolveBefore` with the stack of candidates under resolution, behind its test that the stack
-- holds less than 64: the first number is what the stack may still grow by.
unfoldable pub resolve_from :
    ContextDirectory
    → SourceBitAddress
    → ℕ
    → List ContextDefinitionId
    → ContextKey
    → ContextLookupResult
unfolding candidate_of check_dependencies
resolve_from directory position zero stack key = elim (candidate_of directory position key) [
  | none ↦ nothing_found
  | some candidate ↦ unavailable candidate.id
]
resolve_from directory position (suc room) stack key = elim (candidate_of directory position key) [
  | none ↦ nothing_found
  | some candidate ↦
      let checked =
        check_dependencies directory.definitions
          (resolve_from directory position room (candidate.id ∷ stack)) candidate
          candidate.dependencies in
      if contains candidate.id stack then unavailable candidate.id else checked
]

unfoldable pub resolve_before :
    ContextDirectory → ContextKey → SourceBitAddress → ContextLookupResult
unfolding resolve_from
resolve_before directory key position =
    resolve_from directory position maximum_dependency_depth [] key

-- The candidate of `resolveLatestBefore` so far, with its end and whether it is a baseline.
pub record Latest : Type 0 where
  pub id : ContextDefinitionId
  pub end_position : SourceBitAddress
  pub is_baseline : Bool

unfoldable pub is_later : Bool → SourceBitAddress → Option Latest → Bool
is_later baseline end_position none = true
is_later baseline end_position (some latest) =
    (latest.is_baseline && not baseline)
    || ((if baseline then latest.is_baseline else not latest.is_baseline)
        && ltb latest.end_position end_position)

-- The entries from the key with value 0 to the key with the largest value.
unfoldable pub latest_of :
    ContextDirectory
    → ContextDefinitionKind
    → ℕ
    → SourceBitAddress
    → Option Latest
    → List (ContextKey × List ContextDefinitionId)
    → Option Latest
unfolding key_lt visible_candidate is_later end_of baseline_of
latest_of directory kind scope_id position latest [] = latest
latest_of directory kind scope_id position latest (entry ∷ entries) =
    let first : ContextKey = record { kind = kind; scope_id = scope_id; value = 0 } in
    let last : ContextKey = record { kind = kind; scope_id = scope_id; value = u64_max } in
    let kept : Option Latest = elim (visible_candidate directory.definitions entry.1 position) [
      | none ↦ latest
      | some id ↦
          let end_position = end_of directory.definitions id in
          let baseline = baseline_of directory.definitions id in
          if is_later baseline end_position latest
          then some (record { id = id; end_position = end_position; is_baseline = baseline })
          else latest
    ] in
    let inside = not (key_lt entry.0 first) && not (key_lt last entry.0) in
    latest_of directory kind scope_id position (if inside then kept else latest) entries

unfoldable pub resolve_latest_before :
    ContextDirectory → ContextDefinitionKind → ℕ → SourceBitAddress → ContextLookupResult
unfolding latest_of resolve_before
resolve_latest_before directory kind scope_id position =
    elim (latest_of directory kind scope_id position none directory.definitions_by_key) [
      | none ↦ nothing_found
      | some latest ↦ elim (get_elem? directory.definitions (latest.id - 1)) [
        | none ↦ nothing_found
        | some candidate ↦ resolve_before directory candidate.key position
      ]
    ]
