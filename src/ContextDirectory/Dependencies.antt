-- ===== src/ContextDirectory/Dependencies.antt =====
-- The loop of `resolveBefore` over the dependencies of a candidate.
use stream_view.Common.{
  ◌≡◌, true, false, some, List, [], ◌∷◌, ◌==◌, inl, inr, Bool-cases, Option-cases, All, refl, arith,
}
use stream_view.ContextDirectory.Definitions.{
  ContextDefinition, ContextDefinitionId, ContextKey, definition,
}
use stream_view.ContextDirectory.Lookups.{ContextLookupResult, check_dependencies, is_found}

abbrev pub Found : ContextLookupResult → ContextDefinition → Type 0
Found result candidate = (is_found result.status ≡ true) × (result.definition ≡ some candidate)

-- What the loop over the dependencies asks of each.
abbrev pub Resolves :
    List ContextDefinition → (ContextKey → ContextLookupResult) → ContextDefinitionId → Type 0
Resolves definitions resolve id =
    (dependency : ContextDefinition) × ((current : ContextDefinition) × ((definition definitions id
          ≡ some dependency)
        × (Found (resolve dependency.key) current × (current.id ≡ id))))

pub check_dependencies-Resolves :
    (definitions : List ContextDefinition) (resolve : ContextKey → ContextLookupResult)
    (candidate result : ContextDefinition) (ids : List ContextDefinitionId)
    → Found (check_dependencies definitions resolve candidate ids) result
    → (candidate ≡ result) × All (Resolves definitions resolve) ids
unfolding check_dependencies
check_dependencies-Resolves definitions resolve candidate result [] found = (cc, tt)
check_dependencies-Resolves definitions resolve candidate result (id ∷ ids) found =
    elim (Option-cases (definition definitions id)) [
      | inl unknown ↦
          absurd (let clash : false ≡ true = rw (check_dependencies, unknown) at found.0 in cc)
      | inr (dependency, known) ↦ elim (Bool-cases (is_found (resolve dependency.key).status)) [
        | inr lost ↦
            absurd
              (let clash : false ≡ true = rw (check_dependencies, known, lost) at found.0 in cc)
        | inl there ↦ elim (Option-cases ((resolve dependency.key).definition)) [
          | inl empty ↦ absurd (
              let clash : false ≡ true = rw (check_dependencies, known, there, empty) at found.0 in
              cc)
          | inr (current, is) ↦ elim (Bool-cases (current.id == id)) [
            | inr stale ↦ absurd (
                let clash : false ≡ true =
                  rw (check_dependencies, known, there, is, stale) at found.0 in
                cc)
            | inl same ↦
                let rest : Found (check_dependencies definitions resolve candidate ids) result =
                  rw (check_dependencies, known, there, is, same) at found in
                let (made, others) =
                  check_dependencies-Resolves definitions resolve candidate result ids rest in
                (made, ((dependency, (current, (known, ((there, is), ground arith)))), others))
          ]
        ]
      ]
    ]

pub Resolves-check_dependencies :
    (definitions : List ContextDefinition) (resolve : ContextKey → ContextLookupResult)
    (candidate : ContextDefinition) (ids : List ContextDefinitionId)
    → All (Resolves definitions resolve) ids
    → Found (check_dependencies definitions resolve candidate ids) candidate
unfolding check_dependencies
Resolves-check_dependencies definitions resolve candidate [] resolves = (refl, refl)
Resolves-check_dependencies definitions resolve candidate (id ∷ ids)
      ((dependency, (current, (known, ((there, is), same)))), others) =
    let equal : (current.id == id) ≡ true = ground arith in
    rw (check_dependencies, known, there, is, equal)
      (Resolves-check_dependencies definitions resolve candidate ids others)
