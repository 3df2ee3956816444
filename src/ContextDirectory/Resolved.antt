-- ===== src/ContextDirectory/Resolved.antt =====
-- `resolveBefore` against a description of the definitions that it finds: the visible one of the
-- key, each of whose dependencies is itself the one that its key resolves to.
use stream_view.Common.{
  ℕ, zero, suc, ◌-◌, ◌<◌, ◌≡◌, ◌↔◌, true, false, none, some, List, [], ◌∷◌, get_elem?, ◌==◌, inl,
  inr, Bool-cases, Option-cases, All, All-both, All-map, subst, refl, arith,
}
use stream_view.Coordinates.{SourceBitAddress}
use stream_view.ContextDirectory.Definitions.{
  ContextDefinition, ContextDefinitionId, ContextDirectory, ContextKey, contains, definition, find,
  maximum_dependency_depth,
}
use stream_view.ContextDirectory.Lookups.{
  ContextLookupResult, candidate_of, check_dependencies, resolve_before, resolve_from,
  visible_candidate,
}
use stream_view.ContextDirectory.Dependencies.{
  Found, Resolves, Resolves-check_dependencies, check_dependencies-Resolves,
}

-- The visible definition of a key with dependencies that resolve to themselves, no deeper than
-- the first number.
unfoldable pub Resolved :
    ContextDirectory → SourceBitAddress → ℕ → ContextKey → ContextDefinition → Type 0
Resolved directory position zero key candidate = ⊥
Resolved directory position (suc depth) key candidate =
    (candidate_of directory position key ≡ some candidate)
    × All
        (λ id.
          (dependency : ContextDefinition) × ((current : ContextDefinition) × ((definition
                  directory.definitions id
                ≡ some dependency)
              × (Resolved directory position depth dependency.key current × (current.id ≡ id)))))
        candidate.dependencies

-- Identifiers are positions, and dependencies stand before what depends on them.
pub record IsOrdered (definitions : List ContextDefinition) : Type 0 where
  pub numbered :
      (position : ℕ) (entry : ContextDefinition)
      → get_elem? definitions position ≡ some entry
      → entry.id ≡ suc position
  pub earlier :
      (position : ℕ) (entry : ContextDefinition)
      → get_elem? definitions position ≡ some entry
      → All (λ id. id < entry.id) entry.dependencies

resolve_from-Resolved :
    (directory : ContextDirectory) (position : SourceBitAddress) (room : ℕ)
    (stack : List ContextDefinitionId) (key : ContextKey) (candidate : ContextDefinition)
    → Found (resolve_from directory position room stack key) candidate
    → Resolved directory position room key candidate
unfolding resolve_from Resolved
resolve_from-Resolved directory position zero stack key candidate found =
    elim (Option-cases (candidate_of directory position key)) [
      | inl nowhere ↦
          absurd (let clash : false ≡ true = rw (resolve_from, nowhere) at found.0 in cc)
      | inr (visible, is) ↦
          absurd (let clash : false ≡ true = rw (resolve_from, is) at found.0 in cc)
    ]
resolve_from-Resolved directory position (suc room) stack key candidate found =
    elim (Option-cases (candidate_of directory position key)) [
      | inl nowhere ↦
          absurd (let clash : false ≡ true = rw (resolve_from, nowhere) at found.0 in cc)
      | inr (visible, is) ↦ elim (Bool-cases (contains visible.id stack)) [
        | inl cyclic ↦
            absurd (let clash : false ≡ true = rw (resolve_from, is, cyclic) at found.0 in cc)
        | inr fresh ↦
            let resolve : ContextKey → ContextLookupResult =
              resolve_from directory position room (visible.id ∷ stack) in
            let checked : Found
                (check_dependencies directory.definitions resolve visible visible.dependencies)
                candidate =
              rw (resolve_from, is, fresh) at found in
            let (made, all) =
              check_dependencies-Resolves directory.definitions resolve visible candidate
                visible.dependencies checked in
            let whole : Resolved directory position (suc room) key visible = (
              is,
              All-map visible.dependencies
                  (λ id (dependency, (current, (known, (below, same)))). (
                    dependency,
                    (
                      current,
                      (
                        known,
                        (
                          resolve_from-Resolved directory position room (visible.id ∷ stack)
                              dependency.key current below,
                          same,
                        ),
                      ),
                    ),
                  ))
                  all,
            ) in
            subst (Resolved directory position (suc room) key) made whole
      ]
    ]

-- A candidate whose identifier is before those of the stack is not on it.
not_contains :
    (id : ContextDefinitionId) (stack : List ContextDefinitionId)
    → All (λ other. id < other) stack
    → contains id stack ≡ false
not_contains id [] before = refl
not_contains id (other ∷ stack) (first, before) =
    let differ : (other == id) ≡ false = ground arith in rw differ (not_contains id stack before)

pub candidate_of-listed :
    (directory : ContextDirectory) (position : SourceBitAddress) (key : ContextKey)
    (candidate : ContextDefinition)
    → candidate_of directory position key ≡ some candidate
    → (place : ℕ) × (get_elem? directory.definitions place ≡ some candidate)
unfolding candidate_of
candidate_of-listed directory position key candidate is =
    elim (Option-cases (find key directory.definitions_by_key)) [
      | inl unlisted ↦
          absurd (let clash : none ≡ some candidate = rw (candidate_of, unlisted) at is in cc)
      | inr (ids, listed) ↦
          elim (Option-cases (visible_candidate directory.definitions ids position)) [
            | inl hidden ↦
                absurd (
                  let clash : none ≡ some candidate = rw (candidate_of, listed, hidden) at is in cc)
            | inr (id, visible) ↦ (id - 1, rw (candidate_of, listed, visible) at is)
          ]
    ]

Resolved-resolve_from :
    (directory : ContextDirectory) (position : SourceBitAddress) (room : ℕ)
    (stack : List ContextDefinitionId) (key : ContextKey) (candidate : ContextDefinition)
    → IsOrdered directory.definitions
    → All (λ other. candidate.id < other) stack
    → Resolved directory position room key candidate
    → Found (resolve_from directory position room stack key) candidate
unfolding resolve_from Resolved
Resolved-resolve_from directory position zero stack key candidate ordered before resolved =
    absurd resolved
Resolved-resolve_from directory position (suc room) stack key candidate ordered before (is, all) =
    let (place, there) = candidate_of-listed directory position key candidate is in
    let resolve : ContextKey → ContextLookupResult =
      resolve_from directory position room (candidate.id ∷ stack) in
    let deep : All (Resolves directory.definitions resolve) candidate.dependencies =
      All-both candidate.dependencies
        (λ id (dependency, (current, (known, (below, same)))) earlier. (
          dependency,
          (
            current,
            (
              known,
              (
                Resolved-resolve_from directory position room (candidate.id ∷ stack) dependency.key
                    current ordered (omega arith, All-map stack (λ other first. omega arith) before)
                    below,
                same,
              ),
            ),
          ),
        ))
        all (ordered.earlier place candidate there) in
    rw (resolve_from, is, not_contains candidate.id stack before)
      (Resolves-check_dependencies directory.definitions resolve candidate candidate.dependencies
        deep)

-- in an ordered directory a lookup finds a definition exactly when it is the visible one of its
-- key and its dependencies resolve to themselves, at most 64 deep
pub resolve_before-Resolved :
    (directory : ContextDirectory) (key : ContextKey) (position : SourceBitAddress)
    (candidate : ContextDefinition)
    → IsOrdered directory.definitions
    → Found (resolve_before directory key position) candidate
      ↔ Resolved directory position maximum_dependency_depth key candidate
unfolding resolve_before
resolve_before-Resolved directory key position candidate ordered = (
  resolve_from-Resolved directory position 64 [] key candidate,
  Resolved-resolve_from directory position 64 [] key candidate ordered tt,
)
