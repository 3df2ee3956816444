-- ===== src/ContextDirectory/Lasts.antt =====
-- The last identifier of a kind, and those that end by a position.
use stream_view.Common.{
  ℕ, zero, suc, ◌≤◌, ◌<◌, ◌≡◌, Bool, true, false, not, Option, none, some, List, [], ◌∷◌, get_elem?,
  ltb, if◌then◌else◌, inl, inr, Bool-cases, Option-cases, All, All-get, All-map, refl, arith,
}
use stream_view.Coordinates.{SourceBitAddress}
use stream_view.ContextDirectory.Definitions.{
  ContextDefinition, ContextDefinitionId, baseline_of, end_of,
}
use stream_view.ContextDirectory.Lookups.{ending_by, last_with}
use stream_view.ContextDirectory.Entries.{Ascending}

module _ (definitions : List ContextDefinition) where
  -- A listed identifier of one kind, and no other of that kind ends behind it.
  pub record IsLast (baseline : Bool) (ids : List ContextDefinitionId) (id : ContextDefinitionId)
      : Type 0 where
    pub place : ℕ
    pub there : get_elem? ids place ≡ some id
    pub kind : baseline_of definitions id ≡ baseline
    pub last :
        All
          (λ other.
            baseline_of definitions other ≡ baseline
            → end_of definitions other ≤ end_of definitions id)
          ids

  abbrev pub Last : Bool → List ContextDefinitionId → Option ContextDefinitionId → Type 0
  Last baseline ids none = All (λ other. baseline_of definitions other ≡ not baseline) ids
  Last baseline ids (some id) = IsLast baseline ids id

  test_kind :
      (baseline : Bool) (id : ContextDefinitionId)
      → (if baseline then baseline_of definitions id else not (baseline_of definitions id)) ≡ true
      → baseline_of definitions id ≡ baseline
  test_kind baseline id e = ground arith

  test_other :
      (baseline : Bool) (id : ContextDefinitionId)
      → (if baseline then baseline_of definitions id else not (baseline_of definitions id)) ≡ false
      → baseline_of definitions id ≡ not baseline
  test_other baseline id e = ground arith

  different :
      (baseline : Bool) (id : ContextDefinitionId)
      → baseline_of definitions id ≡ not baseline
      → baseline_of definitions id ≡ baseline
      → ⊥
  different true id e f = cc
  different false id e f = cc

  pub last_with-Last :
      (baseline : Bool) (ids : List ContextDefinitionId)
      → Ascending definitions ids
      → Last baseline ids (last_with baseline definitions ids)
  unfolding last_with
  last_with-Last baseline [] ascending = tt
  last_with-Last baseline (id ∷ ids) (first, ascending) =
      let rest = last_with-Last baseline ids ascending in
      elim (Option-cases (last_with baseline definitions ids)) [
        | inr (found, is) ↦
            let old : IsLast baseline ids found = rw is at rest in
            rw (last_with, is)
              (record {
                place = suc old.place;
                there = old.there;
                kind = old.kind;
                last = (
                  λ mine.
                      All-get (λ x. end_of definitions id ≤ end_of definitions x) ids old.place
                        found old.there first,
                  old.last,
                );
              })
        | inl nothing ↦
            let none_left : All (λ other. baseline_of definitions other ≡ not baseline) ids =
              rw nothing at rest in
            elim (Bool-cases
              (if baseline then baseline_of definitions id else not (baseline_of definitions id))) [
                | inl mine ↦
                    rw (last_with, nothing, mine)
                      (record {
                        place = 0;
                        there = refl;
                        kind = test_kind baseline id mine;
                        last = (
                          λ same. omega arith,
                          All-map ids
                              (λ other differs same. absurd (different baseline other differs same))
                              none_left,
                        );
                      })
                | inr other ↦
                    rw (last_with, nothing, other) (test_other baseline id other, none_left)
              ]
      ]

  pub ending_by-get :
      (position : SourceBitAddress) (ids : List ContextDefinitionId) (place : ℕ)
      {id : ContextDefinitionId}
      → get_elem? (ending_by definitions position ids) place ≡ some id
      → get_elem? ids place ≡ some id
  unfolding ending_by
  ending_by-get position [] place e = absurd (cc)
  ending_by-get position (first ∷ ids) zero {id} e =
      elim (Bool-cases (ltb position (end_of definitions first))) [
        | inl behind ↦ absurd (let clash : none ≡ some id = rw (ending_by, behind) at e in cc)
        | inr before ↦ rw (ending_by, before) at e
      ]
  ending_by-get position (first ∷ ids) (suc place) {id} e =
      elim (Bool-cases (ltb position (end_of definitions first))) [
        | inl behind ↦ absurd (let clash : none ≡ some id = rw (ending_by, behind) at e in cc)
        | inr before ↦ ending_by-get position ids place (rw (ending_by, before) at e)
      ]

  pub ending_by-ends :
      (position : SourceBitAddress) (ids : List ContextDefinitionId)
      → All (λ id. end_of definitions id ≤ position) (ending_by definitions position ids)
  unfolding ending_by
  ending_by-ends position [] = tt
  ending_by-ends position (id ∷ ids) =
      let rest = ending_by-ends position ids in
      elim (Bool-cases (ltb position (end_of definitions id))) [
        | inl behind ↦ rw (ending_by, behind) tt
        | inr before ↦ rw (ending_by, before) (ground arith, rest)
      ]

  -- What holds of those that end by the position, in the list of all.
  pub All-ending_by :
      (P : ContextDefinitionId → Type 0) (position : SourceBitAddress)
      (ids : List ContextDefinitionId)
      → Ascending definitions ids
      → All P (ending_by definitions position ids)
      → All (λ id. end_of definitions id ≤ position → P id) ids
  unfolding ending_by
  All-ending_by P position [] ascending all = tt
  All-ending_by P position (id ∷ ids) (first, ascending) all =
      elim (Bool-cases (ltb position (end_of definitions id))) [
        | inl behind ↦
            let late : position < end_of definitions id = ground arith in
            (
              λ early. absurd (omega arith),
              All-map ids (λ other over early. absurd (omega (arith, late, over, early))) first,
            )
        | inr before ↦
            let (mine, others) = rw (ending_by, before) at all in
            (λ early. mine, All-ending_by P position ids ascending others)
      ]

  pub ending_by-Ascending :
      (position : SourceBitAddress) (ids : List ContextDefinitionId)
      → Ascending definitions ids
      → Ascending definitions (ending_by definitions position ids)
  unfolding ending_by
  ending_by-Ascending position [] ascending = tt
  ending_by-Ascending position (id ∷ ids) (first, ascending) =
      elim (Bool-cases (ltb position (end_of definitions id))) [
        | inl behind ↦ rw (ending_by, behind) tt
        | inr before ↦
            rw (ending_by, before) (prefix ids first, ending_by-Ascending position ids ascending)
      ]
    where
      prefix :
          (xs : List ContextDefinitionId)
          → All (λ other. end_of definitions id ≤ end_of definitions other) xs
          → All
              (λ other. end_of definitions id ≤ end_of definitions other)
              (ending_by definitions position xs)
      prefix [] all = tt
      prefix (x ∷ xs) (over, all) = elim (Bool-cases (ltb position (end_of definitions x))) [
        | inl behind ↦ rw (ending_by, behind) tt
        | inr before ↦ rw (ending_by, before) (over, prefix xs all)
      ]
