-- ===== src/ContextDirectory/Entries.antt =====
-- The identifiers of one key: in the order of the ends of their definitions, through insertions,
-- replacements and new definitions.
use stream_view.Common.{
  ◌-◌, ◌≤◌, ◌≡◌, true, some, List, [], ◌∷◌, get_elem?, ◌==◌, ltb, Bool-cases, inl, inr, All,
  All-map, arith, subst,
}
use stream_view.Coordinates.{SourceBitAddress}
use stream_view.ContextDirectory.Definitions.{
  ContextDefinition, ContextDefinitionId, ContextDefinitionKind, ContextKey, end_of, find, key_eq,
  key_lt, kind_index,
}
use stream_view.ContextDirectory.Registration.{insert_by_end, replace_first, set_entry}

-- The identifiers stand by the ends of their definitions.
abbrev pub Ascending : List ContextDefinition → List ContextDefinitionId → Type 0
Ascending definitions [] = Unit
Ascending definitions (id ∷ ids) =
    All (λ other. end_of definitions id ≤ end_of definitions other) ids × Ascending definitions ids

-- A definition of the key.
abbrev pub Listed : List ContextDefinition → ContextKey → ContextDefinitionId → Type 0
Listed definitions key id =
    (entry : ContextDefinition) × ((get_elem? definitions (id - 1) ≡ some entry)
      × (entry.key ≡ key))

abbrev pub IsEntry : List ContextDefinition → (ContextKey × List ContextDefinitionId) → Type 0
IsEntry definitions entry = Ascending definitions entry.1 × All (Listed definitions entry.0) entry.1

module _ (definitions : List ContextDefinition) where
  pub All-insert_by_end :
      (P : ContextDefinitionId → Type 0) (end_position : SourceBitAddress)
      (id : ContextDefinitionId) (ids : List ContextDefinitionId)
      → P id
      → All P ids
      → All P (insert_by_end definitions end_position id ids)
  unfolding insert_by_end
  All-insert_by_end P end_position id [] new all = (new, tt)
  All-insert_by_end P end_position id (other ∷ ids) new (first, all) =
      let rest = All-insert_by_end P end_position id ids new all in
      elim (Bool-cases (ltb (end_of definitions other) end_position)) [
        | inl before ↦ rw (insert_by_end, before) (first, rest)
        | inr behind ↦ rw (insert_by_end, behind) (new, (first, all))
      ]

  -- `later` are the definitions after the new one, in which the listed ones end as before.
  pub insert_by_end-Ascending :
      (later : List ContextDefinition) (end_position : SourceBitAddress) (id : ContextDefinitionId)
      (ids : List ContextDefinitionId)
      → end_of later id ≡ end_position
      → All (λ other. end_of later other ≡ end_of definitions other) ids
      → Ascending later ids
      → Ascending later (insert_by_end definitions end_position id ids)
  unfolding insert_by_end
  insert_by_end-Ascending later end_position id [] new same ascending = (tt, tt)
  insert_by_end-Ascending later end_position id (other ∷ ids) new (here, same) (first, ascending) =
      let rest = insert_by_end-Ascending later end_position id ids new same ascending in
      elim (Bool-cases (ltb (end_of definitions other) end_position)) [
        | inl before ↦
            let above =
              All-insert_by_end (λ x. end_of later other ≤ end_of later x) end_position id ids
                (ground arith) first in
            rw (insert_by_end, before) (above, rest)
        | inr behind ↦
            let below : end_of later id ≤ end_of later other = ground arith in
            rw (insert_by_end, behind)
              (
                (below, All-map ids (λ x over. omega (arith, below, over)) first),
                (first, ascending),
              )
      ]

pub All-replace_first :
    (P : ContextDefinitionId → Type 0) (previous id : ContextDefinitionId)
    (ids : List ContextDefinitionId)
    → (P previous → P id)
    → All P ids
    → All P (replace_first previous id ids)
All-replace_first P previous id [] carry all = tt
All-replace_first P previous id (other ∷ ids) carry (first, all) =
    elim (Bool-cases (other == previous)) [
      | inl same ↦
          let is : other ≡ previous = ground arith in rw same (carry (subst P is first), all)
      | inr differ ↦ rw differ (first, All-replace_first P previous id ids carry all)
    ]

pub replace_first-Ascending :
    (later : List ContextDefinition) (previous id : ContextDefinitionId)
    (ids : List ContextDefinitionId)
    → end_of later id ≡ end_of later previous
    → Ascending later ids
    → Ascending later (replace_first previous id ids)
replace_first-Ascending later previous id [] same ascending = tt
replace_first-Ascending later previous id (other ∷ ids) same (first, ascending) =
    elim (Bool-cases (other == previous)) [
      | inl equal ↦
          let is : other ≡ previous = ground arith in
          rw equal (All-map ids (λ x over. rw (same, ← is) over) first, ascending)
      | inr differ ↦ rw differ (
        All-replace_first (λ x. end_of later other ≤ end_of later x) previous id ids
            (λ over. rw same over) first,
        replace_first-Ascending later previous id ids same ascending,
      )
    ]

pub All-set_entry :
    (P : (ContextKey × List ContextDefinitionId) → Type 0) (key : ContextKey)
    (ids : List ContextDefinitionId) (entries : List (ContextKey × List ContextDefinitionId))
    → P (key, ids)
    → All P entries
    → All P (set_entry key ids entries)
unfolding set_entry
All-set_entry P key ids [] new all = (new, tt)
All-set_entry P key ids (entry ∷ entries) new (first, all) =
    let rest = All-set_entry P key ids entries new all in
    elim (Bool-cases (key_eq entry.0 key)) [
      | inl same ↦ rw (set_entry, same) (new, all)
      | inr differ ↦ elim (Bool-cases (key_lt key entry.0)) [
        | inl before ↦ rw (set_entry, differ, before) (new, (first, all))
        | inr behind ↦ rw (set_entry, differ, behind) (first, rest)
      ]
    ]

kind_index_unique :
    (left right : ContextDefinitionKind) → kind_index left ≡ kind_index right → left ≡ right
kind_index_unique left right e = ground arith

pub key_eq-eq : (left right : ContextKey) → key_eq left right ≡ true → left ≡ right
unfolding key_eq
key_eq-eq left right e =
    let kind = kind_index_unique left.kind right.kind (ground arith) in
    let scope : left.scope_id ≡ right.scope_id = ground arith in
    let value : left.value ≡ right.value = ground arith in
    λ i. record { kind = kind i; scope_id = scope i; value = value i }

pub All-find :
    (P : (ContextKey × List ContextDefinitionId) → Type 0) (key : ContextKey)
    {ids : List ContextDefinitionId} (entries : List (ContextKey × List ContextDefinitionId))
    → find key entries ≡ some ids
    → All P entries
    → P (key, ids)
unfolding find
All-find P key [] e all = absurd (cc)
All-find P key {ids} (entry ∷ entries) e (first, all) = elim (Bool-cases (key_eq entry.0 key)) [
  | inl same ↦
      let found : some entry.1 ≡ some ids = rw (find, same) at e in
      let is : entry.1 ≡ ids = cc in
      let named = key_eq-eq entry.0 key same in
      subst (λ k. P (k, ids)) named (subst (λ x. P (entry.0, x)) is first)
  | inr differ ↦ All-find P key entries (rw (find, differ) at e) all
]
