-- ===== src/ContextDirectory/Visible.antt =====
-- The definition of a key that is visible at a position: the last one in band that ends by it, and
-- failing that the last baseline.
use stream_view.Common.{
  ℕ, ◌≤◌, ◌≡◌, ◌⊎◌, true, false, Option, none, some, List, get_elem?, inl, inr, Option-cases, All,
  All-get,
}
use stream_view.Coordinates.{SourceBitAddress}
use stream_view.ContextDirectory.Definitions.{
  ContextDefinition, ContextDefinitionId, baseline_of, end_of,
}
use stream_view.ContextDirectory.Lookups.{ending_by, last_with, visible_candidate}
use stream_view.ContextDirectory.Entries.{Ascending}
use stream_view.ContextDirectory.Lasts.{
  All-ending_by, IsLast, ending_by-Ascending, ending_by-ends, ending_by-get, last_with-Last,
}

module _ (definitions : List ContextDefinition) where
  -- A definition in band that ends by the position, and none such ends behind it.
  pub record InBand (position : SourceBitAddress) (ids : List ContextDefinitionId)
      (id : ContextDefinitionId) : Type 0 where
    pub place : ℕ
    pub there : get_elem? ids place ≡ some id
    pub in_band : baseline_of definitions id ≡ false
    pub ends : end_of definitions id ≤ position
    pub last :
        All
          (λ other.
            end_of definitions other ≤ position
            → baseline_of definitions other ≡ false
            → end_of definitions other ≤ end_of definitions id)
          ids

  abbrev pub NoneInBand : SourceBitAddress → List ContextDefinitionId → Type 0
  NoneInBand position ids =
      All (λ other. end_of definitions other ≤ position → baseline_of definitions other ≡ true) ids

  abbrev pub IsVisible :
      SourceBitAddress → List ContextDefinitionId → Option ContextDefinitionId → Type 0
  IsVisible position ids none =
      NoneInBand position ids × All (λ other. baseline_of definitions other ≡ false) ids
  IsVisible position ids (some id) =
      InBand position ids id ⊎ (NoneInBand position ids × IsLast definitions true ids id)

  -- the candidate of an ascending list is its last identifier in band that ends by the position;
  -- when there is none, its last baseline; and there is no candidate when it has none of either
  pub visible_candidate-IsVisible :
      (position : SourceBitAddress) (ids : List ContextDefinitionId)
      → Ascending definitions ids
      → IsVisible position ids (visible_candidate definitions ids position)
  unfolding visible_candidate
  visible_candidate-IsVisible position ids ascending =
      let early = ending_by definitions position ids in
      let in_band =
        last_with-Last definitions false early
          (ending_by-Ascending definitions position ids ascending) in
      elim (Option-cases (last_with false definitions early)) [
        | inr (id, is) ↦
            let found : IsLast definitions false early id = rw is at in_band in
            rw (visible_candidate, is)
              (inl (record {
                place = found.place;
                there = ending_by-get definitions position ids found.place found.there;
                in_band = found.kind;
                ends =
                    All-get (λ x. end_of definitions x ≤ position) early found.place id found.there
                      (ending_by-ends definitions position ids);
                last =
                    All-ending_by definitions
                      (λ x.
                        baseline_of definitions x ≡ false
                        → end_of definitions x ≤ end_of definitions id)
                      position ids ascending found.last;
              }))
        | inl nothing ↦
            let all : All (λ x. baseline_of definitions x ≡ true) early = rw nothing at in_band in
            let no_band : NoneInBand position ids =
              All-ending_by definitions (λ x. baseline_of definitions x ≡ true) position ids
                ascending all in
            let baselines = last_with-Last definitions true ids ascending in
            elim (Option-cases (last_with true definitions ids)) [
              | inr (id, is) ↦
                  let found : IsLast definitions true ids id = rw is at baselines in
                  rw (visible_candidate, nothing, is) (inr (no_band, found))
              | inl neither ↦
                  let others : All (λ x. baseline_of definitions x ≡ false) ids =
                    rw neither at baselines in
                  rw (visible_candidate, nothing, neither) (no_band, others)
            ]
      ]
