-- ===== src/AnalysisTree/Ranks.antt =====
-- The order in which `mostSpecificMaterializedNodeAt` prefers nodes, and the best of a list.
use stream_view.Common.{
  ℕ, zero, suc, ◌≤◌, ◌<◌, ◌≡◌, ◌⊎◌, inl, inr, true, false, Option, none, some, List, ◌∷◌, refl, sym,
  ◌∙◌, arith, Bool-cases, get_elem?, if◌then◌else◌, subst,
}
use stream_view.Coordinates.{SourceBitAddress}
use stream_view.AnalysisTree.Nodes.{AnalysisNode}
use stream_view.AnalysisTree.Locate.{Best, is_better}
use stream_view.AnalysisTree.Covers.{Covers, HasDepth}
use stream_view.AnalysisTree.Depths.{Covers-unique, HasDepth-unique}

-- A place in the order that is no worse than another.
abbrev pub Beats : Best → Best → Type 0
Beats a b =
    (b.depth < a.depth)
    ⊎ ((a.depth ≡ b.depth)
        × ((a.coverage < b.coverage) ⊎ ((a.coverage ≡ b.coverage) × (a.id ≤ b.id))))

abbrev pub BeatsIt : Option Best → Best → Type 0
BeatsIt none b = ⊥
BeatsIt (some a) b = Beats a b

Beats-trans : (a b c : Best) → Beats a b → Beats b c → Beats a c
Beats-trans a b c ab bc = ground arith

pub Beats-refl : (a : Best) → Beats a a
Beats-refl a = inr (refl, inr (refl, omega arith))

Best-ext : (a b : Best) → a.id ≡ b.id → a.depth ≡ b.depth → a.coverage ≡ b.coverage → a ≡ b
Best-ext a b id depth coverage = λ i. record { id = id i; depth = depth i; coverage = coverage i }

BeatsIt-trans : (a : Option Best) (b c : Best) → BeatsIt a b → Beats b c → BeatsIt a c
BeatsIt-trans none b c ab bc = absurd ab
BeatsIt-trans (some a) b c ab bc = Beats-trans a b c ab bc

better-Beats : (b best : Best) → is_better b.id b.depth b.coverage (some best) ≡ true → Beats b best
unfolding is_better
better-Beats b best better = ground arith

worse-Beats : (b best : Best) → is_better b.id b.depth b.coverage (some best) ≡ false → Beats best b
unfolding is_better
worse-Beats b best worse = ground arith

module _ {V : Type 0} where
  -- The place of a node that covers the bit.
  pub record IsRank (nodes : List (AnalysisNode V)) (source_bit : SourceBitAddress)
      (node : AnalysisNode V) (rank : Best) : Type 0 where
    pub numbered : rank.id ≡ node.id
    pub covers : Covers source_bit node rank.coverage
    pub deep : HasDepth nodes node.parent_id rank.depth

  -- The best of what the loop started with and the candidates.
  pub record IsBest (nodes : List (AnalysisNode V)) (source_bit : SourceBitAddress)
      (start : Option Best) (candidates : List (AnalysisNode V)) (result : Option Best)
      : Type 0 where
    pub over :
        (position : ℕ) (node : AnalysisNode V) (rank : Best)
        → get_elem? candidates position ≡ some node
        → IsRank nodes source_bit node rank
        → BeatsIt result rank
    pub over_start : (rank : Best) → start ≡ some rank → BeatsIt result rank
    pub from :
        (rank : Best)
        → result ≡ some rank
        → (start ≡ some rank)
          ⊎ ((position : ℕ) × ((node : AnalysisNode V) × ((get_elem? candidates position
                    ≡ some node)
                  × IsRank nodes source_bit node rank)))

  IsRank-unique :
      {nodes : List (AnalysisNode V)} (source_bit : SourceBitAddress) (node : AnalysisNode V)
      (a b : Best)
      → IsRank nodes source_bit node a
      → IsRank nodes source_bit node b
      → a ≡ b
  IsRank-unique {nodes} source_bit node a b one other =
      Best-ext a b (one.numbered ∙ sym other.numbered)
        (HasDepth-unique nodes node.parent_id a.depth b.depth one.deep other.deep)
        (Covers-unique source_bit node a.coverage b.coverage one.covers other.covers)

  pub skip-IsBest :
      {nodes : List (AnalysisNode V)} {source_bit : SourceBitAddress} {start result : Option Best}
      {candidates : List (AnalysisNode V)} (node : AnalysisNode V)
      → ((rank : Best) → IsRank nodes source_bit node rank → ⊥)
      → IsBest nodes source_bit start candidates result
      → IsBest nodes source_bit start (node ∷ candidates) result
  skip-IsBest {nodes} {source_bit} {start} {result} {candidates} node unranked best = record {
    over = λ position other rank found ranked. shift position other rank found ranked;
    over_start = best.over_start;
    from = λ rank e. elim (best.from rank e) [
      | inl old ↦ inl old
      | inr (position, (other, (found, ranked))) ↦ inr (suc position, (other, (found, ranked)))
    ];
  }
    where
      shift :
          (position : ℕ) (other : AnalysisNode V) (rank : Best)
          → get_elem? (node ∷ candidates) position ≡ some other
          → IsRank nodes source_bit other rank
          → BeatsIt result rank
      shift zero other rank found ranked =
          let is : node ≡ other = cc in absurd (unranked rank (rw is ranked))
      shift (suc position) other rank found ranked = best.over position other rank found ranked

  cons-IsBest :
      {nodes : List (AnalysisNode V)} {source_bit : SourceBitAddress}
      {start kept result : Option Best} {candidates : List (AnalysisNode V)} (node : AnalysisNode V)
      (mine : Best)
      → IsRank nodes source_bit node mine
      → BeatsIt result mine
      → ((rank : Best) → start ≡ some rank → BeatsIt result rank)
      → ((rank : Best) → kept ≡ some rank → (start ≡ some rank) ⊎ (mine ≡ rank))
      → IsBest nodes source_bit kept candidates result
      → IsBest nodes source_bit start (node ∷ candidates) result
  cons-IsBest {nodes} {source_bit} {start} {kept} {result} {candidates} node mine ranked_mine
        over_mine over_start kept_from best =
      record {
        over = shift;
        over_start = over_start;
        from = λ rank e. elim (best.from rank e) [
          | inl one_kept ↦ elim (kept_from rank one_kept) [
            | inl old ↦ inl old
            | inr is ↦
                inr (zero, (node, (refl, subst (IsRank nodes source_bit node) is ranked_mine)))
          ]
          | inr (position, (other, (found, ranked))) ↦ inr (suc position, (other, (found, ranked)))
        ];
      }
    where
      shift :
          (position : ℕ) (other : AnalysisNode V) (rank : Best)
          → get_elem? (node ∷ candidates) position ≡ some other
          → IsRank nodes source_bit other rank
          → BeatsIt result rank
      shift zero other rank found ranked =
          let is : node ≡ other = cc in
          let same = IsRank-unique source_bit other mine rank (rw is at ranked_mine) ranked in
          subst (BeatsIt result) same over_mine
      shift (suc position) other rank found ranked = best.over position other rank found ranked

  pub take-IsBest :
      {nodes : List (AnalysisNode V)} {source_bit : SourceBitAddress} {start result : Option Best}
      {candidates : List (AnalysisNode V)} (node : AnalysisNode V) (mine : Best)
      → IsRank nodes source_bit node mine
      → IsBest nodes source_bit
          (if is_better mine.id mine.depth mine.coverage start then some mine else start)
          candidates
          result
      → IsBest nodes source_bit start (node ∷ candidates) result
  unfolding is_better
  take-IsBest {start = none} {result} node mine ranked best =
      cons-IsBest node mine ranked (best.over_start mine refl) (λ rank e. absurd (cc))
        (λ rank e. inr (cc)) best
  take-IsBest {nodes} {source_bit} {start = some old} {result} {candidates} node mine ranked best =
      elim (Bool-cases (is_better mine.id mine.depth mine.coverage (some old))) [
        | inl better ↦
            let taken : IsBest nodes source_bit (some mine) candidates result = rw better at best in
            let over_mine = taken.over_start mine refl in
            cons-IsBest node mine ranked over_mine
              (λ rank e.
                subst (BeatsIt result) (cc)
                  (BeatsIt-trans result mine old over_mine (better-Beats mine old better)))
              (λ rank e. inr (cc)) taken
        | inr worse ↦
            let left : IsBest nodes source_bit (some old) candidates result = rw worse at best in
            cons-IsBest node mine ranked
              (BeatsIt-trans result old mine (left.over_start old refl)
                (worse-Beats mine old worse))
              left.over_start (λ rank e. inl e) left
      ]
