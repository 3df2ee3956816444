-- ===== src/AnalysisTree/MostSpecific.antt =====
-- `mostSpecificMaterializedNodeAt` against a description of the answer: of the materialized nodes
-- that cover the bit, the deepest, then the one that covers least, then the oldest.
use stream_view.Common.{
  ℕ, suc, ◌≡◌, inl, inr, Option, none, some, List, [], ◌∷◌, refl, Option-cases, get_elem?, All,
  if◌then◌else◌,
}
use stream_view.Coordinates.{SourceBitAddress}
use stream_view.AnalysisTree.Nodes.{AnalysisNode, AnalysisNodeId, AnalysisTree}
use stream_view.AnalysisTree.Locate.{
  Best, best_of, coverage_at, is_better, most_specific_materialized_node_at,
}
use stream_view.AnalysisTree.Family.{IsTree}
use stream_view.AnalysisTree.Depths.{Sized, coverage_at-none, coverage_at-some, depth_of}
use stream_view.AnalysisTree.Ranks.{Beats-refl, IsBest, skip-IsBest, take-IsBest}

abbrev pub id_of : Option Best → Option AnalysisNodeId
id_of none = none
id_of (some rank) = some rank.id

module _ {V : Type 0} where
  best_of-IsBest :
      (nodes : List (AnalysisNode V)) (source_bit : SourceBitAddress)
      → IsTree nodes
      → (candidates : List (AnalysisNode V)) (start : Option Best)
      → All (λ node. Sized node.location) candidates
      → ((position : ℕ) (node : AnalysisNode V)
          → get_elem? candidates position ≡ some node
          → (place : ℕ) × (get_elem? nodes place ≡ some node))
      → (result : Option Best) × ((best_of nodes source_bit start candidates ≡ some result)
          × IsBest nodes source_bit start candidates result)
  unfolding best_of
  best_of-IsBest nodes source_bit tree [] start sized within = (
    start,
    (
      refl,
      record {
        over = λ position node rank found ranked. absurd (cc);
        over_start = λ rank e. rw e (Beats-refl rank);
        from = λ rank e. inl e;
      },
    ),
  )
  best_of-IsBest nodes source_bit tree (node ∷ candidates) start (small, sized) within =
      let rest : (kept : Option Best)
          → (result : Option Best) × ((best_of nodes source_bit kept candidates ≡ some result)
              × IsBest nodes source_bit kept candidates result) =
        λ kept.
          best_of-IsBest nodes source_bit tree candidates kept sized
            (λ position other found. within (suc position) other found) in
      let (place, there) = within 0 node refl in
      let (depth, (counted, deep)) = depth_of nodes place node tree there in
      elim (Option-cases (coverage_at source_bit node)) [
        | inl uncovered ↦
            let (result, (runs, best)) = rest start in
            (
              result,
              (
                rw (best_of, uncovered) runs,
                skip-IsBest node
                    (λ rank ranked.
                      coverage_at-none source_bit node rank.coverage uncovered ranked.covers)
                    best,
              ),
            )
        | inr (covered, is) ↦
            let mine : Best = record { id = node.id; depth = depth; coverage = covered } in
            let kept =
              if is_better mine.id mine.depth mine.coverage start then some mine else start in
            let (result, (runs, best)) = rest kept in
            (
              result,
              (
                rw (best_of, is, counted) runs,
                take-IsBest node mine
                    (record {
                      numbered = refl;
                      covers = coverage_at-some source_bit node covered small is;
                      deep = deep;
                    })
                    best,
              ),
            )
      ]

  -- in a well-formed tree whose spans have 64-bit lengths the search ends, its answer is the
  -- identifier of a node that covers the bit, or none, and a place no worse than that of every
  -- node that covers it, in the order by depth, coverage and identifier
  pub most_specific-IsBest :
      (tree : AnalysisTree V) (source_bit : SourceBitAddress)
      → IsTree tree.nodes
      → All (λ node. Sized node.location) tree.nodes
      → (result : Option Best) × ((most_specific_materialized_node_at tree source_bit
            ≡ some (id_of result))
          × IsBest tree.nodes source_bit none tree.nodes result)
  unfolding most_specific_materialized_node_at
  most_specific-IsBest tree source_bit shaped sized =
      let (result, (runs, best)) =
        best_of-IsBest tree.nodes source_bit shaped tree.nodes none sized
          (λ position node found. (position, found)) in
      (result, (rw (most_specific_materialized_node_at, runs) (answer result), best))
    where
      answer :
          (result : Option Best)
          → (elim (some result) as (λ x. Option (Option AnalysisNodeId)) [
            | none ↦ none
            | some none ↦ some none
            | some (some best) ↦ some (some best.id)
          ])
            ≡ some (id_of result)
      answer none = refl
      answer (some rank) = refl
