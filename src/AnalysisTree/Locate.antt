-- ===== src/AnalysisTree/Locate.antt =====
-- The materialized node that covers a bit of the source most specifically.
use stream_view.Common.{
  ℕ, zero, suc, ◌+◌, ◌-◌, Bool, true, false, not, ◌&&◌, ◌||◌, Option, none, some, List, [], ◌∷◌,
  length, ltb, leb, ◌==◌, if◌then◌else◌, add64, u64_max,
}
use stream_view.Coordinates.{SourceBitAddress, SourceSpan, end_exclusive}
use stream_view.AnalysisTree.Nodes.{
  AnalysisNode, AnalysisNodeId, AnalysisTree, node_for_read, state_index,
}

-- A sum that stops at the largest `quint64`.
unfoldable pub add_saturating : ℕ → ℕ → ℕ
add_saturating coverage bit_length =
    if ltb (u64_max - bit_length) coverage then u64_max else add64 coverage bit_length

-- The loop over the spans of a location: whether one holds the bit, and their saturating total.
unfoldable pub cover : SourceBitAddress → Bool → ℕ → List SourceSpan → Bool × ℕ
unfolding add_saturating
cover source_bit contains coverage [] = (contains, coverage)
cover source_bit contains coverage (span ∷ spans) =
    let inside = leb span.start source_bit && ltb source_bit (end_exclusive span) in
    cover source_bit (inside || contains) (add_saturating coverage span.bit_length) spans

-- `bestId` with `bestDepth` and `bestCoverage`.
pub record Best : Type 0 where
  pub id : AnalysisNodeId
  pub depth : ℕ
  pub coverage : ℕ

unfoldable pub is_better : AnalysisNodeId → ℕ → ℕ → Option Best → Bool
is_better id depth coverage none = true
is_better id depth coverage (some best) =
    ltb best.depth depth
    || (depth == best.depth && ltb coverage best.coverage)
    || (depth == best.depth && coverage == best.coverage && ltb id best.id)

module _ {V : Type 0} where
  -- `while (parentId)`, counting the steps; none when the fuel does not reach the root.
  unfoldable pub depth_from : List (AnalysisNode V) → ℕ → ℕ → Option AnalysisNodeId → Option ℕ
  unfolding node_for_read
  depth_from nodes fuel depth none = some depth
  depth_from nodes zero depth (some parent_id) = none
  depth_from nodes (suc fuel) depth (some parent_id) = elim (node_for_read nodes parent_id) [
    | none ↦ depth_from nodes fuel (depth + 1) none
    | some parent ↦ depth_from nodes fuel (depth + 1) parent.parent_id
  ]

  -- What a candidate covers of the source, when it is materialized, located and holds the bit.
  unfoldable pub coverage_at : SourceBitAddress → AnalysisNode V → Option ℕ
  unfolding cover
  coverage_at source_bit candidate = elim (candidate.location) [
    | none ↦ none
    | some location ↦
        let (contains, coverage) = cover source_bit false 0 location.source_spans in
        if not (state_index candidate.state == 6)
        then none
        else if not contains
        then none
        else some coverage
  ]

  -- The loop over the nodes; none outside when a depth ran out of fuel.
  unfoldable pub best_of :
      List (AnalysisNode V)
      → SourceBitAddress
      → Option Best
      → List (AnalysisNode V)
      → Option (Option Best)
  unfolding depth_from is_better coverage_at
  best_of nodes source_bit best [] = some best
  best_of nodes source_bit best (candidate ∷ candidates) = elim (coverage_at source_bit candidate) [
    | none ↦ best_of nodes source_bit best candidates
    | some coverage ↦ elim (depth_from nodes (length nodes) 0 candidate.parent_id) [
      | none ↦ none
      | some depth ↦
          let better : Best = record { id = candidate.id; depth = depth; coverage = coverage } in
          let kept = if is_better candidate.id depth coverage best then some better else best in
          best_of nodes source_bit kept candidates
    ]
  ]

  -- none outside when the fuel, the number of nodes, does not reach the root.
  unfoldable pub most_specific_materialized_node_at :
      AnalysisTree V → SourceBitAddress → Option (Option AnalysisNodeId)
  unfolding best_of
  most_specific_materialized_node_at tree source_bit =
      elim (best_of tree.nodes source_bit none tree.nodes) [
        | none ↦ none
        | some none ↦ some none
        | some (some best) ↦ some (some best.id)
      ]
