-- ===== src/AnalysisTree/Depths.antt =====
-- The depth and the coverage that the search for the most specific node computes are those of the
-- tree, and the fuel, the number of nodes, reaches the root.
use stream_view.Common.{
  ℕ, zero, suc, ◌+◌, ◌-◌, ◌≤◌, ◌<◌, ◌≡◌, inl, inr, false, not, Option, none, some, List, refl, sym,
  ap, ◌∙◌, min, length, ◌==◌, u64_max, arith, Bool-cases, Option-cases, get_elem?, get_elem?-inside,
  get_elem?-lt, if◌then◌else◌,
}
use stream_view.Coordinates.{FieldLocation, SourceBitAddress}
use stream_view.Coordinates.Spans.{total}
use stream_view.AnalysisTree.Nodes.{AnalysisNode, AnalysisNodeId, state_index}
use stream_view.AnalysisTree.Locate.{cover, coverage_at, depth_from}
use stream_view.AnalysisTree.Family.{HasParent, IsTree}
use stream_view.AnalysisTree.Reads.{node_for_read-of}
use stream_view.AnalysisTree.Covers.{
  Covers, HasDepth, Lengths, cover-contains, cover-coverage, cover-holds, top, under,
}

-- Spans whose lengths are those of 64-bit fields.
abbrev pub Sized : Option FieldLocation → Type 0
Sized none = Unit
Sized (some location) = Lengths location.source_spans

module _ {V : Type 0} where
  depth_from_lem :
      (nodes : List (AnalysisNode V))
      → IsTree nodes
      → (fuel position depth : ℕ) (parent_id : Option AnalysisNodeId) → HasParent position parent_id
      → position ≤ fuel
      → position < length nodes
      → (above : ℕ) × ((depth_from nodes fuel depth parent_id ≡ some (depth + above))
          × HasDepth nodes parent_id above)
  unfolding depth_from
  depth_from_lem nodes tree fuel position depth none below enough inside =
      (0, (ap some (omega arith), top))
  depth_from_lem nodes tree zero position depth (some parent_id) below enough inside =
      absurd (omega (arith, below.0, below.1))
  depth_from_lem nodes tree (suc fuel) position depth (some parent_id) (positive, before) enough
        inside =
      let (parent, there) = get_elem?-inside nodes (parent_id - 1) (omega arith) in
      let read = node_for_read-of nodes parent_id positive there in
      let (above, (counted, deep)) =
        depth_from_lem nodes tree fuel (parent_id - 1) (depth + 1) parent.parent_id
          (tree.placed (parent_id - 1) parent there).below (omega arith) (omega arith) in
      (suc above, (rw (depth_from, read) (counted ∙ ap some (omega arith)), under read deep))

  -- The fuel of the search is enough for every node of the tree.
  pub depth_of :
      (nodes : List (AnalysisNode V)) (place : ℕ) (node : AnalysisNode V)
      → IsTree nodes
      → get_elem? nodes place ≡ some node
      → (above : ℕ) × ((depth_from nodes (length nodes) 0 node.parent_id ≡ some above)
          × HasDepth nodes node.parent_id above)
  depth_of nodes place node tree there =
      let inside = get_elem?-lt nodes place there in
      let (above, (counted, deep)) =
        depth_from_lem nodes tree (length nodes) place 0 node.parent_id
          (tree.placed place node there).below (omega arith) inside in
      (above, (counted ∙ ap some (omega arith), deep))

  pub HasDepth-unique :
      (nodes : List (AnalysisNode V)) (parent_id : Option AnalysisNodeId) (one other : ℕ)
      → HasDepth nodes parent_id one
      → HasDepth nodes parent_id other
      → one ≡ other
  HasDepth-unique nodes none _ _ top top = refl
  HasDepth-unique nodes (some parent_id) _ _ (under {parent = first} e deep)
        (under {parent = second} f deep') =
      let same : second ≡ first = cc in
      ap suc (HasDepth-unique nodes first.parent_id _ _ deep (rw (← same) deep'))

  coverage_at-located :
      (source_bit : SourceBitAddress) (node : AnalysisNode V) (location : FieldLocation)
      → node.location ≡ some location
      → coverage_at source_bit node ≡ (
          if not (state_index node.state == 6)
          then none
          else if not (cover source_bit false 0 location.source_spans).0
          then none
          else some (cover source_bit false 0 location.source_spans).1)
  unfolding coverage_at
  coverage_at-located source_bit node location located = rw (coverage_at, located) refl

  pub coverage_at-none :
      (source_bit : SourceBitAddress) (node : AnalysisNode V) (covered : ℕ)
      → coverage_at source_bit node ≡ none
      → Covers source_bit node covered
      → ⊥
  coverage_at-none source_bit node covered e covers =
      let held = cover-holds source_bit false 0 covers.location.source_spans covers.holds in
      let found : coverage_at source_bit node
          ≡ some (cover source_bit false 0 covers.location.source_spans).1 =
        coverage_at-located source_bit node covers.location covers.located
        ∙ rw (covers.state, held) refl in
      cc

  pub coverage_at-some :
      (source_bit : SourceBitAddress) (node : AnalysisNode V) (covered : ℕ)
      → Sized node.location
      → coverage_at source_bit node ≡ some covered
      → Covers source_bit node covered
  unfolding coverage_at
  coverage_at-some source_bit node covered sized e = elim (Option-cases (node.location)) [
    | inl nowhere ↦ absurd (let clash : none ≡ some covered = rw (coverage_at, nowhere) at e in cc)
    | inr (location, located) ↦
        let known = sym (coverage_at-located source_bit node location located) ∙ e in
        let spans = location.source_spans in
        elim (Bool-cases (state_index node.state == 6)) [
          | inr other ↦ absurd (let clash : none ≡ some covered = rw other at known in cc)
          | inl state ↦ elim (Bool-cases (cover source_bit false 0 spans).0) [
            | inr without ↦
                absurd (let clash : none ≡ some covered = rw (state, without) at known in cc)
            | inl within ↦
                let is : some (cover source_bit false 0 spans).1 ≡ some covered =
                  rw (state, within) at known in
                let lengths : Lengths spans = rw located at sized in
                let summed : (cover source_bit false 0 spans).1 ≡ min u64_max (total spans) =
                  cover-coverage source_bit false 0 spans (omega arith) lengths ∙ omega arith in
                record {
                  location = location;
                  located = located;
                  state = ground arith;
                  holds = elim (cover-contains source_bit false 0 spans within) [
                    | inl clash ↦ absurd (cc)
                    | inr holds ↦ holds
                  ];
                  coverage = cc;
                }
          ]
        ]
  ]

  pub Covers-unique :
      (source_bit : SourceBitAddress) (node : AnalysisNode V) (one other : ℕ)
      → Covers source_bit node one
      → Covers source_bit node other
      → one ≡ other
  Covers-unique source_bit node one other covers covers' =
      let same : covers.location ≡ covers'.location =
        (let at = covers.located in let at' = covers'.located in cc) in
      covers.coverage ∙ (rw same (sym covers'.coverage))
