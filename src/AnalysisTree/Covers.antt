-- ===== src/AnalysisTree/Covers.antt =====
-- When a node covers a bit of the source, and what its coverage and its depth are.
use stream_view.Common.{
  ℕ, suc, ◌+◌, ◌≤◌, ◌<◌, ◌≡◌, ◌⊎◌, Bool, true, ◌&&◌, ◌||◌, Option, none, some, List, [], ◌∷◌, refl,
  ◌∙◌, min, leb, ltb, u64_max, arith, inl, inr, Bool-cases,
}
use stream_view.Coordinates.{FieldLocation, SourceBitAddress, SourceSpan, end_exclusive}
use stream_view.Coordinates.Spans.{total}
use stream_view.AnalysisTree.Nodes.{AnalysisNode, AnalysisNodeId, materialized, node_for_read}
use stream_view.AnalysisTree.Locate.{add_saturating, cover}

abbrev pub Holds : SourceBitAddress → SourceSpan → Type 0
Holds source_bit span = (span.start ≤ source_bit) × (source_bit < end_exclusive span)

pub data AnyHolds (source_bit : SourceBitAddress) : List SourceSpan → Type 0 where
  here :
      {span : SourceSpan} {spans : List SourceSpan}
      → Holds source_bit span
      → AnyHolds source_bit (span ∷ spans)
  later :
      {span : SourceSpan} {spans : List SourceSpan}
      → AnyHolds source_bit spans
      → AnyHolds source_bit (span ∷ spans)

module _ {V : Type 0} where
  -- The number of nodes above a node, by its parent.
  pub data HasDepth (nodes : List (AnalysisNode V)) : Option AnalysisNodeId → ℕ → Type 0 where
    top : HasDepth nodes none 0
    under :
        {parent_id : AnalysisNodeId} {parent : AnalysisNode V} {depth : ℕ}
        → node_for_read nodes parent_id ≡ some parent
        → HasDepth nodes parent.parent_id depth
        → HasDepth nodes (some parent_id) (suc depth)

  -- A materialized node with a span that holds the bit. Its coverage saturates.
  pub record Covers (source_bit : SourceBitAddress) (node : AnalysisNode V) (covered : ℕ)
      : Type 0 where
    pub location : FieldLocation
    pub located : node.location ≡ some location
    pub state : node.state ≡ materialized
    pub holds : AnyHolds source_bit location.source_spans
    pub coverage : covered ≡ min u64_max (total location.source_spans)

-- The spans of a location are those of 64-bit fields.
abbrev pub Lengths : List SourceSpan → Type 0
Lengths [] = Unit
Lengths (span ∷ spans) = (span.bit_length ≤ u64_max) × Lengths spans

abbrev inside : SourceBitAddress → SourceSpan → Bool
inside source_bit span = leb span.start source_bit && ltb source_bit (end_exclusive span)

holds_test :
    (source_bit : SourceBitAddress) (span : SourceSpan)
    → inside source_bit span ≡ true
    → Holds source_bit span
holds_test source_bit span within = ground arith

add_saturating_lem :
    (coverage bit_length : ℕ)
    → coverage ≤ u64_max
    → bit_length ≤ u64_max
    → (add_saturating coverage bit_length ≤ u64_max)
      × (add_saturating coverage bit_length ≡ min u64_max (coverage + bit_length))
unfolding add_saturating
add_saturating_lem coverage bit_length few short = (ground arith, ground arith)

pub cover-coverage :
    (source_bit : SourceBitAddress) (contains : Bool) (coverage : ℕ) (spans : List SourceSpan)
    → coverage ≤ u64_max
    → Lengths spans
    → (cover source_bit contains coverage spans).1 ≡ min u64_max (coverage + total spans)
unfolding cover
cover-coverage source_bit contains coverage [] few lengths = omega arith
cover-coverage source_bit contains coverage (span ∷ spans) few (short, lengths) =
    let (capped, sum) = add_saturating_lem coverage span.bit_length few short in
    cover-coverage source_bit (inside source_bit span || contains)
      (add_saturating coverage span.bit_length) spans capped lengths
    ∙ omega arith

pub cover-contains :
    (source_bit : SourceBitAddress) (contains : Bool) (coverage : ℕ) (spans : List SourceSpan)
    → (cover source_bit contains coverage spans).0 ≡ true
    → (contains ≡ true) ⊎ AnyHolds source_bit spans
unfolding cover
cover-contains source_bit contains coverage [] e = inl e
cover-contains source_bit contains coverage (span ∷ spans) e =
    elim (cover-contains source_bit (inside source_bit span || contains) _ spans e) [
      | inl now ↦ elim (Bool-cases (inside source_bit span)) [
        | inl within ↦ inr (here (holds_test source_bit span within))
        | inr without ↦ inl (rw without at now)
      ]
      | inr rest ↦ inr (later rest)
    ]

cover-true :
    (source_bit : SourceBitAddress) (coverage : ℕ) (spans : List SourceSpan)
    → (cover source_bit true coverage spans).0 ≡ true
unfolding cover
cover-true source_bit coverage [] = refl
cover-true source_bit coverage (span ∷ spans) =
    let rest = cover-true source_bit (add_saturating coverage span.bit_length) spans in
    elim (Bool-cases (inside source_bit span)) [
      | inl within ↦ rw (cover, within) rest
      | inr without ↦ rw (cover, without) rest
    ]

pub cover-holds :
    (source_bit : SourceBitAddress) (contains : Bool) (coverage : ℕ) (spans : List SourceSpan)
    → AnyHolds source_bit spans
    → (cover source_bit contains coverage spans).0 ≡ true
unfolding cover
cover-holds source_bit contains coverage [] holds = elim holds [ ]
cover-holds source_bit contains coverage (span ∷ spans) (here holds) =
    let within : inside source_bit span ≡ true = ground (arith, holds.0, holds.1) in
    rw (cover, within) (cover-true source_bit (add_saturating coverage span.bit_length) spans)
cover-holds source_bit contains coverage (span ∷ spans) (later holds) =
    cover-holds source_bit (inside source_bit span || contains) _ spans holds
