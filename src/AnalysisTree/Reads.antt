-- ===== src/AnalysisTree/Reads.antt =====
-- `nodeForRead` reads a position: the identifier less one.
use stream_view.Common.{
  ◌-◌, ◌<◌, ◌≡◌, false, ◌||◌, ◌∙◌, none, some, List, [], ◌∷◌, ◌++◌, length, get_elem?, get_elem?-lt,
  get_elem?-append_lt, inl, inr, Bool-cases, ltb, ◌==◌, arith,
}
use stream_view.AnalysisTree.Nodes.{AnalysisNode, AnalysisNodeId, node_for_read}

module _ {V : Type 0} (nodes : List (AnalysisNode V)) (id : AnalysisNodeId)
    {node : AnalysisNode V} where
  pub node_for_read-inside :
      node_for_read nodes id ≡ some node → (0 < id) × (get_elem? nodes (id - 1) ≡ some node)
  unfolding node_for_read
  node_for_read-inside e = elim (Bool-cases (id == 0 || ltb (length nodes) id)) [
    | inl out ↦ absurd (let clash : none ≡ some node = rw out at e in cc)
    | inr inside ↦ (ground arith, rw inside at e)
  ]

  pub node_for_read-of :
      0 < id → get_elem? nodes (id - 1) ≡ some node → node_for_read nodes id ≡ some node
  unfolding node_for_read
  node_for_read-of positive e =
      let inside : (id == 0 || ltb (length nodes) id) ≡ false =
        (let below = get_elem?-lt nodes (id - 1) e in ground arith) in
      rw (node_for_read, inside) e

module _ {V : Type 0} (nodes : List (AnalysisNode V)) (id : AnalysisNodeId)
    {node : AnalysisNode V} where
  pub node_for_read-grown :
      (child : AnalysisNode V)
      → node_for_read nodes id ≡ some node
      → node_for_read (nodes ++ (child ∷ [])) id ≡ some node
  node_for_read-grown child e =
      let (positive, there) = node_for_read-inside nodes id e in
      let kept =
        get_elem?-append_lt nodes (child ∷ []) (id - 1) (get_elem?-lt nodes (id - 1) there) in
      node_for_read-of (nodes ++ (child ∷ [])) id positive (kept ∙ there)
