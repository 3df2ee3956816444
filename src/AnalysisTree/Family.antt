-- ===== src/AnalysisTree/Family.antt =====
-- The shape of an analysis tree: identifiers are positions, parents stand before their children,
-- and the list of children of a node is the list of the nodes that name it as their parent.
use stream_view.Common.{
  ℕ, suc, ◌-◌, ◌≤◌, ◌<◌, ◌≡◌, Bool, true, false, Option, none, some, List, [], ◌∷◌, ◌++◌, length,
  get_elem?, set, refl, sym, ap, ◌∙◌, inl, inr, Bool-cases, ◌==◌, if◌then◌else◌, u64_max, arith,
  append-nil, length-append, length-set, get_elem?-lt, get_elem?-append_lt, get_elem?-set_cases,
  get_elem?-append_cases, zero,
}
use stream_view.AnalysisTree.Nodes.{AnalysisNode, AnalysisNodeId}
use stream_view.AnalysisTree.Operations.{with_child}
use stream_view.AnalysisTree.Changes.{Change, Changes, Keeps, touch, grow, done, more}
use stream_view.AnalysisTree.Reads.{node_for_read-inside}

abbrev pub is_parent : AnalysisNodeId → Option AnalysisNodeId → Bool
is_parent id none = false
is_parent id (some parent_id) = parent_id == id

abbrev pub HasParent : ℕ → Option AnalysisNodeId → Type 0
HasParent position none = position ≡ 0
HasParent position (some parent_id) = (0 < parent_id) × (parent_id ≤ position)

-- A parent that stands before a position is none of the identifiers behind it.
not_parent :
    (id : AnalysisNodeId) (position : ℕ) (parent : Option AnalysisNodeId)
    → HasParent position parent
    → position < id
    → is_parent id parent ≡ false
not_parent id position none below behind = refl
not_parent id position (some parent_id) below behind = ground (arith, below.1)

module _ {V : Type 0} where
  abbrev pub children_of : AnalysisNodeId → List (AnalysisNode V) → List AnalysisNodeId
  children_of id [] = []
  children_of id (node ∷ nodes) =
      if is_parent id node.parent_id then node.id ∷ children_of id nodes else children_of id nodes

  pub record IsPlaced (nodes : List (AnalysisNode V)) (position : ℕ) (node : AnalysisNode V)
      : Type 0 where
    pub at : node.id ≡ suc position
    pub below : HasParent position node.parent_id
    pub listed : node.children ≡ children_of node.id nodes

  pub record IsTree (nodes : List (AnalysisNode V)) : Type 0 where
    pub rooted : 0 < length nodes
    pub bounded : length nodes ≤ u64_max
    pub placed :
        (position : ℕ) (node : AnalysisNode V)
        → get_elem? nodes position ≡ some node
        → IsPlaced nodes position node

  children_of-append :
      (id : AnalysisNodeId) (nodes : List (AnalysisNode V)) (child : AnalysisNode V)
      → children_of id (nodes ++ (child ∷ [])) ≡ children_of id nodes ++ children_of id (child ∷ [])
  children_of-append id [] child = refl
  children_of-append id (node ∷ nodes) child =
      let rest = children_of-append id nodes child in
      elim (Bool-cases (is_parent id node.parent_id)) [
        | inl own ↦ rw own (ap (λ xs. node.id ∷ xs) rest)
        | inr other ↦ rw other rest
      ]

  children_of-set :
      (id : AnalysisNodeId) (nodes : List (AnalysisNode V)) (i : ℕ) (node changed : AnalysisNode V)
      → get_elem? nodes i ≡ some node
      → changed.id ≡ node.id
      → changed.parent_id ≡ node.parent_id
      → children_of id (set nodes i changed) ≡ children_of id nodes
  children_of-set id [] i node changed e same_id same_parent = refl
  children_of-set id (first ∷ nodes) zero node changed e same_id same_parent =
      let there : first ≡ node = cc in rw (same_id, same_parent, there) refl
  children_of-set id (first ∷ nodes) (suc i) node changed e same_id same_parent =
      let rest = children_of-set id nodes i node changed e same_id same_parent in
      elim (Bool-cases (is_parent id first.parent_id)) [
        | inl own ↦ rw own (ap (λ xs. first.id ∷ xs) rest)
        | inr other ↦ rw other rest
      ]

  childless :
      (id : AnalysisNodeId) (nodes : List (AnalysisNode V))
      → ((position : ℕ) (node : AnalysisNode V)
          → get_elem? nodes position ≡ some node
          → is_parent id node.parent_id ≡ false)
      → children_of id nodes ≡ []
  childless id [] none_of = refl
  childless id (node ∷ nodes) none_of =
      rw (none_of 0 node refl)
        (childless id nodes (λ position other e. none_of (suc position) other e))

  own_child :
      (id : AnalysisNodeId) (child : AnalysisNode V)
      → is_parent id child.parent_id ≡ true
      → children_of id (child ∷ []) ≡ child.id ∷ []
  own_child id child own = rw own refl

  other_child :
      (id : AnalysisNodeId) (child : AnalysisNode V)
      → is_parent id child.parent_id ≡ false
      → children_of id (child ∷ []) ≡ []
  other_child id child other = rw other refl

  pub touch-IsTree :
      {nodes : List (AnalysisNode V)} (i : ℕ) (node changed : AnalysisNode V)
      → IsTree nodes
      → get_elem? nodes i ≡ some node
      → Keeps node changed
      → IsTree (set nodes i changed)
  touch-IsTree {nodes} i node changed tree e keeps =
      let family : (id : AnalysisNodeId)
          → children_of id (set nodes i changed) ≡ children_of id nodes =
        λ id. children_of-set id nodes i node changed e keeps.id keeps.parent_id in
      let same = length-set nodes i changed in
      record {
        rooted = (let some_node = tree.rooted in omega arith);
        bounded = (let few = tree.bounded in omega arith);
        placed = λ position other found. elim (get_elem?-set_cases nodes i position changed found) [
          | inl (there, is) ↦
              let old = tree.placed i node e in
              rw is (record {
                at = keeps.id ∙ (old.at ∙ ap suc there);
                below = rw (keeps.parent_id, ← there) old.below;
                listed =
                    keeps.children
                    ∙ (old.listed
                        ∙ (sym (family node.id)
                            ∙ ap (λ id. children_of id (set nodes i changed)) (sym keeps.id)));
              })
          | inr (away, before) ↦
              let old = tree.placed position other before in
              record { at = old.at; below = old.below; listed = old.listed ∙ sym (family other.id) }
        ];
      }

  pub grow-IsTree :
      {nodes : List (AnalysisNode V)} (i : ℕ) (parent child : AnalysisNode V)
      → IsTree nodes
      → get_elem? nodes i ≡ some parent
      → child.id ≡ suc (length nodes)
      → child.parent_id ≡ some (suc i)
      → child.children ≡ []
      → length nodes < u64_max
      → IsTree (set (nodes ++ (child ∷ [])) i (with_child child.id parent))
  grow-IsTree {nodes} i parent child tree e numbered below_parent childless_yet room =
      let grown = nodes ++ (child ∷ []) in
      let linked = with_child child.id parent in
      let within = get_elem?-lt nodes i e in
      let there = get_elem?-append_lt nodes (child ∷ []) i within ∙ e in
      let family : (id : AnalysisNodeId)
          → children_of id (set grown i linked)
            ≡ children_of id nodes ++ children_of id (child ∷ []) =
        λ id.
          children_of-set id grown i parent linked there refl refl
          ∙ children_of-append id nodes child in
      let same = length-set grown i linked in
      let longer = length-append nodes (child ∷ []) in
      record {
        rooted = (let some_node = tree.rooted in omega arith);
        bounded = omega arith;
        placed = λ position other found. elim (get_elem?-set_cases grown i position linked found) [
          | inl (at_parent, is) ↦
              let old = tree.placed i parent e in
              rw is (record {
                at = old.at ∙ ap suc at_parent;
                below = rw (← at_parent) old.below;
                listed =
                    ap (λ xs. xs ++ (child.id ∷ [])) old.listed
                    ∙ sym (
                        family parent.id
                        ∙ ap (λ xs. children_of parent.id nodes ++ xs)
                            (own_child parent.id child (rw (below_parent, old.at) (ground arith))));
              })
          | inr (away, before) ↦ elim (get_elem?-append_cases nodes child position before) [
            | inl (end, is) ↦
                let none_before = childless child.id nodes (λ place node at_place.
                  not_parent child.id place node.parent_id (tree.placed place node at_place).below
                    (let few = get_elem?-lt nodes place at_place in rw numbered (omega arith))) in
                let not_own =
                  other_child child.id child (rw (below_parent, numbered) (ground arith)) in
                rw is (record {
                  at = numbered ∙ ap suc (sym end);
                  below = rw (below_parent, end) (omega arith, within);
                  listed = childless_yet ∙ sym (family child.id ∙ rw (none_before, not_own) refl);
                })
            | inr earlier ↦
                let old = tree.placed position other earlier in
                let not_own =
                  other_child other.id child (rw (below_parent, old.at) (ground arith)) in
                record {
                  at = old.at;
                  below = old.below;
                  listed =
                      old.listed
                      ∙ sym (
                          family other.id ∙ (rw not_own (append-nil (children_of other.id nodes))));
                }
          ]
        ];
      }

  pub Changes-IsTree :
      {target : AnalysisNodeId} {before after : List (AnalysisNode V)}
      → Changes target before after
      → IsTree before
      → IsTree after
  Changes-IsTree done tree = tree
  Changes-IsTree (more change rest) tree = Changes-IsTree rest (Change-IsTree change tree)
    where
      Change-IsTree :
          {target : AnalysisNodeId} {nodes after : List (AnalysisNode V)}
          → Change target nodes after
          → IsTree nodes
          → IsTree after
      Change-IsTree {target} {nodes} (touch node changed e keeps) tree =
          touch-IsTree (target - 1) node changed tree (node_for_read-inside nodes target e).1 keeps
      Change-IsTree {target} {nodes} (grow parent child e numbered below none_yet room) tree =
          let (positive, there) = node_for_read-inside nodes target e in
          grow-IsTree (target - 1) parent child tree there numbered (below ∙ ap some (omega arith))
            none_yet room
