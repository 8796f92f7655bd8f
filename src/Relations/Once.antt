-- ===== src/Relations/Once.antt =====
-- RelationsPlotView.tsx: no node and no edge is added twice.
use mwdb_core.Common.{
  Bool, true, false, not, Option, none, some, List, [], ◌∷◌, ◌++◌, ◌&&◌, ◌||◌, ◌≡◌, refl, sym, ap,
  ◌∙◌, Bool-cases, Option-cases, inl, inr, arith, subst,
}
use mwdb_core.Common.Text.{Text, text_eq, text_eq_sound, text_eq_refl}
use mwdb_core.Relations.Graph.{
  RelatedObject, NodeProp, Edge, convert_object, get_node, no_edge, edge_eq, has_edge, replace_node,
  put_node, put_edge,
}
use mwdb_core.Relations.Expanded.{get_node-append_other}

abbrev pub NodesOnce : List NodeProp → Type 0
NodesOnce [] = Unit
NodesOnce (n ∷ nodes) = (get_node n.object.id nodes ≡ none) × NodesOnce nodes

abbrev pub EdgesOnce : List Edge → Type 0
EdgesOnce [] = Unit
EdgesOnce (e ∷ edges) = (has_edge e edges ≡ false) × EdgesOnce edges

differs : (a b : Text) → text_eq a b ≡ false → text_eq b a ≡ false
differs a b h = elim (Bool-cases (text_eq b a)) [
  | inl e ↦
      absurd (cc (text_eq_refl b, subst (λ t. text_eq t b ≡ false) (sym (text_eq_sound b a e)) h))
  | inr e ↦ e
]

-- What `find` leaves of a list that it has found nothing in.
get_node-none :
    (hash : Text) (m : NodeProp) (nodes : List NodeProp)
    → get_node hash (m ∷ nodes) ≡ none
    → (text_eq m.object.id hash ≡ false) × (get_node hash nodes ≡ none)
unfolding get_node
get_node-none hash m nodes h = elim (Bool-cases (text_eq m.object.id hash)) [
  | inl e ↦ let k : some m ≡ none = rw e at h in absurd (cc k)
  | inr e ↦ (e, rw e at h)
]

append-NodesOnce :
    (n : NodeProp) (nodes : List NodeProp)
    → NodesOnce nodes
    → get_node n.object.id nodes ≡ none
    → NodesOnce (nodes ++ n ∷ [])
unfolding get_node
append-NodesOnce n [] h k = (refl, tt)
append-NodesOnce n (m ∷ nodes) (g, h) k =
    let (d, later) = get_node-none n.object.id m nodes k in
    (
      get_node-append_other m.object.id n nodes (differs m.object.id n.object.id d) ∙ g,
      append-NodesOnce n nodes h later,
    )

get_node-replace_none :
    (hash : Text) (o : RelatedObject) (expanded : Bool) (nodes : List NodeProp)
    → get_node hash nodes ≡ none
    → get_node hash (replace_node o expanded nodes) ≡ none
unfolding get_node replace_node
get_node-replace_none hash o expanded [] h = refl
get_node-replace_none hash o expanded (m ∷ nodes) h =
    let (d, later) = get_node-none hash m nodes h in
    let rest = get_node-replace_none hash o expanded nodes later in
    elim (Bool-cases (text_eq m.object.id o.id)) [
      | inl e ↦
          rw (e, subst (λ t. text_eq t hash ≡ false) (text_eq_sound m.object.id o.id e) d) rest
      | inr e ↦ rw (e, d) rest
    ]

replace-NodesOnce :
    (o : RelatedObject) (expanded : Bool) (nodes : List NodeProp)
    → NodesOnce nodes
    → NodesOnce (replace_node o expanded nodes)
unfolding replace_node
replace-NodesOnce o expanded [] h = tt
replace-NodesOnce o expanded (m ∷ nodes) (g, h) =
    let rest = replace-NodesOnce o expanded nodes h in
    elim (Bool-cases (text_eq m.object.id o.id)) [
      | inl e ↦ rw e (
        get_node-replace_none o.id o expanded nodes
            (subst (λ t. get_node t nodes ≡ none) (text_eq_sound m.object.id o.id e) g),
        rest,
      )
      | inr e ↦ rw e (get_node-replace_none m.object.id o expanded nodes g, rest)
    ]

text_eq_comm : (a b : Text) → text_eq a b ≡ text_eq b a
text_eq_comm a b = elim (Bool-cases (text_eq a b)) [
  | inl e ↦ e ∙ sym (subst (λ t. text_eq t a ≡ true) (text_eq_sound a b e) (text_eq_refl a))
  | inr e ↦ e ∙ sym (differs a b e)
]

edge_eq_comm : (e f : Edge) → edge_eq e f ≡ edge_eq f e
edge_eq_comm e f =
    ap (λ b. b && text_eq e.child f.child) (text_eq_comm e.parent f.parent)
    ∙ ap (λ b. text_eq f.parent e.parent && b) (text_eq_comm e.child f.child)

has_edge-append :
    (e f : Edge) (edges : List Edge)
    → has_edge e edges ≡ false
    → edge_eq f e ≡ false
    → has_edge e (edges ++ f ∷ []) ≡ false
unfolding has_edge
has_edge-append e f [] h k = rw k refl
has_edge-append e f (g ∷ edges) h k = ground (arith, has_edge-append e f edges)

neither : (a b : Bool) → (a || b) ≡ false → (a ≡ false) × (b ≡ false)
neither true b h = absurd (cc h)
neither false b h = (refl, h)

append-EdgesOnce :
    (e : Edge) (edges : List Edge)
    → EdgesOnce edges
    → has_edge e edges ≡ false
    → EdgesOnce (edges ++ e ∷ [])
unfolding has_edge
append-EdgesOnce e [] h k = (refl, tt)
append-EdgesOnce e (f ∷ edges) (g, h) k =
    let split : (edge_eq f e ≡ false) × (has_edge e edges ≡ false) =
      neither (edge_eq f e) (has_edge e edges) k in
    (has_edge-append f e edges g (edge_eq_comm e f ∙ split.0), append-EdgesOnce e edges h split.1)

pub put_edge-EdgesOnce :
    (e : Option Edge) (edges : List Edge) → EdgesOnce edges → EdgesOnce (put_edge e edges)
put_edge-EdgesOnce none edges h = h
put_edge-EdgesOnce (some e) edges h = elim (Bool-cases (has_edge e edges)) [
  | inl k ↦ rw k h
  | inr k ↦ rw k (append-EdgesOnce e edges h k)
]

pub put_node-NodesOnce :
    (o : RelatedObject) (e : Option Edge) (nodes : List NodeProp)
    → NodesOnce nodes
    → NodesOnce (put_node o e nodes (get_node o.id nodes))
put_node-NodesOnce o e nodes h = elim (Option-cases (get_node o.id nodes)) [
  | inl k ↦ rw k (append-NodesOnce (convert_object o (no_edge e)) nodes h k)
  | inr (n, k) ↦ rw k (replace-NodesOnce o ((not n.expanded && no_edge e) || n.expanded) nodes h)
]
