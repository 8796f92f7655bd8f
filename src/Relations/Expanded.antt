-- ===== src/Relations/Expanded.antt =====
-- RelationsPlotView.tsx: which nodes the plot holds as expanded.
use mwdb_core.Common.{
  Bool, true, false, not, Option, none, some, List, [], ◌∷◌, ◌++◌, any, if◌then◌else◌, ◌&&◌, ◌||◌,
  ◌≡◌, refl, sym, ap, ◌∙◌, Bool-cases, Option-cases, inl, inr, arith, subst,
}
use mwdb_core.Common.Text.{Text, text_eq, text_eq_sound, text_eq_refl}
use mwdb_core.Relations.Graph.{
  RelatedObject, NodeProp, Edge, Nodes, ObjectInfo, convert_object, get_node, was_expanded,
  is_node_expanded, no_edge, replace_node, add_nodes, update_parents, update_children, expand_node,
  expand_all,
}

pub get_node-append_other :
    (hash : Text) (n : NodeProp) (nodes : List NodeProp)
    → text_eq n.object.id hash ≡ false
    → get_node hash (nodes ++ n ∷ []) ≡ get_node hash nodes
unfolding get_node
get_node-append_other hash n [] h = rw h refl
get_node-append_other hash n (m ∷ nodes) h =
    ap (λ t. if text_eq m.object.id hash then some m else t) (get_node-append_other hash n nodes h)

get_node-append_new :
    (n : NodeProp) (nodes : List NodeProp)
    → get_node n.object.id nodes ≡ none
    → get_node n.object.id (nodes ++ n ∷ []) ≡ some n
unfolding get_node
get_node-append_new n [] h = rw (text_eq_refl n.object.id) refl
get_node-append_new n (m ∷ nodes) h = elim (Bool-cases (text_eq m.object.id n.object.id)) [
  | inl e ↦ let k : some m ≡ none = rw e at h in absurd (cc k)
  | inr e ↦ rw e (get_node-append_new n nodes (rw e at h))
]

get_node-replace_other :
    (hash : Text) (o : RelatedObject) (expanded : Bool) (nodes : List NodeProp)
    → text_eq o.id hash ≡ false
    → get_node hash (replace_node o expanded nodes) ≡ get_node hash nodes
unfolding get_node replace_node
get_node-replace_other hash o expanded [] h = refl
get_node-replace_other hash o expanded (m ∷ nodes) h =
    elim (Bool-cases (text_eq m.object.id o.id)) [
      | inl e ↦
          rw (e, h, text_eq_sound m.object.id o.id e, h)
            (get_node-replace_other hash o expanded nodes h)
      | inr e ↦ rw e (
          ap (λ t. if text_eq m.object.id hash then some m else t)
            (get_node-replace_other hash o expanded nodes h))
    ]

get_node-replace_same :
    (o : RelatedObject) (expanded : Bool) (n : NodeProp) (nodes : List NodeProp)
    → get_node o.id nodes ≡ some n
    → get_node o.id (replace_node o expanded nodes) ≡ some (convert_object o expanded)
unfolding get_node replace_node
get_node-replace_same o expanded n [] h = absurd (cc h)
get_node-replace_same o expanded n (m ∷ nodes) h = elim (Bool-cases (text_eq m.object.id o.id)) [
  | inl e ↦ rw (e, text_eq_refl o.id) refl
  | inr e ↦ rw (e, e) (get_node-replace_same o expanded n nodes (rw e at h))
]

-- A node with another identifier is not touched.
pub get_node-add_nodes_other :
    (hash : Text) (s : Nodes) (o : RelatedObject) (e : Option Edge)
    → text_eq o.id hash ≡ false
    → get_node hash (add_nodes s o e).nodes ≡ get_node hash s.nodes
unfolding add_nodes
get_node-add_nodes_other hash s o e h = elim (Option-cases (get_node o.id s.nodes)) [
  | inl k ↦ rw k (get_node-append_other hash (convert_object o (no_edge e)) s.nodes h)
  | inr (n, k) ↦
      rw k (get_node-replace_other hash o ((not n.expanded && no_edge e) || n.expanded) s.nodes h)
]

or_false : (a : Bool) → a ≡ (a || false)
or_false true = refl
or_false false = refl

and_or_false : (a b : Bool) → (a || (b && false)) ≡ a
and_or_false true b = refl
and_or_false false true = refl
and_or_false false false = refl

and_true : (a : Bool) → (a && true) ≡ a
and_true true = refl
and_true false = refl

or_assoc : (a b c : Bool) → ((a || b) || c) ≡ (a || (b || c))
or_assoc true b c = refl
or_assoc false b c = refl

expanded_once : (a b : Bool) → ((not a && b) || a) ≡ (a || b)
expanded_once true b = ground arith
expanded_once false b = ground arith

-- The node of an object that is added, which is expanded if it was or no edge comes with it.
pub get_node-add_nodes_same :
    (s : Nodes) (o : RelatedObject) (e : Option Edge)
    → get_node o.id (add_nodes s o e).nodes
      ≡ some (convert_object o (was_expanded (get_node o.id s.nodes) || no_edge e))
unfolding add_nodes
get_node-add_nodes_same s o e = elim (Option-cases (get_node o.id s.nodes)) [
  | inl k ↦ rw k (get_node-append_new (convert_object o (no_edge e)) s.nodes k)
  | inr (n, k) ↦ rw k (
      get_node-replace_same o ((not n.expanded && no_edge e) || n.expanded) n s.nodes k
      ∙ ap (λ b. some (convert_object o b)) (expanded_once n.expanded (no_edge e)))
]

is_node_expanded-add_nodes :
    (hash : Text) (s : Nodes) (o : RelatedObject) (e : Option Edge)
    → is_node_expanded hash (add_nodes s o e).nodes
      ≡ (is_node_expanded hash s.nodes || (text_eq o.id hash && no_edge e))
unfolding is_node_expanded
is_node_expanded-add_nodes hash s o e = elim (Bool-cases (text_eq o.id hash)) [
  | inl k ↦
      subst
        (λ t.
          was_expanded (get_node t (add_nodes s o e).nodes)
          ≡ (was_expanded (get_node t s.nodes) || (text_eq o.id t && no_edge e)))
        (text_eq_sound o.id hash k)
        (ap was_expanded (get_node-add_nodes_same s o e)
          ∙ ap (λ b. was_expanded (get_node o.id s.nodes) || (b && no_edge e))
              (sym (text_eq_refl o.id)))
  | inr k ↦ rw k (
      ap was_expanded (get_node-add_nodes_other hash s o e k)
      ∙ or_false (was_expanded (get_node hash s.nodes)))
]

-- A node that comes with an edge does not change what is expanded.
is_node_expanded-edge :
    (hash : Text) (s : Nodes) (o : RelatedObject) (e : Edge)
    → is_node_expanded hash (add_nodes s o (some e)).nodes ≡ is_node_expanded hash s.nodes
is_node_expanded-edge hash s o e =
    is_node_expanded-add_nodes hash s o (some e)
    ∙ and_or_false (is_node_expanded hash s.nodes) (text_eq o.id hash)

is_node_expanded-update_parents :
    (hash id : Text) (s : Nodes) (os : List RelatedObject)
    → is_node_expanded hash (update_parents id s os).nodes ≡ is_node_expanded hash s.nodes
unfolding update_parents
is_node_expanded-update_parents hash id s [] = refl
is_node_expanded-update_parents hash id s (o ∷ os) =
    let e : Edge = record { parent = o.id; child = id } in
    is_node_expanded-update_parents hash id (add_nodes s o (some e)) os
    ∙ is_node_expanded-edge hash s o e

is_node_expanded-update_children :
    (hash id : Text) (s : Nodes) (os : List RelatedObject)
    → is_node_expanded hash (update_children id s os).nodes ≡ is_node_expanded hash s.nodes
unfolding update_children
is_node_expanded-update_children hash id s [] = refl
is_node_expanded-update_children hash id s (o ∷ os) =
    let e : Edge = record { parent = id; child = o.id } in
    is_node_expanded-update_children hash id (add_nodes s o (some e)) os
    ∙ is_node_expanded-edge hash s o e

is_node_expanded-expand_node :
    (hash : Text) (s : Nodes) (i : ObjectInfo)
    → is_node_expanded hash (expand_node s i).nodes
      ≡ (is_node_expanded hash s.nodes || text_eq i.object.id hash)
unfolding expand_node
is_node_expanded-expand_node hash s i =
    is_node_expanded-update_children hash i.object.id
      (update_parents i.object.id (add_nodes s i.object none) i.parents) i.children
    ∙ is_node_expanded-update_parents hash i.object.id (add_nodes s i.object none) i.parents
    ∙ is_node_expanded-add_nodes hash s i.object none
    ∙ ap (λ b. is_node_expanded hash s.nodes || b) (and_true (text_eq i.object.id hash))

-- Whatever answers come to expansions and in whatever order, exactly those nodes count as expanded which
-- were before or whose own answer has come: a relation to an expanded node neither expands a node
-- nor folds an expanded one.
pub is_node_expanded-expand_all :
    (hash : Text) (s : Nodes) (infos : List ObjectInfo)
    → is_node_expanded hash (expand_all s infos).nodes
      ≡ (is_node_expanded hash s.nodes || any (λ i. text_eq i.object.id hash) infos)
unfolding expand_all
is_node_expanded-expand_all hash s [] = or_false (is_node_expanded hash s.nodes)
is_node_expanded-expand_all hash s (i ∷ infos) =
    is_node_expanded-expand_all hash (expand_node s i) infos
    ∙ ap (λ b. b || any (λ j. text_eq j.object.id hash) infos)
        (is_node_expanded-expand_node hash s i)
    ∙ or_assoc (is_node_expanded hash s.nodes) (text_eq i.object.id hash)
        (any (λ j. text_eq j.object.id hash) infos)
