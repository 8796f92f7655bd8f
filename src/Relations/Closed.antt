-- ===== src/Relations/Closed.antt =====
-- RelationsPlotView.tsx: the plot is a graph: each object is one node, each relation one edge, and the
-- ends of an edge are nodes.
use mwdb_core.Common.{
  Option, none, some, List, [], ◌∷◌, ◌||◌, ◌≡◌, refl, ◌∙◌, Bool-cases, inl, inr, subst, All,
  All-append,
}
use mathlib.Core.Option.{some-injective}
use mwdb_core.Common.Text.{Text, text_eq, text_eq_sound}
use mwdb_core.Relations.Graph.{
  RelatedObject, NodeProp, Edge, Nodes, ObjectInfo, convert_object, get_node, was_expanded, no_edge,
  has_edge, put_edge, add_nodes, update_parents, update_children, expand_node, expand_all, no_nodes,
}
use mwdb_core.Relations.Expanded.{get_node-add_nodes_other, get_node-add_nodes_same}
use mwdb_core.Relations.Once.{NodesOnce, EdgesOnce, put_node-NodesOnce, put_edge-EdgesOnce}

abbrev IsKnown : Nodes → Text → Type 0
IsKnown s hash = (n : NodeProp) × (get_node hash s.nodes ≡ some n)

abbrev Joins : Nodes → Edge → Type 0
Joins s e = IsKnown s e.parent × IsKnown s e.child

pub record IsGraph (s : Nodes) : Type 0 where
  pub nodes_once : NodesOnce s.nodes
  pub edges_once : EdgesOnce s.edges
  pub joined : All (Joins s) s.edges

add_nodes-IsKnown :
    (s : Nodes) (o : RelatedObject) (e : Option Edge) (hash : Text)
    → IsKnown s hash
    → IsKnown (add_nodes s o e) hash
add_nodes-IsKnown s o e hash (n, h) = elim (Bool-cases (text_eq o.id hash)) [
  | inl k ↦ subst (IsKnown (add_nodes s o e)) (text_eq_sound o.id hash k) (
    convert_object o (was_expanded (get_node o.id s.nodes) || no_edge e),
    get_node-add_nodes_same s o e,
  )
  | inr k ↦ (n, get_node-add_nodes_other hash s o e k ∙ h)
]

new-IsKnown : (s : Nodes) (o : RelatedObject) (e : Option Edge) → IsKnown (add_nodes s o e) o.id
new-IsKnown s o e = (
  convert_object o (was_expanded (get_node o.id s.nodes) || no_edge e),
  get_node-add_nodes_same s o e,
)

still_joined :
    (s : Nodes) (o : RelatedObject) (e : Option Edge) (edges : List Edge)
    → All (Joins s) edges
    → All (Joins (add_nodes s o e)) edges
still_joined s o e [] h = tt
still_joined s o e (f ∷ edges) ((p, c), h) = (
  (add_nodes-IsKnown s o e f.parent p, add_nodes-IsKnown s o e f.child c),
  still_joined s o e edges h,
)

put_edge-Joins :
    (s : Nodes) (e : Edge) (edges : List Edge)
    → Joins s e
    → All (Joins s) edges
    → All (Joins s) (put_edge (some e) edges)
put_edge-Joins s e edges j h = elim (Bool-cases (has_edge e edges)) [
  | inl k ↦ rw k h
  | inr k ↦ rw k (All-append (Joins s) edges (e ∷ []) h (j, tt))
]

-- An object that comes without an edge, or with one whose ends will be nodes.
add_nodes-IsGraph :
    (s : Nodes) (o : RelatedObject) (e : Option Edge)
    → IsGraph s
    → ((f : Edge) → e ≡ some f → Joins (add_nodes s o e) f)
    → IsGraph (add_nodes s o e)
unfolding add_nodes
add_nodes-IsGraph s o none g j = record {
  nodes_once = put_node-NodesOnce o none s.nodes g.nodes_once;
  edges_once = g.edges_once;
  joined = still_joined s o none s.edges g.joined;
}
add_nodes-IsGraph s o (some e) g j = record {
  nodes_once = put_node-NodesOnce o (some e) s.nodes g.nodes_once;
  edges_once = put_edge-EdgesOnce (some e) s.edges g.edges_once;
  joined =
      put_edge-Joins (add_nodes s o (some e)) e s.edges (j e refl)
        (still_joined s o (some e) s.edges g.joined);
}

-- A graph that has this node.
abbrev Around : Text → Nodes → Type 0
Around id s = IsGraph s × IsKnown s id

update_parents-Around :
    (id : Text) (s : Nodes) (os : List RelatedObject)
    → Around id s
    → Around id (update_parents id s os)
unfolding update_parents
update_parents-Around id s [] h = h
update_parents-Around id s (o ∷ os) (g, k) =
    let e : Edge = record { parent = o.id; child = id } in
    let k' : IsKnown (add_nodes s o (some e)) id = add_nodes-IsKnown s o (some e) id k in
    update_parents-Around id (add_nodes s o (some e)) os (
      add_nodes-IsGraph s o (some e) g (λ f h.
          subst (Joins (add_nodes s o (some e))) (some-injective _ _ h)
            (new-IsKnown s o (some e), k')),
      k',
    )

update_children-Around :
    (id : Text) (s : Nodes) (os : List RelatedObject)
    → Around id s
    → Around id (update_children id s os)
unfolding update_children
update_children-Around id s [] h = h
update_children-Around id s (o ∷ os) (g, k) =
    let e : Edge = record { parent = id; child = o.id } in
    let k' : IsKnown (add_nodes s o (some e)) id = add_nodes-IsKnown s o (some e) id k in
    update_children-Around id (add_nodes s o (some e)) os (
      add_nodes-IsGraph s o (some e) g (λ f h.
          subst (Joins (add_nodes s o (some e))) (some-injective _ _ h)
            (k', new-IsKnown s o (some e))),
      k',
    )

expand_node-IsGraph : (s : Nodes) (i : ObjectInfo) → IsGraph s → IsGraph (expand_node s i)
unfolding expand_node
expand_node-IsGraph s i g =
    let added : Around i.object.id (add_nodes s i.object none) =
      (add_nodes-IsGraph s i.object none g (λ f h. absurd (cc h)), new-IsKnown s i.object none) in
    (update_children-Around i.object.id
      (update_parents i.object.id (add_nodes s i.object none) i.parents) i.children
      (update_parents-Around i.object.id (add_nodes s i.object none) i.parents added)).0

-- Whatever answers come, and in whatever order, the plot stays a graph: no two nodes have the same
-- identifier, no edge stands twice, and both ends of every edge are nodes.
pub expand_all-IsGraph :
    (s : Nodes) (infos : List ObjectInfo) → IsGraph s → IsGraph (expand_all s infos)
unfolding expand_all
expand_all-IsGraph s [] g = g
expand_all-IsGraph s (i ∷ infos) g =
    expand_all-IsGraph (expand_node s i) infos (expand_node-IsGraph s i g)

pub no_nodes-IsGraph : IsGraph no_nodes
no_nodes-IsGraph = record { nodes_once = tt; edges_once = tt; joined = tt }
