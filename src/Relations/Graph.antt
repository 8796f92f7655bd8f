-- ===== src/Relations/Graph.antt =====
-- RelationsPlotView.tsx: the state of the plot and what an answer adds to it. The answers to the
-- expansions under way may come in any order: `expand_all` takes them as they come.
use mwdb_core.Common.{
  ℕ, Bool, true, false, not, Option, none, some, List, [], ◌∷◌, ◌++◌, any, if◌then◌else◌, ◌&&◌,
  ◌||◌, ltb, length,
}
use mwdb_core.Common.Text.{Text, text_eq}

pub record RelatedObject : Type 0 where
  pub id : Text
  pub type : Text
  pub upload_time : Text
  pub tags : List Text

pub record NodeProp : Type 0 where
  pub object : RelatedObject
  pub expanded : Bool

pub record Edge : Type 0 where
  pub parent : Text
  pub child : Text

pub record Nodes : Type 0 where
  pub nodes : List NodeProp
  pub edges : List Edge

-- What the server answers for an object.
pub record ObjectInfo : Type 0 where
  pub object : RelatedObject
  pub parents : List RelatedObject
  pub children : List RelatedObject

abbrev pub no_nodes : Nodes
no_nodes = record { nodes = []; edges = [] }

abbrev pub convert_object : RelatedObject → Bool → NodeProp
convert_object o expanded = record { object = o; expanded = expanded }

-- `nodes.find((n) => n.id === hash)`
unfoldable pub get_node : Text → List NodeProp → Option NodeProp
get_node hash [] = none
get_node hash (n ∷ nodes) = if text_eq n.object.id hash then some n else get_node hash nodes

abbrev pub was_expanded : Option NodeProp → Bool
was_expanded none = false
was_expanded (some n) = n.expanded

unfoldable pub is_node_expanded : Text → List NodeProp → Bool
is_node_expanded hash nodes = was_expanded (get_node hash nodes)

abbrev pub edge_eq : Edge → Edge → Bool
edge_eq e f = text_eq e.parent f.parent && text_eq e.child f.child

unfoldable pub has_edge : Edge → List Edge → Bool
has_edge e = any (λ f. edge_eq f e)

abbrev pub no_edge : Option Edge → Bool
no_edge none = true
no_edge (some e) = false

-- The `reduce` that updates a node in its place.
unfoldable pub replace_node : RelatedObject → Bool → List NodeProp → List NodeProp
replace_node o expanded [] = []
replace_node o expanded (n ∷ nodes) =
    (if text_eq n.object.id o.id then convert_object o expanded else n)
    ∷ replace_node o expanded nodes

abbrev pub put_node : RelatedObject → Option Edge → List NodeProp → Option NodeProp → List NodeProp
put_node o e nodes none = nodes ++ convert_object o (no_edge e) ∷ []
put_node o e nodes (some n) = replace_node o ((not n.expanded && no_edge e) || n.expanded) nodes

abbrev pub put_edge : Option Edge → List Edge → List Edge
put_edge none edges = edges
put_edge (some e) edges = if has_edge e edges then edges else edges ++ e ∷ []

unfoldable pub add_nodes : Nodes → RelatedObject → Option Edge → Nodes
add_nodes s o e = record {
  nodes = put_node o e s.nodes (get_node o.id s.nodes);
  edges = put_edge e s.edges;
}

-- `updateObject(o, "parent", id)` for each of the objects, in turn
unfoldable pub update_parents : Text → Nodes → List RelatedObject → Nodes
update_parents id s [] = s
update_parents id s (o ∷ os) =
    update_parents id (add_nodes s o (some (record { parent = o.id; child = id }))) os

unfoldable pub update_children : Text → Nodes → List RelatedObject → Nodes
update_children id s [] = s
update_children id s (o ∷ os) =
    update_children id (add_nodes s o (some (record { parent = id; child = o.id }))) os

-- `expandNode`, from the answer on.
unfoldable pub expand_node : Nodes → ObjectInfo → Nodes
expand_node s i =
    update_children i.object.id (update_parents i.object.id (add_nodes s i.object none) i.parents)
      i.children

unfoldable pub expand_all : Nodes → List ObjectInfo → Nodes
expand_all s [] = s
expand_all s (i ∷ infos) = expand_all (expand_node s i) infos

-- A click, and the nodes of the address: `none` if nothing is asked for.
unfoldable pub on_node_click : Text → List Text → Nodes → Option (List Text)
on_node_click node address s =
    if is_node_expanded node s.nodes then none else some (address ++ node ∷ [])

-- The objects that the first rendering expands.
unfoldable pub first_expanded : Option Text → List Text → List Text
first_expanded none address = address
first_expanded (some []) address = address
first_expanded (some (c ∷ hash)) address =
    if any (λ n. text_eq n (c ∷ hash)) address then address else address ++ (c ∷ hash) ∷ []

pub data NodesStatus : Type 0 where
  initial show_graph show_warning : NodesStatus

abbrev larger : ℕ → ℕ → ℕ
larger a b = if ltb a b then b else a

abbrev status_of : NodesStatus → List NodeProp → List Edge → NodesStatus
status_of status [] [] = status
status_of status nodes edges =
    if ltb (larger (length nodes) (length edges)) 500 then show_graph else show_warning

-- The effect behind each change of the nodes.
unfoldable pub update_status : NodesStatus → Nodes → NodesStatus
update_status status s = status_of status s.nodes s.edges
