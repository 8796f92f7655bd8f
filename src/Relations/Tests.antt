-- ===== src/Relations/Tests.antt =====
-- The plot of three objects, `a` with the child `b`, which has the child `c`.
use mwdb_core.Common.{◌≡◌, refl, Bool, true, false, ◌||◌, [], ◌∷◌, map, any, none}
use mwdb_core.Common.Text.{Text, text, text_eq}
use mwdb_core.Relations.Graph.{
  RelatedObject, NodeProp, Edge, ObjectInfo, Nodes, no_nodes, get_node, is_node_expanded, has_edge,
  replace_node, add_nodes, update_parents, update_children, expand_node, expand_all, on_node_click,
}
use mwdb_core.Relations.Expanded.{is_node_expanded-expand_all}
use mwdb_core.Relations.Closed.{IsGraph, expand_all-IsGraph, no_nodes-IsGraph}

abbrev object_of : Text → RelatedObject
object_of id = record { id = id; type = text "file"; upload_time = text "2024"; tags = [] }

abbrev info_a : ObjectInfo
info_a = record {
  object = object_of (text "a");
  parents = [];
  children = object_of (text "b") ∷ [];
}

abbrev info_b : ObjectInfo
info_b = record {
  object = object_of (text "b");
  parents = object_of (text "a") ∷ [];
  children = object_of (text "c") ∷ [];
}

abbrev plot : Nodes
plot = expand_all no_nodes (info_b ∷ info_a ∷ [])

abbrev node_view : NodeProp → Text × Bool
node_view n = (n.object.id, n.expanded)

abbrev edge_view : Edge → Text × Text
edge_view e = (e.parent, e.child)

three_nodes :
    map node_view plot.nodes ≡ (text "b", true) ∷ (text "a", true) ∷ (text "c", false) ∷ []
unfolding expand_all expand_node update_children update_parents add_nodes replace_node get_node
    has_edge text_eq
three_nodes = refl

two_edges : map edge_view plot.edges ≡ (text "a", text "b") ∷ (text "b", text "c") ∷ []
unfolding expand_all expand_node update_children update_parents add_nodes replace_node get_node
    has_edge text_eq
two_edges = refl

expanded_is_not_asked : on_node_click (text "a") [] plot ≡ none
unfolding on_node_click is_node_expanded expand_all expand_node update_children update_parents
    add_nodes replace_node get_node has_edge text_eq
expanded_is_not_asked = refl

is_node_expanded-expand_all_example : is_node_expanded (text "c") plot.nodes ≡ (
    is_node_expanded (text "c") no_nodes.nodes
    || any (λ i. text_eq i.object.id (text "c")) (info_b ∷ info_a ∷ []))
is_node_expanded-expand_all_example =
    is_node_expanded-expand_all (text "c") no_nodes (info_b ∷ info_a ∷ [])

expand_all-IsGraph_example : IsGraph plot
expand_all-IsGraph_example = expand_all-IsGraph no_nodes (info_b ∷ info_a ∷ []) no_nodes-IsGraph
