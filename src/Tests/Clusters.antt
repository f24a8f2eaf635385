-- ===== src/Tests/Clusters.antt =====
-- A node that is added twice, and its statistics.
use ancestor.Common.{◌≡◌, some, ◌∷◌, []}
use ancestor.Common.Int.{pos}
use ancestor.Pd.Cluster.{Cluster, NodeDescriptor, no_stats, node_of, add_node, get_node_by_addr}
use ancestor.Pd.Cluster.Nodes.{add_node-found}

abbrev first : NodeDescriptor
first = record { node_id = pos 1; address = 97 ∷ []; capacity = pos 10 }

abbrev moved : NodeDescriptor
moved = record { node_id = pos 1; address = 98 ∷ []; capacity = pos 20 }

abbrev one_node : Cluster
one_node = record {
  objects = record { descriptor = first; stats = no_stats } ∷ [];
  nodes = (pos 1, 0) ∷ [];
  hosts = (97 ∷ [], 0) ∷ [];
}

add_node-found_example :
    (node_of (pos 1) (add_node moved one_node)
      ≡ some (record { descriptor = moved; stats = no_stats }))
    × (get_node_by_addr (98 ∷ []) (add_node moved one_node) ≡ some moved)
add_node-found_example = add_node-found moved one_node
