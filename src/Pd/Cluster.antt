-- ===== src/Pd/Cluster.antt =====
-- pd/cluster.go: the nodes that the placement driver knows, by id and by address. The two maps hold
-- pointers to the same nodes, so the nodes stand in a store of their own and the maps hold places
-- in it. A map is a list of pairs in the order, any order, that an iteration takes.
pub mod Nodes
use ancestor.Common.{
  ℕ, Bool, Option, some, none, List, [], Bytes, length, bytes_equal, ◌∷◌, false, map, ◌++◌,
  if◌then◌else◌, suc, ◌||◌, true, zero,
}
use ancestor.Common.Int.{ℤ, pos, eq_ℤ}
use ancestor.Meta.Stats.{RangeStats}

pub record NodeDescriptor : Type 0 where
  pub node_id : ℤ
  pub address : Bytes
  pub capacity : ℤ

pub record NodeStats : Type 0 where
  pub node_id : ℤ
  pub total_bytes : ℤ
  pub total_count : ℤ
  pub leader_count : ℕ
  pub range_stats_info : List (ℤ × RangeStats)

abbrev pub no_stats : NodeStats
no_stats = record {
  node_id = pos 0;
  total_bytes = pos 0;
  total_count = pos 0;
  leader_count = 0;
  range_stats_info = [];
}

-- node
pub record Node : Type 0 where
  pub descriptor : NodeDescriptor
  pub stats : NodeStats

pub record Cluster : Type 0 where
  pub objects : List Node
  pub nodes : List (ℤ × ℕ)
  pub hosts : List (Bytes × ℕ)

module _ {K : Type 0} {V : Type 0} (same : K → K → Bool) where
  unfoldable pub find : K → List (K × V) → Option V
  find k [] = none
  find k ((j, v) ∷ l) = if same j k then some v else find k l

  unfoldable pub delete : K → List (K × V) → List (K × V)
  delete k [] = []
  delete k ((j, v) ∷ l) = let rest = delete k l in if same j k then rest else (j, v) ∷ rest

  unfoldable pub assign : K → V → List (K × V) → List (K × V)
  assign k v l = (k, v) ∷ delete k l

unfoldable pub at : ℕ → List Node → Option Node
at n [] = none
at zero (x ∷ l) = some x
at (suc n) (x ∷ l) = at n l

unfoldable pub change : ℕ → (Node → Node) → List Node → List Node
change n f [] = []
change zero f (x ∷ l) = f x ∷ l
change (suc n) f (x ∷ l) = x ∷ change n f l

unfoldable pub node_of : ℤ → Cluster → Option Node
node_of id c = elim (find eq_ℤ id c.nodes) [ none ↦ none | some r ↦ at r c.objects ]

-- count
unfoldable pub count : Cluster → ℕ
count c = length c.nodes

unfoldable pub is_in : ℤ → List ℤ → Bool
is_in id [] = false
is_in id (i ∷ ids) = eq_ℤ id i || is_in id ids

unfoldable pub idle_of : List ℤ → List (ℤ × ℕ) → Cluster → Option NodeDescriptor
idle_of ids [] c = none
idle_of ids ((i, r) ∷ l) c =
    let rest = idle_of ids l c in
    elim (at r c.objects) [
      | none ↦ rest
      | some n ↦ if is_in n.descriptor.node_id ids then rest else some n.descriptor
    ]

-- getIdleNode
unfoldable pub get_idle_node : List ℤ → Cluster → Option NodeDescriptor
get_idle_node ids c = idle_of ids c.nodes c

abbrev cons_some {ℓ} : {A : Type ℓ} → Option A → List A → List A
cons_some none l = l
cons_some (some x) l = x ∷ l

unfoldable pub nodes_of : List ℤ → Cluster → List Node
nodes_of [] c = []
nodes_of (i ∷ ids) c = cons_some (node_of i c) (nodes_of ids c)

abbrev ids_of : List (ℤ × ℕ) → List ℤ
ids_of l = map (λ e. e.0) l

-- getNodes, getNodeStats: all nodes where no id is named.
unfoldable pub chosen : List ℤ → Cluster → List Node
chosen [] c = nodes_of (ids_of c.nodes) c
chosen (i ∷ ids) c = nodes_of (i ∷ ids) c

unfoldable pub get_nodes : List ℤ → Cluster → List NodeDescriptor
get_nodes ids c = map (λ (n : Node). n.descriptor) (chosen ids c)

unfoldable pub get_node_stats : List ℤ → Cluster → List NodeStats
get_node_stats ids c = map (λ (n : Node). n.stats) (chosen ids c)

-- getNodeByAddr
unfoldable pub get_node_by_addr : Bytes → Cluster → Option NodeDescriptor
get_node_by_addr addr c = elim (find bytes_equal addr c.hosts) [
  | none ↦ none
  | some r ↦ elim (at r c.objects) [ none ↦ none | some n ↦ some n.descriptor ]
]

-- setNodeStats
unfoldable pub set_node_stats : NodeStats → Cluster → Cluster
set_node_stats ns c = elim (find eq_ℤ ns.node_id c.nodes) [
  | none ↦ c
  | some r ↦ record c { objects = change r (λ n. record n { stats = ns }) c.objects }
]

-- One round of addNodeCache: an old node with the id has its descriptor changed, and a new node
-- without statistics takes its place in the maps.
unfoldable pub add_node : NodeDescriptor → Cluster → Cluster
add_node nd c =
    let objects : List Node = elim (find eq_ℤ nd.node_id c.nodes) [
      | none ↦ c.objects
      | some r ↦ change r (λ n. record n { descriptor = nd }) c.objects
    ] in
    record {
      objects = objects ++ record { descriptor = nd; stats = no_stats } ∷ [];
      nodes = assign eq_ℤ nd.node_id (length objects) c.nodes;
      hosts = assign bytes_equal nd.address (length objects) c.hosts;
    }

-- addNodeCache
unfoldable pub add_node_cache : List NodeDescriptor → Cluster → Cluster
add_node_cache [] c = c
add_node_cache (nd ∷ nds) c = add_node_cache nds (add_node nd c)

-- delNodeCache
unfoldable pub del_node_cache : List NodeDescriptor → Cluster → Cluster
del_node_cache [] c = c
del_node_cache (nd ∷ nds) c = del_node_cache nds (record c {
  nodes = delete eq_ℤ nd.node_id c.nodes;
  hosts = delete bytes_equal nd.address c.hosts;
})

-- setNodes, with etcd's answer.
unfoldable pub set_nodes : Bool → List NodeDescriptor → Cluster → Bool × Cluster
set_nodes accepted nds c = if accepted then (true, add_node_cache nds c) else (false, c)

-- newNodeDescriptor, with the id that the allocator gives and etcd's answer.
unfoldable pub new_node_descriptor :
    Option ℤ → Bool → Bytes → ℤ → Cluster → (NodeDescriptor × Bool) × Cluster
new_node_descriptor new_id accepted addr cap c = elim new_id [
  | none ↦ ((record { node_id = pos 0; address = addr; capacity = cap }, false), c)
  | some id ↦
      let nd : NodeDescriptor = record { node_id = id; address = addr; capacity = cap } in
      let (fine, c') = set_nodes accepted (nd ∷ []) c in ((nd, fine), c')
]

abbrev put_stats : RangeStats → Node → Node
put_stats rs n = record n {
  stats = record n.stats { range_stats_info = assign eq_ℤ rs.range_id rs n.stats.range_stats_info };
}

-- setRangeStats; a node that is not found is logged.
unfoldable pub set_range_stats : List RangeStats → Cluster → Cluster
set_range_stats [] c = c
set_range_stats (rs ∷ rss) c = set_range_stats rss (elim (find eq_ℤ rs.node_id c.nodes) [
  | none ↦ c
  | some r ↦ record c { objects = change r (put_stats rs) c.objects }
])

unfoldable pub range_stats_of : List ℤ → Node → List RangeStats
range_stats_of [] n = []
range_stats_of (i ∷ ids) n = cons_some (find eq_ℤ i n.stats.range_stats_info) (range_stats_of ids n)

abbrev all_range_stats : Node → List RangeStats
all_range_stats n = range_stats_of (map (λ e. e.0) n.stats.range_stats_info) n

unfoldable pub gather : (Node → List RangeStats) → List Node → List RangeStats
gather f [] = []
gather f (n ∷ l) = f n ++ gather f l

-- getRangeStats
unfoldable pub get_range_stats : List ℤ → Cluster → List RangeStats
get_range_stats [] c = gather all_range_stats (nodes_of (ids_of c.nodes) c)
get_range_stats (i ∷ ids) c = gather (range_stats_of (i ∷ ids)) (nodes_of (ids_of c.nodes) c)
