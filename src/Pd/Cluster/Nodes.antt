-- ===== src/Pd/Cluster/Nodes.antt =====
-- Nodes are found again, and what adding and deleting does to the others.
use ancestor.Common.{
  ℕ, Option, some, none, List, [], ◌≡◌, Bytes, length, arith, ◌++◌, ◌∷◌, refl, suc, true,
  Option-cases, zero, inl, bytes_equal_refl, inr, bytes_equal,
}
use ancestor.Common.Int.{ℤ, eq_ℤ}
use ancestor.Pd.Cluster.{
  Cluster, Node, NodeDescriptor, NodeStats, no_stats, find, assign, at, change, node_of, add_node,
  get_node_by_addr, set_node_stats,
}

at_end : (l : List Node) (n : Node) → at (length l) (l ++ n ∷ []) ≡ some n
unfolding at
at_end [] n = refl
at_end (x ∷ l) n = at_end l n

at-change :
    (r : ℕ) (f : Node → Node) (l : List Node) (n : Node)
    → at r l ≡ some n
    → at r (change r f l) ≡ some (f n)
unfolding at change
at-change r f [] n h = absurd (cc h)
at-change zero f (x ∷ l) n h = ground (arith, h)
at-change (suc r) f (x ∷ l) n h = at-change r f l n h

abbrev descriptor_of : Option Node → Option NodeDescriptor
descriptor_of none = none
descriptor_of (some n) = some n.descriptor

descriptor-change :
    (q r : ℕ) (ns : NodeStats) (l : List Node)
    → descriptor_of (at q (change r (λ n. record n { stats = ns }) l)) ≡ descriptor_of (at q l)
unfolding at change
descriptor-change q r ns [] = refl
descriptor-change zero zero ns (x ∷ l) = refl
descriptor-change zero (suc r) ns (x ∷ l) = refl
descriptor-change (suc q) zero ns (x ∷ l) = refl
descriptor-change (suc q) (suc r) ns (x ∷ l) = descriptor-change q r ns l

eq_ℤ_refl : (z : ℤ) → eq_ℤ z z ≡ true
eq_ℤ_refl z = ground arith

-- A node that is added is found by its id, without statistics whatever it had before, and its
-- descriptor by its address.
pub add_node-found :
    (nd : NodeDescriptor) (c : Cluster)
    → (node_of nd.node_id (add_node nd c) ≡ some (record { descriptor = nd; stats = no_stats }))
      × (get_node_by_addr nd.address (add_node nd c) ≡ some nd)
unfolding node_of add_node assign find get_node_by_addr
add_node-found nd c = elim (Option-cases (find eq_ℤ nd.node_id c.nodes)) [
  | inl e ↦ (
    ground (
      arith,
      e,
      eq_ℤ_refl nd.node_id,
      at_end c.objects (record { descriptor = nd; stats = no_stats }),
    ),
    ground (
      arith,
      e,
      bytes_equal_refl nd.address,
      at_end c.objects (record { descriptor = nd; stats = no_stats }),
    ),
  )
  | inr (r, e) ↦ (
    ground (
      arith,
      e,
      eq_ℤ_refl nd.node_id,
      at_end (change r (λ n. record n { descriptor = nd }) c.objects)
          (record { descriptor = nd; stats = no_stats }),
    ),
    ground (
      arith,
      e,
      bytes_equal_refl nd.address,
      at_end (change r (λ n. record n { descriptor = nd }) c.objects)
          (record { descriptor = nd; stats = no_stats }),
    ),
  )
]

-- The statistics of a node that is known replace its old ones, and no address leads to another
-- descriptor for it.
pub node_of-set_node_stats :
    (ns : NodeStats) (n : Node) (addr : Bytes) (c : Cluster)
    → node_of ns.node_id c ≡ some n
    → (node_of ns.node_id (set_node_stats ns c) ≡ some (record n { stats = ns }))
      × (get_node_by_addr addr (set_node_stats ns c) ≡ get_node_by_addr addr c)
unfolding node_of set_node_stats get_node_by_addr
node_of-set_node_stats ns n addr c h = elim (Option-cases (find eq_ℤ ns.node_id c.nodes)) [
  | inl e ↦ absurd (ground arith)
  | inr (r, e) ↦ (
    ground (
      arith,
      h,
      e,
      at-change r (λ n. record n { stats = ns }) c.objects n (ground (arith, e, h)),
    ),
    elim (Option-cases (find bytes_equal addr c.hosts)) [
      | inl f ↦ ground (arith, e, f)
      | inr (q, f) ↦ ground (arith, e, f, descriptor-change q r ns c.objects)
    ],
  )
]
