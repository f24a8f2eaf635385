-- ===== src/Pd/Send/Led.antt =====
-- AdjustLeader puts the replica of the leader before its others.
use ancestor.Common.{
  ℕ, zero, suc, false, some, List, [], ◌∷◌, ◌++◌, ◌≡◌, refl, ◌∙◌, ap, length, arith, get_elem?,
  subst,
}
use ancestor.Common.Int.{ℤ, eq_ℤ}
use ancestor.Store.{is_exist_node, RangeDescriptor, ReplicaDescriptor}
use ancestor.Pd.Ranges.{modify, leader_first, index_of, exchange}

-- No two replicas are on one node.
abbrev pub Distinct : List ReplicaDescriptor → Type 0
Distinct [] = Unit
Distinct (x ∷ xs) = (is_exist_node x.node_id xs ≡ false) × Distinct xs

pub not_met :
    (id : ℤ) (xs ys : List ReplicaDescriptor) (x : ReplicaDescriptor)
    → is_exist_node id (xs ++ x ∷ ys) ≡ false
    → eq_ℤ id x.node_id ≡ false
unfolding is_exist_node
not_met id [] ys x h = ground arith
not_met id (y ∷ xs) ys x h = not_met id xs ys x (ground (arith, h))

-- A replica and the first one in each other's place.
abbrev pub swapped :
    List ReplicaDescriptor → ReplicaDescriptor → List ReplicaDescriptor → List ReplicaDescriptor
swapped [] l suf = l ∷ suf
swapped (x ∷ pre) l suf = l ∷ pre ++ x ∷ suf

index_of_lem :
    (pre suf : List ReplicaDescriptor) (l : ReplicaDescriptor)
    → Distinct (pre ++ l ∷ suf)
    → index_of l.node_id (pre ++ l ∷ suf) ≡ some (length pre)
unfolding index_of
index_of_lem [] suf l h = ground arith
index_of_lem (x ∷ pre) suf l h =
    ground (arith, not_met x.node_id pre suf l h.0, index_of_lem pre suf l h.1)

get_middle :
    (pre suf : List ReplicaDescriptor) (l : ReplicaDescriptor)
    → get_elem? (pre ++ l ∷ suf) (length pre) ≡ some l
get_middle [] suf l = refl
get_middle (x ∷ pre) suf l = get_middle pre suf l

modify_middle :
    (pre suf : List ReplicaDescriptor) (l x : ReplicaDescriptor)
    → modify (length pre) (λ _. x) (pre ++ l ∷ suf) ≡ pre ++ x ∷ suf
unfolding modify
modify_middle [] suf l x = refl
modify_middle (y ∷ pre) suf l x = ap (◌∷◌ y) (modify_middle pre suf l x)

exchange-eq-swapped :
    (pre suf : List ReplicaDescriptor) (l : ReplicaDescriptor)
    → exchange (length pre) (pre ++ l ∷ suf) ≡ swapped pre l suf
unfolding exchange
exchange-eq-swapped [] suf l = refl
exchange-eq-swapped (x ∷ pre) suf l =
    rw (get_middle pre suf l, exchange) (ap (◌∷◌ l) (modify_middle pre suf l x))

leader_first_lem :
    (rd : RangeDescriptor) (pre suf : List ReplicaDescriptor) (l : ReplicaDescriptor)
    → rd.replicas ≡ pre ++ l ∷ suf
    → Distinct rd.replicas
    → leader_first l.node_id rd ≡ record rd { replicas = swapped pre l suf }
unfolding leader_first
leader_first_lem rd pre suf l e h =
    let found : index_of l.node_id rd.replicas ≡ some (length pre) =
      ap (index_of l.node_id) e ∙ index_of_lem pre suf l (subst Distinct e h) in
    let turned : exchange (length pre) rd.replicas ≡ swapped pre l suf =
      ap (exchange (length pre)) e ∙ exchange-eq-swapped pre suf l in
    ground (arith, found, turned)

modified :
    (r : ℕ) (f : RangeDescriptor → RangeDescriptor) (objects : List RangeDescriptor)
    (rd : RangeDescriptor)
    → get_elem? objects r ≡ some rd
    → get_elem? (modify r f objects) r ≡ some (f rd)
unfolding modify
modified r f [] rd h = absurd (cc h)
modified zero f (x ∷ l) rd h = ground (arith, h)
modified (suc r) f (x ∷ l) rd h = modified r f l rd h

-- The descriptor at a place after AdjustLeader has found it there.
pub leader_first-swapped :
    (r : ℕ) (objects : List RangeDescriptor) (rd : RangeDescriptor)
    (pre suf : List ReplicaDescriptor) (l : ReplicaDescriptor)
    → get_elem? objects r ≡ some rd
    → rd.replicas ≡ pre ++ l ∷ suf
    → Distinct rd.replicas
    → get_elem? (modify r (leader_first l.node_id) objects) r
      ≡ some (record rd { replicas = swapped pre l suf })
leader_first-swapped r objects rd pre suf l h e d =
    modified r (leader_first l.node_id) objects rd h ∙ ap some (leader_first_lem rd pre suf l e d)
