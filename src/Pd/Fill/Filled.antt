-- ===== src/Pd/Fill/Filled.antt =====
-- A range with too few replicas gets enough of them, on nodes of their own.
use ancestor.Common.{
  ℕ, zero, suc, ◌-◌, false, some, List, [], ◌∷◌, ◌++◌, ◌≡◌, refl, sym, map, ◌∙◌, ap, arith, subst,
  length, get_elem?, Bool-cases, Option-cases, inl, inr,
}
use ancestor.Common.Int.{ℤ}
use ancestor.Meta.Exec.{ok, ◌>>=◌, ◌>>◌, pure, attempt, >>=-eq-ok}
use ancestor.Store.{RangeDescriptor, ReplicaDescriptor}
use ancestor.Pd.Cluster.{Cluster, NodeDescriptor, get_idle_node, idle_of, is_in, at}
use ancestor.Pd.Ranges.{OrderedCache, RangeCache, modify, put_range, drop_range, add_ranges}
use ancestor.Pd.State.{Pd, Outside}
use ancestor.Pd.Send.{descriptor, call_node}
use ancestor.Pd.Region.{new_id, set_range_descriptors, master_put}
use ancestor.Pd.Fill.{
  idle_node, fill, append_replicas, create_replicas, tell_nodes, place_replicas, fill_descriptor,
  fill_range,
}

idle_of-is_in :
    (ids : List ℤ) (l : List (ℤ × ℕ)) (c : Cluster) (d : NodeDescriptor)
    → idle_of ids l c ≡ some d
    → is_in d.node_id ids ≡ false
unfolding idle_of
idle_of-is_in ids [] c d h = absurd (cc h)
idle_of-is_in ids ((i, r) ∷ l) c d h = elim (Option-cases (at r c.objects)) [
  | inl e ↦ idle_of-is_in ids l c d (ground (arith, e, h))
  | inr (n, e) ↦ elim (Bool-cases (is_in n.descriptor.node_id ids)) [
    | inl f ↦ idle_of-is_in ids l c d (ground (arith, e, f, h))
    | inr f ↦ ground (arith, e, f, h)
  ]
]

-- Each replica is on a node that is not among the given ones, nor has an earlier replica.
abbrev pub Spread : List ℤ → List ReplicaDescriptor → Type 0
Spread ids [] = Unit
Spread ids (r ∷ reps) = (is_in r.node_id ids ≡ false) × Spread (ids ++ r.node_id ∷ []) reps

length-map : {A B : Type 0} (f : A → B) (l : List A) → length (map f l) ≡ length l
length-map f [] = refl
length-map f (x ∷ l) = omega (arith, length-map f l)

module _ (O : OrderedCache) (out : Outside) where
  abbrev Kept : Pd O.Cache → Pd O.Cache → Type 0
  Kept s s' = s'.ranges ≡ s.ranges

  idle_node-eq-ok :
      (ids : List ℤ) (s s' : Pd O.Cache) (node : NodeDescriptor)
      → idle_node O out ids s ≡ (ok node, s')
      → (is_in node.node_id ids ≡ false) × Kept s s'
  unfolding idle_node get_idle_node
  idle_node-eq-ok ids s s' node h = elim (Option-cases (get_idle_node ids s.cluster)) [
    | inl e ↦ absurd (ground (arith, e, h))
    | inr (d, e) ↦ (
      let same : d ≡ node = ground (arith, e, h) in
          subst (λ (x : NodeDescriptor). is_in x.node_id ids ≡ false) same
            (idle_of-is_in ids s.cluster.nodes s.cluster d e),
      ground (arith, e, h),
    )
  ]

  new_id-Kept : (s s' : Pd O.Cache) (id : ℤ) → new_id O out s ≡ (ok id, s') → Kept s s'
  unfolding new_id
  new_id-Kept s s' id h = ground (arith, h)

  fill-Spread :
      (n : ℕ) (ids : List ℤ) (reps : List ReplicaDescriptor) (s s' : Pd O.Cache)
      → fill O out n ids s ≡ (ok reps, s')
      → (length reps ≡ n) × Spread ids reps × Kept s s'
  unfolding fill
  fill-Spread zero ids reps s s' h =
      let nil : ◌≡◌ {A = List ReplicaDescriptor} [] reps = ground (arith, h) in
      (omega (arith, ap length nil), subst (Spread ids) nil tt, ground (arith, h))
  fill-Spread (suc n) ids reps s s' h =
      let (node, s₁, e₁, h₁) =
        >>=-eq-ok (idle_node O out ids)
          (λ node. new_id O out >>= λ id. fill O out n (ids ++ node.node_id ∷ []) >>= λ l.
            pure (record { node_id = node.node_id; replica_id = id } ∷ l))
          reps s s' h in
      let (id, s₂, e₂, h₂) =
        >>=-eq-ok (new_id O out)
          (λ id. fill O out n (ids ++ node.node_id ∷ []) >>= λ l.
            pure (record { node_id = node.node_id; replica_id = id } ∷ l))
          reps s₁ s' h₁ in
      let (l, s₃, e₃, h₃) =
        >>=-eq-ok (fill O out n (ids ++ node.node_id ∷ []))
          (λ l. pure (record { node_id = node.node_id; replica_id = id } ∷ l)) reps s₂ s' h₂ in
      let (len, spread, kept) = fill-Spread n (ids ++ node.node_id ∷ []) l s₂ s₃ e₃ in
      let (fresh, kept₁) = idle_node-eq-ok ids s s₁ node e₁ in
      let whole : ◌≡◌ {A = List ReplicaDescriptor}
          (record { node_id = node.node_id; replica_id = id } ∷ l) reps =
        ground (arith, h₃) in
      (
        omega (arith, len, ap length whole),
        subst (Spread ids) whole (fresh, spread),
        ground (arith, h₃, kept, kept₁, new_id-Kept s₁ s₂ id e₂),
      )

  get_elem?-modify :
      (r : ℕ) (f : RangeDescriptor → RangeDescriptor) (l : List RangeDescriptor)
      (rd : RangeDescriptor)
      → get_elem? l r ≡ some rd
      → get_elem? (modify r f l) r ≡ some (f rd)
  unfolding modify
  get_elem?-modify r f [] rd h = absurd (cc h)
  get_elem?-modify zero f (x ∷ l) rd h = ground (arith, h)
  get_elem?-modify (suc r) f (x ∷ l) rd h = get_elem?-modify r f l rd h

  get_elem?-append_some :
      (l k : List RangeDescriptor) (r : ℕ) (rd : RangeDescriptor)
      → get_elem? l r ≡ some rd
      → get_elem? (l ++ k) r ≡ some rd
  get_elem?-append_some [] k r rd h = absurd (cc h)
  get_elem?-append_some (x ∷ l) k zero rd h = h
  get_elem?-append_some (x ∷ l) k (suc r) rd h = get_elem?-append_some l k r rd h

  drop-objects :
      (rd : RangeDescriptor) (c : RangeCache O.Cache) → (drop_range O rd c).objects ≡ c.objects
  unfolding drop_range
  drop-objects rd c = elim (Option-cases (O.get rd.start_key c.cache)) [
    | inl e ↦ ground (arith, e)
    | inr (q, e) ↦ ground (arith, e)
  ]

  abbrev There : ℕ → RangeDescriptor → Pd O.Cache → Type 0
  There r rd s = get_elem? s.ranges.objects r ≡ some rd

  descriptor-eq-ok :
      (r : ℕ) (s s' : Pd O.Cache) (rd : RangeDescriptor)
      → descriptor O out r s ≡ (ok rd, s')
      → There r rd s × (s' ≡ s)
  unfolding descriptor
  descriptor-eq-ok r s s' rd h = elim (Option-cases (get_elem? s.ranges.objects r)) [
    | inl e ↦ absurd (ground (arith, e, h))
    | inr (q, e) ↦ (ground (arith, e, h), ground (arith, e, h))
  ]

  create_replicas-Kept :
      (reps : List ReplicaDescriptor) (rd : RangeDescriptor) (s s' : Pd O.Cache)
      → create_replicas O out reps rd s ≡ (ok tt, s')
      → Kept s s'
  unfolding create_replicas call_node
  create_replicas-Kept [] rd s s' h = ground (arith, h)
  create_replicas-Kept (rep ∷ reps) rd s s' h = create_replicas-Kept reps rd _ s' h

  set-There :
      (r : ℕ) (old rd : RangeDescriptor) (s s' : Pd O.Cache)
      → There r old s
      → (attempt (set_range_descriptors O out (rd ∷ [])) >> pure tt) s ≡ (ok tt, s')
      → There r old s'
  unfolding set_range_descriptors master_put add_ranges put_range
  set-There r old rd s s' e h = elim (Bool-cases (out.accepts s.writes)) [
    | inl f ↦ ground (
      arith,
      e,
      f,
      h,
      drop-objects rd s.ranges,
      get_elem?-append_some s.ranges.objects (rd ∷ []) r old e,
    )
    | inr f ↦ ground (arith, e, f, h)
  ]

  tell_nodes-There :
      (r : ℕ) (old rd : RangeDescriptor) (reps : List ReplicaDescriptor) (s s' : Pd O.Cache)
      → There r old s
      → tell_nodes O out reps rd s ≡ (ok tt, s')
      → There r old s'
  unfolding tell_nodes
  tell_nodes-There r old rd reps s s' e h =
      let (u, s₁, e₁, h₁) =
        >>=-eq-ok (create_replicas O out reps rd)
          (λ _. attempt (set_range_descriptors O out (rd ∷ [])) >> pure tt) tt s s' h in
      set-There r old rd s₁ s' (ground (arith, e, create_replicas-Kept reps rd s s₁ e₁)) h₁

  place_replicas-There :
      (r : ℕ) (rd : RangeDescriptor) (reps : List ReplicaDescriptor) (s s' : Pd O.Cache)
      → There r rd s
      → place_replicas O out r reps s ≡ (ok tt, s')
      → There r (record rd { replicas = rd.replicas ++ reps }) s'
  unfolding place_replicas append_replicas
  place_replicas-There r rd reps s s' e h =
      let s₁ : Pd O.Cache = (append_replicas O out r reps s).1 in
      let (rd', s₂, e₂, h₂) = >>=-eq-ok (descriptor O out r) (tell_nodes O out reps) tt s₁ s' h in
      let (_, same) = descriptor-eq-ok r s₁ s₂ rd' e₂ in
      tell_nodes-There r (record rd { replicas = rd.replicas ++ reps }) rd' reps s₁ s'
        (get_elem?-modify r (λ (x : RangeDescriptor). record x { replicas = x.replicas ++ reps })
          s.ranges.objects rd e)
        (ap (tell_nodes O out reps rd') (sym same) ∙ h₂)

-- A round of checkReplica that ends without an error leaves the descriptor that it looks at with
-- its old replicas and as many new ones after them as there were too few of three, each on a node
-- that has no replica before it in the list.
pub fill_range-filled :
    (O : OrderedCache) (out : Outside) (r : ℕ) (rd : RangeDescriptor) (s s' : Pd O.Cache)
    → get_elem? s.ranges.objects r ≡ some rd
    → fill_range O out r s ≡ (ok tt, s')
    → (reps : List ReplicaDescriptor) × (get_elem? s'.ranges.objects r
        ≡ some (record rd { replicas = rd.replicas ++ reps }))
      × (length reps ≡ 3 - length rd.replicas)
      × Spread (map (λ (p : ReplicaDescriptor). p.node_id) rd.replicas) reps
unfolding fill_range fill_descriptor
fill_range-filled O out r rd s s' there h =
    let (rd₁, s₁, e₁, h₁) = >>=-eq-ok (descriptor O out r) (fill_descriptor O out r) tt s s' h in
    let (found, same) = descriptor-eq-ok O out r s s₁ rd₁ e₁ in
    let eq : rd₁ ≡ rd = ground (arith, found, there) in
    let h' : fill_descriptor O out r rd s ≡ (ok tt, s') =
      ap (λ x. fill_descriptor O out r x s) (sym eq)
      ∙ (ap (fill_descriptor O out r rd₁) (sym same) ∙ h₁) in
    let ids : List ℤ = map (λ (p : ReplicaDescriptor). p.node_id) rd.replicas in
    let (reps, s₂, e₂, h₂) =
      >>=-eq-ok (fill O out (3 - length ids) ids) (place_replicas O out r) tt s s' h' in
    let (len, spread, kept) = fill-Spread O out (3 - length ids) ids reps s s₂ e₂ in
    (
      reps,
      place_replicas-There O out r rd reps s₂ s' (ground (arith, kept, there)) h₂,
      omega (arith, len, length-map (λ (p : ReplicaDescriptor). p.node_id) rd.replicas),
      spread,
    )
