-- ===== src/Pd/Send/Reaches.antt =====
-- A request to a range reaches its leader.
use ancestor.Common.{
  ℕ, zero, suc, ◌<◌, ◌≤◌, false, none, some, List, [], ◌∷◌, ◌++◌, ◌≡◌, refl, sym, ◌∙◌, ap, length,
  All, List-cases, inl, inr, length-append, append_assoc, subst, arith, get_elem?,
}
use ancestor.Common.Int.{ℤ, pos, leb_ℤ, eq_ℤ}
use ancestor.Meta.Message.{Error}
use ancestor.Meta.Exec.{Exec, Result, ok, pure, >>=-ok}
use ancestor.Store.{RangeDescriptor, ReplicaDescriptor}
use ancestor.Pd.Cluster.{Cluster, Node, node_of, find}
use ancestor.Pd.Ranges.{OrderedCache, RangeCache, adjust_leader, modify, leader_first}
use ancestor.Pd.Send.Led.{Distinct, not_met, swapped, leader_first-swapped}
use ancestor.Pd.State.{Pd, Outside, NodeRequest, NodeResponse, Answer, call_failed, answered}
use ancestor.Pd.Send.{
  next_after, get_next_node_id, leader_rounds, after_answer, next_leader, address_of, call_node,
  remember_leader, ask_first, descriptor, send_to_leader,
}

-- The call fails, the node does not have the range, or it names the leader.
pub data Redirects (leader : ℤ) : Answer → Type 0 where
  failing : Redirects leader call_failed
  moved :
      (i : ℤ) (r : NodeResponse) → Redirects leader (answered (some (Error.range_not_found i)) r)
  named :
      (i : ℤ) (r : NodeResponse)
      → i ≡ leader
      → Redirects leader (answered (some (Error.not_leader i)) r)

abbrev pub IsKnown : Cluster → ℤ → Type 0
IsKnown k id = (n : Node) × (node_of id k ≡ some n)

next_after_lem :
    (first : ℤ) (xs ys : List ReplicaDescriptor) (x y : ReplicaDescriptor)
    → Distinct (xs ++ x ∷ y ∷ ys)
    → next_after x.node_id first (xs ++ x ∷ y ∷ ys) ≡ y.node_id
unfolding next_after
next_after_lem first [] ys x y h = ground arith
next_after_lem first (z ∷ xs) ys x y h =
    ground (arith, not_met z.node_id xs (y ∷ ys) x h.0, next_after_lem first xs ys x y h.1)

get_next_node_id_lem :
    (rd : RangeDescriptor) (xs ys : List ReplicaDescriptor) (x y : ReplicaDescriptor)
    → rd.replicas ≡ xs ++ x ∷ y ∷ ys
    → Distinct rd.replicas
    → get_next_node_id x.node_id rd ≡ y.node_id
unfolding get_next_node_id
get_next_node_id_lem rd xs ys x y e h = elim (List-cases rd.replicas) [
  | inl f ↦ absurd (omega (arith, ap length f, ap length e, length-append xs (x ∷ y ∷ ys)))
  | inr (r, rest, f) ↦ ground (
    arith,
    f,
    next_after_lem r.node_id xs ys x y (subst Distinct e h),
    ap (next_after x.node_id r.node_id) e,
  )
]

module _ (O : OrderedCache) (out : Outside) (k : Cluster) (c c' : RangeCache O.Cache)
    (rd : RangeDescriptor) (req : NodeRequest) (leader : ℤ) (resp : NodeResponse)
    (positive : leb_ℤ leader (pos 0) ≡ false) (there : IsKnown k leader)
    (leads : (t : ℕ) → out.respond t leader req ≡ answered none resp)
    (adjusted : adjust_leader O rd.range_id leader c ≡ some c') where
  -- The request has been answered by the leader, and the leader is remembered.
  abbrev Reached : Result NodeResponse × Pd O.Cache → Type 0
  Reached x = (s' : Pd O.Cache) × (x ≡ (ok resp, s')) × (s'.ranges ≡ c')

  abbrev Here : Pd O.Cache → Type 0
  Here s = (s.cluster ≡ k) × (s.ranges ≡ c)

  Reached-by : (x y : Result NodeResponse × Pd O.Cache) → x ≡ y → Reached y → Reached x
  Reached-by x y e r = (r.0, e ∙ r.1, r.2)

  -- The switch on an error goes on with the node that it chose.
  next_at :
      (id next : ℤ) (again : ℤ → Exec (Pd O.Cache) NodeResponse) (s : Pd O.Cache) (e : Error)
      (r : NodeResponse)
      → next_leader O out rd id e s ≡ (ok next, s)
      → after_answer O out rd id again (answered (some e) r) s ≡ again next s
  unfolding after_answer
  next_at id next again s e r h = >>=-ok (next_leader O out rd id e) again next s s h

  answer_at :
      (again : ℤ → Exec (Pd O.Cache) NodeResponse) (s s' : Pd O.Cache)
      → remember_leader O out rd.range_id leader s ≡ (ok tt, s')
      → after_answer O out rd leader again (answered none resp) s ≡ (ok resp, s')
  unfolding after_answer
  answer_at again s s' h =
      >>=-ok (remember_leader O out rd.range_id leader) (λ _. pure resp) tt s s' h

  round_at :
      (n : ℕ) (id : ℤ) (s : Pd O.Cache)
      → IsKnown k id
      → Here s
      → leader_rounds O out (suc n) rd req id s
        ≡ after_answer O out rd id
            (leader_rounds O out n rd req)
            (out.respond (length s.sent) id req)
            (record s { sent = (id, req) ∷ s.sent })
  unfolding leader_rounds address_of call_node
  round_at n id s (nd, e) h = ground (arith, e, h)

  at_leader :
      (n : ℕ) (s : Pd O.Cache) → Here s → Reached (leader_rounds O out (suc n) rd req leader s)
  at_leader n s h =
      let e = round_at n leader s there h in
      let f : remember_leader O out rd.range_id leader (record s { sent = (leader, req) ∷ s.sent })
          ≡ (ok tt, record s { sent = (leader, req) ∷ s.sent; ranges = c' }) =
        unfold remember_leader in ground (arith, h, adjusted) in
      (
        record s { sent = (leader, req) ∷ s.sent; ranges = c' },
        e
            ∙ ap
                (λ a.
                  after_answer O out rd leader (leader_rounds O out n rd req) a
                    (record s { sent = (leader, req) ∷ s.sent }))
                (leads (length s.sent))
            ∙ answer_at (leader_rounds O out n rd req) _ _ f,
        refl,
      )

  -- The nodes that are asked one after the other.
  abbrev Chain : ℤ → List ReplicaDescriptor → Type 0
  Chain id [] = id ≡ leader
  Chain id (x ∷ xs) = (id ≡ x.node_id) × Chain (get_next_node_id x.node_id rd) xs

  abbrev Helps : ReplicaDescriptor → Type 0
  Helps x = IsKnown k x.node_id × ((t : ℕ) → Redirects leader (out.respond t x.node_id req))

  Chain-IsKnown : (id : ℤ) (xs : List ReplicaDescriptor) → Chain id xs → All Helps xs → IsKnown k id
  Chain-IsKnown id [] e h = rw e there
  Chain-IsKnown id (x ∷ xs) e h = rw e.0 h.0.0

  after_redirect :
      (id : ℤ) (again : ℤ → Exec (Pd O.Cache) NodeResponse) (s : Pd O.Cache) (a : Answer)
      → Here s
      → Redirects leader a
      → IsKnown k (get_next_node_id id rd)
      → Reached (again (get_next_node_id id rd) s)
      → Reached (again leader s)
      → Reached (after_answer O out rd id again a s)
  unfolding after_answer next_leader address_of
  after_redirect id again s _ h failing known next direct = next
  after_redirect id again s _ h (moved i r) (nd, e) next direct =
      Reached-by _ _
        (next_at id (get_next_node_id id rd) again s (Error.range_not_found i) r
          (unfold next_leader address_of in ground (arith, e, h)))
        next
  after_redirect id again s _ h (named i r e) known next direct =
      Reached-by _ _
        (next_at id leader again s (Error.not_leader i) r
          (unfold next_leader in ground (arith, e, positive)))
        direct

  rounds_reach :
      (xs : List ReplicaDescriptor) (n : ℕ) (id : ℤ) (s : Pd O.Cache)
      → length xs < n
      → Chain id xs
      → All Helps xs
      → Here s
      → Reached (leader_rounds O out n rd req id s)
  rounds_reach xs zero id s lt ch h here = absurd (omega arith)
  rounds_reach [] (suc n) id s lt ch h here = rw ch (at_leader n s here)
  rounds_reach (x ∷ xs) (suc zero) id s lt ch h here = absurd (omega arith)
  rounds_reach (x ∷ xs) (suc (suc n)) id s lt ch h here =
      let s₁ : Pd O.Cache = record s { sent = (x.node_id, req) ∷ s.sent } in
      rw (ch.0) (
        Reached-by _ _ (round_at (suc n) x.node_id s h.0.0 here) (
          after_redirect x.node_id (leader_rounds O out (suc n) rd req) s₁
            (out.respond (length s.sent) x.node_id req) here (h.0.1 (length s.sent))
            (Chain-IsKnown (get_next_node_id x.node_id rd) xs ch.1 h.1)
            (rounds_reach xs (suc n) (get_next_node_id x.node_id rd) s₁ (omega arith) ch.1 h.1 here)
            (at_leader n s₁ here)))

  chain_lem :
      (xs done suf : List ReplicaDescriptor) (l : ReplicaDescriptor)
      → rd.replicas ≡ done ++ (xs ++ l ∷ suf)
      → Distinct rd.replicas
      → l.node_id ≡ leader
      → (id : ℤ)
      → ((y : ReplicaDescriptor) (ys : List ReplicaDescriptor)
          → xs ++ l ∷ suf ≡ y ∷ ys
          → id ≡ y.node_id)
      → Chain id xs
  chain_lem [] done suf l e h f id at_head = at_head l suf refl ∙ f
  chain_lem (x ∷ xs) done suf l e h f id at_head = (
    at_head x (xs ++ l ∷ suf) refl,
    chain_lem xs (done ++ x ∷ []) suf l (e ∙ sym (append_assoc done (x ∷ []) (xs ++ l ∷ suf))) h f
        (get_next_node_id x.node_id rd)
        (λ y ys g. get_next_node_id_lem rd done ys x y (e ∙ ap (λ t. done ++ x ∷ t) g) h),
  )

-- A request to a range whose replicas are on different nodes reaches its leader if, from the first
-- replica up to the leader's, there are at most twenty nodes, each fails the call, does not have
-- the range or names the leader, all these nodes and the leader's are known, the leader answers
-- without an error, and the map of ranges has the descriptor at its place: its response is returned,
-- and the descriptor there has the leader's replica and the first one in each other's place.
pub send_to_leader-reaches :
    (O : OrderedCache) (out : Outside) (s : Pd O.Cache) (r : ℕ) (rd : RangeDescriptor)
    (req : NodeRequest) (resp : NodeResponse) (pre suf : List ReplicaDescriptor)
    (l : ReplicaDescriptor)
    → get_elem? s.ranges.objects r ≡ some rd
    → rd.replicas ≡ pre ++ l ∷ suf
    → Distinct rd.replicas
    → length pre ≤ 20
    → leb_ℤ l.node_id (pos 0) ≡ false
    → IsKnown s.cluster l.node_id
    → ((t : ℕ) → out.respond t l.node_id req ≡ answered none resp)
    → All
        (λ (x : ReplicaDescriptor).
          IsKnown s.cluster x.node_id
          × ((t : ℕ) → Redirects l.node_id (out.respond t x.node_id req)))
        pre
    → find eq_ℤ rd.range_id s.ranges.ranges ≡ some r
    → (s' : Pd O.Cache) × (send_to_leader O out r req s ≡ (ok resp, s'))
      × (get_elem? s'.ranges.objects r ≡ some (record rd { replicas = swapped pre l suf }))
unfolding send_to_leader descriptor ask_first
send_to_leader-reaches O out s r rd req resp pre suf l found reps apart few positive there leads
      helps placed =
    let c : RangeCache O.Cache = record s.ranges {
      objects = modify r (leader_first l.node_id) s.ranges.objects;
    } in
    let adjusted : adjust_leader O rd.range_id l.node_id s.ranges ≡ some c =
      unfold adjust_leader in ground (arith, placed) in
    elim (List-cases rd.replicas) [
      | inl f ↦ absurd (omega (arith, ap length f, ap length reps, length-append pre (l ∷ suf)))
      | inr (first, rest, f) ↦
          let (s', e, g) =
            rounds_reach O out s.cluster s.ranges c rd req l.node_id resp positive there leads
              adjusted pre 21 first.node_id s (omega arith)
              (chain_lem O out s.cluster s.ranges c rd req l.node_id resp positive there leads
                adjusted pre [] suf l reps apart refl first.node_id
                (λ y ys h. ground (arith, sym f ∙ reps ∙ h)))
              helps (refl, refl) in
          (
            s',
            ground (arith, found, f, e),
            ap (λ (x : RangeCache O.Cache). get_elem? x.objects r) g
                ∙ leader_first-swapped r s.ranges.objects rd pre suf l found reps apart,
          )
    ]
