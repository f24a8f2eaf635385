-- ===== src/Pd/Send/Turned.antt =====
-- What a request to a leader does to the ranges: it puts a replica of one before its others.
use ancestor.Common.{
  Bytes, ℕ, zero, suc, Option, none, some, List, [], ◌∷◌, ◌≡◌, refl, sym, ◌∙◌, ap, length, arith,
  get_elem?, Option-cases, inl, inr, bytes_less, subst, List-cases,
}
use ancestor.Common.Int.{ℤ, eq_ℤ}
use ancestor.Meta.Message.{Error}
use ancestor.Meta.Exec.{Exec, Result, ok, err, panic, ◌>>=◌, pure, >>=-ok, >>=-panic}
use ancestor.Store.{RangeDescriptor}
use ancestor.Pd.Cluster.{node_of, find}
use ancestor.Pd.Ranges.{
  OrderedCache, RangeCache, adjust_leader, modify, leader_first, index_of, contains, lookup,
}
use ancestor.Pd.Ranges.Held.{held}
use ancestor.Pd.Ranges.Search.{IsRouted}
use ancestor.Pd.State.{
  Pd, Outside, NodeRequest, NodeResponse, Answer, no_client, call_failed, answered,
}
use ancestor.Pd.Send.{
  get_next_node_id, leader_rounds, after_answer, next_leader, address_of, call_node,
  remember_leader, ask_first, descriptor, send_to_leader,
}

-- A descriptor without its replicas.
abbrev pub bounds : Option RangeDescriptor → Option (ℤ × Bytes × Bytes)
bounds none = none
bounds (some rd) = some (rd.range_id, rd.start_key, rd.end_key)

bounds-leader_first :
    (node : ℤ) (rd : RangeDescriptor) → bounds (some (leader_first node rd)) ≡ bounds (some rd)
unfolding leader_first
bounds-leader_first node rd = elim (Option-cases (index_of node rd.replicas)) [
  | inl e ↦ ground (arith, e)
  | inr (i, e) ↦ ground (arith, e)
]

bounds-modify :
    (r : ℕ) (node : ℤ) (l : List RangeDescriptor) (i : ℕ)
    → bounds (get_elem? (modify r (leader_first node) l) i) ≡ bounds (get_elem? l i)
unfolding modify
bounds-modify r node [] i = refl
bounds-modify zero node (x ∷ l) zero = bounds-leader_first node x
bounds-modify zero node (x ∷ l) (suc i) = refl
bounds-modify (suc r) node (x ∷ l) zero = refl
bounds-modify (suc r) node (x ∷ l) (suc i) = bounds-modify r node l i

length-modify :
    (r : ℕ) (node : ℤ) (l : List RangeDescriptor)
    → length (modify r (leader_first node) l) ≡ length l
unfolding modify
length-modify r node [] = refl
length-modify zero node (x ∷ l) = refl
length-modify (suc r) node (x ∷ l) = omega (arith, length-modify r node l)

module _ (O : OrderedCache) where
  -- The cache is the same up to the order of replicas.
  pub record IsTurned (c c' : RangeCache O.Cache) : Type 0 where
    pub same_cache : c'.cache ≡ c.cache
    pub same_ranges : c'.ranges ≡ c.ranges
    pub same_length : length c'.objects ≡ length c.objects
    pub same_bounds : (i : ℕ) → bounds (get_elem? c'.objects i) ≡ bounds (get_elem? c.objects i)

  pub IsTurned-refl : (c : RangeCache O.Cache) → IsTurned c c
  IsTurned-refl c = record {
    same_cache = refl;
    same_ranges = refl;
    same_length = refl;
    same_bounds = λ i. refl;
  }

  pub IsTurned-trans : (a b c : RangeCache O.Cache) → IsTurned a b → IsTurned b c → IsTurned a c
  IsTurned-trans a b c h g = record {
    same_cache = g.same_cache ∙ h.same_cache;
    same_ranges = g.same_ranges ∙ h.same_ranges;
    same_length = g.same_length ∙ h.same_length;
    same_bounds = λ i. g.same_bounds i ∙ h.same_bounds i;
  }

  adjust-IsTurned :
      (id node : ℤ) (c c' : RangeCache O.Cache)
      → adjust_leader O id node c ≡ some c'
      → IsTurned c c'
  unfolding adjust_leader
  adjust-IsTurned id node c c' h = elim (Option-cases (find eq_ℤ id c.ranges)) [
    | inl e ↦ absurd (ground (arith, e, h))
    | inr (r, e) ↦
        let f : record c { objects = modify r (leader_first node) c.objects } ≡ c' =
          ground (arith, e, h) in
        subst (IsTurned c) f (record {
          same_cache = refl;
          same_ranges = refl;
          same_length = length-modify r node c.objects;
          same_bounds = λ i. bounds-modify r node c.objects i;
        })
  ]

  pub bounds-held :
      (c c' : RangeCache O.Cache) (k : Bytes)
      → IsTurned c c'
      → bounds (held O k c') ≡ bounds (held O k c)
  unfolding held
  bounds-held c c' k t = elim (Option-cases (O.get k c.cache)) [
    | inl e ↦ ground (arith, e, t.same_cache)
    | inr (r, e) ↦ ground (arith, e, t.same_cache, t.same_bounds r)
  ]

  pub bounds-lookup :
      (c c' : RangeCache O.Cache) (key : Bytes)
      → IsTurned c c'
      → bounds (lookup O key c') ≡ bounds (lookup O key c)
  unfolding lookup contains
  bounds-lookup c c' key t = elim (Option-cases (O.floor key c.cache)) [
    | inl e ↦ ground (arith, e, t.same_cache)
    | inr ((k, r), e) ↦ elim (Option-cases (get_elem? c.objects r)) [
      | inl f ↦ elim (Option-cases (get_elem? c'.objects r)) [
        | inl g ↦ ground (arith, e, f, g, t.same_cache)
        | inr (b, g) ↦ absurd (ground (arith, f, g, t.same_bounds r))
      ]
      | inr (a, f) ↦ elim (Option-cases (get_elem? c'.objects r)) [
        | inl g ↦ absurd (ground (arith, f, g, t.same_bounds r))
        | inr (b, g) ↦ ground (arith, e, f, g, t.same_cache, t.same_bounds r)
      ]
    ]
  ]

  pub bounds-some :
      (o : Option RangeDescriptor) (a : RangeDescriptor)
      → bounds (some a) ≡ bounds o
      → (b : RangeDescriptor) × (o ≡ some b)
        × (b.start_key ≡ a.start_key)
        × (b.end_key ≡ a.end_key)
        × (b.range_id ≡ a.range_id)
  bounds-some none a h = absurd (cc h)
  bounds-some (some b) a h = (b, refl, ground (arith, h), ground (arith, h), ground (arith, h))

  held-before :
      (c c' : RangeCache O.Cache) (k : Bytes) (a : RangeDescriptor)
      → IsTurned c c'
      → held O k c' ≡ some a
      → (b : RangeDescriptor) × (held O k c ≡ some b)
        × (b.start_key ≡ a.start_key)
        × (b.end_key ≡ a.end_key)
        × (b.range_id ≡ a.range_id)
  held-before c c' k a t h = bounds-some (held O k c) a (ap bounds (sym h) ∙ bounds-held c c' k t)

  pub turned-IsRouted : (c c' : RangeCache O.Cache) → IsTurned c c' → IsRouted O c → IsRouted O c'
  turned-IsRouted c c' t w = record {
    whole =
        λ k r h. omega (arith, w.whole k r (ap (O.get k) (sym t.same_cache) ∙ h), t.same_length);
    keyed = λ k a h. let (b, e, f, _, _) = held-before c c' k a t h in sym f ∙ w.keyed k b e;
    apart = λ j k a b h g lt.
        let (a₀, e, _, f, _) = held-before c c' j a t h in
        let (b₀, e', _, _, _) = held-before c c' k b t g in
        ap (bytes_less k) (sym f) ∙ w.apart j k a₀ b₀ e e' lt;
  }

  -- A request that returns a response has it from a node.
  abbrev pub Replied : Outside → NodeRequest → Result NodeResponse → Type 0
  Replied out req (ok resp) = (t : ℕ) × (id : ℤ) × (out.respond t id req ≡ answered none resp)
  Replied out req (err e) = Unit
  Replied out req panic = Unit

  abbrev pub IsSent : Outside → NodeRequest → Pd O.Cache → Result NodeResponse × Pd O.Cache → Type 0
  IsSent out req s x = IsTurned s.ranges x.1.ranges × Replied out req x.0

module _ (O : OrderedCache) (out : Outside) (rd : RangeDescriptor) (req : NodeRequest) where
  remembered-IsSent :
      (id : ℤ) (again : ℤ → Exec (Pd O.Cache) NodeResponse) (s : Pd O.Cache) (resp : NodeResponse)
      → Replied O out req (ok resp)
      → IsSent O out req s (after_answer O out rd id again (answered none resp) s)
  unfolding after_answer
  remembered-IsSent id again s resp h =
      elim (Option-cases (adjust_leader O rd.range_id id s.ranges)) [
        | inl e ↦
            let f : remember_leader O out rd.range_id id s ≡ (panic, s) =
              unfold remember_leader in ground (arith, e) in
            subst (IsSent O out req s)
              (sym (>>=-panic (remember_leader O out rd.range_id id) (λ _. pure resp) s s f))
              (IsTurned-refl O s.ranges, tt)
        | inr (c, e) ↦
            let f : remember_leader O out rd.range_id id s ≡ (ok tt, record s { ranges = c }) =
              unfold remember_leader in ground (arith, e) in
            subst (IsSent O out req s)
              (sym (>>=-ok (remember_leader O out rd.range_id id) (λ _. pure resp) tt s _ f))
              (adjust-IsTurned O rd.range_id id s.ranges c e, h)
      ]

  -- The switch on an error changes nothing.
  next_leader_state : (id : ℤ) (e : Error) (s : Pd O.Cache) → (next_leader O out rd id e s).1 ≡ s
  unfolding next_leader address_of
  next_leader_state id (Error.range_not_found i) s =
      elim (Option-cases (node_of (get_next_node_id id rd) s.cluster)) [
        | inl f ↦ ground (arith, f)
        | inr (n, f) ↦ ground (arith, f)
      ]
  next_leader_state id (Error.not_leader i) s = refl
  next_leader_state id _ s = refl

  abbrev Sends : (ℤ → Exec (Pd O.Cache) NodeResponse) → Type 0
  Sends again = (id : ℤ) (s : Pd O.Cache) → IsSent O out req s (again id s)

  next-IsSent :
      (again : ℤ → Exec (Pd O.Cache) NodeResponse) (s : Pd O.Cache) (x : Result ℤ × Pd O.Cache)
      → Sends again
      → x.1 ≡ s
      → IsSent O out req s (elim x.0 as (λ _. Result NodeResponse × Pd O.Cache) [
        | ok id ↦ again id x.1
        | err e ↦ (err e, x.1)
        | panic ↦ (panic, x.1)
      ])
  next-IsSent again s (ok id, q) h e = rw e (h id s)
  next-IsSent again s (err f, q) h e = rw e (IsTurned-refl O s.ranges, tt)
  next-IsSent again s (panic, q) h e = rw e (IsTurned-refl O s.ranges, tt)

  after_answer-IsSent :
      (id : ℤ) (again : ℤ → Exec (Pd O.Cache) NodeResponse) (s : Pd O.Cache) (t : ℕ) (a : Answer)
      → Sends again
      → out.respond t id req ≡ a
      → IsSent O out req s (after_answer O out rd id again a s)
  after_answer-IsSent id again s t no_client h e =
      unfold after_answer in (IsTurned-refl O s.ranges, tt)
  after_answer-IsSent id again s t call_failed h e =
      unfold after_answer in h (get_next_node_id id rd) s
  after_answer-IsSent id again s t (answered none resp) h e =
      remembered-IsSent id again s resp (t, id, e)
  after_answer-IsSent id again s t (answered (some f) resp) h e =
      unfold after_answer in
      next-IsSent again s (next_leader O out rd id f s) h (next_leader_state id f s)

  rounds-IsSent : (n : ℕ) → Sends (leader_rounds O out n rd req)
  unfolding leader_rounds address_of call_node
  rounds-IsSent zero id s = (IsTurned-refl O s.ranges, tt)
  rounds-IsSent (suc n) id s = elim (Option-cases (node_of id s.cluster)) [
    | inl e ↦ rw (e, ◌>>=◌) (IsTurned-refl O s.ranges, tt)
    | inr (nd, e) ↦
        rw (e, ◌>>=◌)
          (after_answer-IsSent id (leader_rounds O out n rd req)
            (record s { sent = (id, req) ∷ s.sent }) (length s.sent) _ (rounds-IsSent n) refl)
  ]

  ask_first-IsSent : (s : Pd O.Cache) → IsSent O out req s (ask_first O out req rd s)
  ask_first-IsSent s = elim (List-cases rd.replicas) [
    | inl h ↦
        let f : ask_first O out req rd s ≡ (panic, s) = unfold ask_first in ground (arith, h) in
        subst (IsSent O out req s) (sym f) (IsTurned-refl O s.ranges, tt)
    | inr (first, rest, h) ↦
        let f : ask_first O out req rd s ≡ leader_rounds O out 21 rd req first.node_id s =
          unfold ask_first in ground (arith, h) in
        subst (IsSent O out req s) (sym f) (rounds-IsSent 21 first.node_id s)
  ]

-- A request to the leader of a range leaves the ranges as they were up to the order of replicas,
-- and what it returns a node responded.
pub send_to_leader-IsSent :
    (O : OrderedCache) (out : Outside) (r : ℕ) (req : NodeRequest) (s : Pd O.Cache)
    → IsSent O out req s (send_to_leader O out r req s)
unfolding send_to_leader
send_to_leader-IsSent O out r req s = elim (Option-cases (get_elem? s.ranges.objects r)) [
  | inl e ↦
      let f : descriptor O out r s ≡ (panic, s) = unfold descriptor in ground (arith, e) in
      subst (IsSent O out req s) (sym (>>=-panic (descriptor O out r) (ask_first O out req) s s f))
        (IsTurned-refl O s.ranges, tt)
  | inr (rd, e) ↦
      let f : descriptor O out r s ≡ (ok rd, s) = unfold descriptor in ground (arith, e) in
      subst (IsSent O out req s) (sym (>>=-ok (descriptor O out r) (ask_first O out req) rd s s f))
        (ask_first-IsSent O out rd req s)
]
