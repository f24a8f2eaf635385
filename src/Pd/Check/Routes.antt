-- ===== src/Pd/Check/Routes.antt =====
-- After a split the placement driver routes each key to its half.
use ancestor.Common.{
  Bytes, ℕ, none, some, List, [], ◌∷◌, ◌≡◌, sym, ◌∙◌, ap, arith, subst, bytes_less, if◌then◌else◌,
  Bool-cases, inl, inr, Option-cases,
}
use ancestor.Common.Int.{ℤ}
use ancestor.Meta.Exec.{Result, ok, pure, >>=-eq-ok}
use ancestor.Meta.Stats.{RangeStats}
use ancestor.Store.{RangeDescriptor}
use ancestor.Pd.Ranges.{OrderedCache, RangeCache, contains, lookup, add_ranges}
use ancestor.Pd.Ranges.Held.{held}
use ancestor.Pd.Ranges.Search.{IsRouted}
use ancestor.Pd.Ranges.Halves.{IsSplit, lookup-split, split-IsRouted}
use ancestor.Pd.State.{
  NodeRequest, Pd, Outside, NodeResponse, split_request, split_response, answered,
}
use ancestor.Pd.Send.{send_to_leader}
use ancestor.Pd.Send.Turned.{
  bounds, bounds-some, bounds-held, bounds-lookup, IsTurned, IsTurned-trans, turned-IsRouted,
  send_to_leader-IsSent, Replied,
}
use ancestor.Pd.Region.{new_id, get_range_descriptor, set_range_descriptors, master_put}
use ancestor.Pd.Check.{
  request_split, ask_split, send_split, after_split, split_descs, record_split,
  update_range_descriptor,
}

-- A node that answers the request to split has split the range at the key: the half up to it has the
-- new id, the half from it on keeps the old one.
abbrev pub SplitsAt : Outside → RangeDescriptor → ℤ → Bytes → ℤ → ℤ → Type 0
SplitsAt out rd range_id key bytes n =
    (t : ℕ) (node id : ℤ) (resp : NodeResponse)
    → out.respond t node (split_request range_id key id bytes n) ≡ answered none resp
    → (prev : RangeDescriptor) × (post : RangeDescriptor) × (l : List RangeDescriptor) × (resp
        ≡ split_response (prev ∷ post ∷ l))
      × IsSplit rd prev post
      × (post.start_key ≡ key)
      × (prev.range_id ≡ id)
      × (post.range_id ≡ range_id)

module _ (O : OrderedCache) (out : Outside) where
  new_id-ranges : (s s' : Pd O.Cache) (id : ℤ) → new_id O out s ≡ (ok id, s') → s'.ranges ≡ s.ranges
  unfolding new_id
  new_id-ranges s s' id h = ground (arith, h)

  new_id-fresh :
      (s s' : Pd O.Cache) (id : ℤ) → new_id O out s ≡ (ok id, s') → out.fresh_id s.ids ≡ some id
  unfolding new_id
  new_id-fresh s s' id h = elim (Option-cases (out.fresh_id s.ids)) [
    | inl e ↦ absurd (ground (arith, e, h))
    | inr (i, e) ↦ ground (arith, e, h)
  ]

  get_range-state :
      (id : ℤ) (s s' : Pd O.Cache) (r : ℕ)
      → get_range_descriptor O out id s ≡ (ok r, s')
      → s'.ranges ≡ s.ranges
  unfolding get_range_descriptor
  get_range-state id s s' r h = ground (arith, h)

  split_descs-eq-ok :
      (resp : NodeResponse) (s s' : Pd O.Cache) (d : RangeDescriptor × RangeDescriptor)
      (prev post : RangeDescriptor) (l : List RangeDescriptor)
      → resp ≡ split_response (prev ∷ post ∷ l)
      → split_descs O out resp s ≡ (ok d, s')
      → (d ≡ (prev, post)) × (s'.ranges ≡ s.ranges)
  unfolding split_descs
  split_descs-eq-ok resp s s' d prev post l e h =
      let whole : split_descs O out (split_response (prev ∷ post ∷ l)) s ≡ (ok d, s') =
        ap (λ x. split_descs O out x s) (sym e) ∙ h in
      (ground (arith, whole), ground (arith, whole))

  set_range_descriptors-eq-ok :
      (rds : List RangeDescriptor) (s s' : Pd O.Cache)
      → set_range_descriptors O out rds s ≡ (ok tt, s')
      → s'.ranges ≡ add_ranges O rds s.ranges
  unfolding set_range_descriptors master_put
  set_range_descriptors-eq-ok rds s s' h = elim (Bool-cases (out.accepts s.writes)) [
    | inl e ↦ ground (arith, e, h)
    | inr e ↦ absurd (ground (arith, e, h))
  ]

  sent-IsTurned :
      (r : ℕ) (req : NodeRequest) (s s' : Pd O.Cache) (resp : NodeResponse)
      → send_to_leader O out r req s ≡ (ok resp, s')
      → IsTurned O s.ranges s'.ranges × Replied O out req (ok resp)
  sent-IsTurned r req s s' resp h =
      subst (λ x. IsTurned O s.ranges x.1.ranges × Replied O out req x.0) h
        (send_to_leader-IsSent O out r req s)

  update-IsTurned :
      (nrd : RangeDescriptor) (r : ℕ) (s s' : Pd O.Cache)
      → update_range_descriptor O out nrd r s ≡ (ok tt, s')
      → IsTurned O s.ranges s'.ranges
  unfolding update_range_descriptor
  update-IsTurned nrd r s s' h =
      let (resp, s₁, e, f) =
        >>=-eq-ok (send_to_leader O out r (NodeRequest.update_range_request nrd)) (λ _. pure tt) tt
          s s' h in
      subst (λ (x : Pd O.Cache). IsTurned O s.ranges x.ranges)
        (ap (λ (x : Result (Unit {0}) × Pd O.Cache). x.1) f)
        (sent-IsTurned r (NodeRequest.update_range_request nrd) s s₁ resp e).0

  -- The cache before the two descriptors are added.
  record_split-eq-ok :
      (r : ℕ) (prev post : RangeDescriptor) (s s' : Pd O.Cache)
      → record_split O out r (prev, post) s ≡ (ok tt, s')
      → (c : RangeCache O.Cache) × IsTurned O s.ranges c
        × (s'.ranges ≡ add_ranges O (post ∷ prev ∷ []) c)
  unfolding record_split
  record_split-eq-ok r prev post s s' h =
      let (u, s₁, e, f) =
        >>=-eq-ok (update_range_descriptor O out post r)
          (λ _. set_range_descriptors O out (post ∷ prev ∷ [])) tt s s' h in
      (s₁.ranges, update-IsTurned post r s s₁ e, set_range_descriptors-eq-ok _ s₁ s' f)

  -- What requestSplit has done when it succeeds.
  request_split-eq-ok :
      (rsi : RangeStats) (rd : RangeDescriptor) (key : Bytes) (bytes n : ℤ) (s s' : Pd O.Cache)
      → SplitsAt out rd rsi.range_id key bytes n
      → request_split O out rsi key bytes n s ≡ (ok tt, s')
      → (prev : RangeDescriptor) × (post : RangeDescriptor) × (c : RangeCache O.Cache) × IsSplit rd
          prev post
        × (post.start_key ≡ key)
        × (out.fresh_id s.ids ≡ some prev.range_id)
        × (post.range_id ≡ rsi.range_id)
        × IsTurned O s.ranges c
        × (s'.ranges ≡ add_ranges O (post ∷ prev ∷ []) c)
  unfolding request_split ask_split send_split after_split
  request_split-eq-ok rsi rd key bytes n s s' splits h =
      let (id, s₁, e₁, h₁) = >>=-eq-ok (new_id O out) (ask_split O out rsi key bytes n) tt s s' h in
      let (r, s₂, e₂, h₂) =
        >>=-eq-ok (get_range_descriptor O out rsi.range_id) (send_split O out rsi key bytes n id) tt
          s₁ s' h₁ in
      let (resp, s₃, e₃, h₃) =
        >>=-eq-ok (send_to_leader O out r (split_request rsi.range_id key id bytes n))
          (after_split O out r) tt s₂ s' h₂ in
      let (turned, replied) =
        sent-IsTurned r (split_request rsi.range_id key id bytes n) s₂ s₃ resp e₃ in
      let (prev, post, l, same, sp, at, made, old) = splits replied.0 replied.1 id resp replied.2 in
      let (d, s₄, e₄, h₄) = >>=-eq-ok (split_descs O out resp) (record_split O out r) tt s₃ s' h₃ in
      let (pair, kept) = split_descs-eq-ok resp s₃ s₄ d prev post l same e₄ in
      let (c, turned', final) =
        record_split-eq-ok r prev post s₄ s'
          (ap (λ x. record_split O out r x s₄) (sym pair) ∙ h₄) in
      let before : s₂.ranges ≡ s.ranges =
        get_range-state rsi.range_id s₁ s₂ r e₂ ∙ new_id-ranges s s₁ id e₁ in
      (
        prev,
        post,
        c,
        sp,
        at,
        new_id-fresh s s₁ id e₁ ∙ ap some (sym made),
        old,
        IsTurned-trans O s.ranges s₃.ranges c (subst (λ x. IsTurned O x s₃.ranges) before turned)
            (subst (λ x. IsTurned O x c) kept turned'),
        final,
      )

  -- The split of a descriptor is one of the same descriptor with other replicas.
  IsSplit-turned :
      (rd rd' prev post : RangeDescriptor)
      → rd'.start_key ≡ rd.start_key
      → rd'.end_key ≡ rd.end_key
      → IsSplit rd prev post
      → IsSplit rd' prev post
  IsSplit-turned rd rd' prev post e f sp = record {
    above = ap (λ x. bytes_less x post.start_key) e ∙ sp.above;
    below = ap (bytes_less post.start_key) f ∙ sp.below;
    same_start = sp.same_start ∙ sym e;
    meet = sp.meet;
    same_end = sp.same_end ∙ sym f;
  }

  contains_turned :
      (rd rd' : RangeDescriptor) (q : Bytes)
      → rd'.start_key ≡ rd.start_key
      → rd'.end_key ≡ rd.end_key
      → contains rd' q ≡ contains rd q
  unfolding contains
  contains_turned rd rd' q e f = ground (arith, e, f)

  halves_lem :
      (rd rd' prev post : RangeDescriptor) (key q : Bytes) (old_id : ℤ) (c c' : RangeCache O.Cache)
      → rd'.start_key ≡ rd.start_key
      → rd'.end_key ≡ rd.end_key
      → IsSplit rd prev post
      → post.start_key ≡ key
      → post.range_id ≡ old_id
      → bounds (lookup O q c') ≡ bounds (lookup O q c)
      → bounds (
          if contains rd' q
          then some (if bytes_less q post.start_key then prev else post)
          else lookup O q c')
        ≡ (if contains rd q
            then some (
                if bytes_less q key
                then (prev.range_id, rd.start_key, key)
                else (old_id, key, rd.end_key))
            else bounds (lookup O q c))
  halves_lem rd rd' prev post key q old_id c c' e f sp at kept same =
      elim (Bool-cases (contains rd q)) [
        | inl g ↦ elim (Bool-cases (bytes_less q key)) [
          | inl h ↦ ground (arith, g, h, at, contains_turned rd rd' q e f, sp.same_start, sp.meet)
          | inr h ↦ ground (arith, g, h, at, contains_turned rd rd' q e f, sp.same_end, kept)
        ]
        | inr g ↦ ground (arith, g, same, contains_turned rd rd' q e f)
      ]

-- If every node that answers the request to split has split the range at the key, and the cache of
-- ranges is routed, a split that succeeds leaves it routed, gives the keys of the old range below the
-- key to a range with the id that the allocator gave and those from it on to the old id, each with
-- its bounds, and looks up all other keys as before, up to the replicas of the range found.
pub request_split-routes :
    (O : OrderedCache) (out : Outside) (rsi : RangeStats) (rd : RangeDescriptor) (key : Bytes)
    (bytes n : ℤ) (s s' : Pd O.Cache)
    → IsRouted O s.ranges
    → held O rd.start_key s.ranges ≡ some rd
    → SplitsAt out rd rsi.range_id key bytes n
    → request_split O out rsi key bytes n s ≡ (ok tt, s')
    → (id : ℤ) × (out.fresh_id s.ids ≡ some id)
      × IsRouted O s'.ranges
      × ((q : Bytes)
          → bounds (lookup O q s'.ranges) ≡ (
              if contains rd q
              then some (
                  if bytes_less q key
                  then (id, rd.start_key, key)
                  else (rsi.range_id, key, rd.end_key))
              else bounds (lookup O q s.ranges)))
request_split-routes O out rsi rd key bytes n s s' routed known splits h =
    let (prev, post, c, sp, at, fresh, kept, turned, final) =
      request_split-eq-ok O out rsi rd key bytes n s s' splits h in
    let w : IsRouted O c = turned-IsRouted O s.ranges c turned routed in
    let (rd', there, e, f, _) =
      bounds-some O (held O rd.start_key c) rd
        (ap bounds (sym known) ∙ sym (bounds-held O s.ranges c rd.start_key turned)) in
    let there' : held O rd'.start_key c ≡ some rd' = ap (λ x. held O x c) e ∙ there in
    let sp' : IsSplit rd' prev post = IsSplit-turned O out rd rd' prev post e f sp in
    (
      prev.range_id,
      fresh,
      subst (IsRouted O) (sym final) (split-IsRouted O c rd' prev post w there' sp'),
      λ q.
          ap (λ x. bounds (lookup O q x)) final
          ∙ (ap bounds (lookup-split O c rd' prev post w there' sp' q)
              ∙ halves_lem O out rd rd' prev post key q rsi.range_id s.ranges c e f sp at kept
                  (bounds-lookup O s.ranges c q turned)),
    )
