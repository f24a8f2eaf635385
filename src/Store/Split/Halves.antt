-- ===== src/Store/Split/Halves.antt =====
-- The two halves of a split, and their statistics.
use ancestor.Common.{
  Bytes, Bool, true, false, List, [], ◌∷◌, Option, none, some, ◌≡◌, inl, inr, refl, arith, ap, ◌∙◌,
  sym, ◌&&◌, ◌||◌, bytes_less, Bool-cases,
}
use ancestor.Common.Int.{ℤ, IsInt64, eq_ℤ, add_int64}
use ancestor.Meta.Message.{Error}
use ancestor.Meta.Stats.{RangeStats}
use ancestor.Meta.Exec.{>>=-err, >>=-ok, Exec, Result, ok, err, ◌>>=◌, ◌>>◌, pure}
use ancestor.Replica.{validate_key_range}
use ancestor.Store.{Store, Replica, RangeDescriptor, set_at, create_replica}
use ancestor.Store.Registered.{
  set_at-same, set_at-other, create_replica-cases, fresh_stats, eq_refl,
}
use ancestor.Meta.Message.{invalid_range}
use ancestor.Store.Split.{
  split_valid, prev_desc, post_desc, SplitRequest, split, make_range_desc, fill_range_stats,
  set_range_stats, split_valid, prev_desc,
}
use ancestor.Store.Split.Parts.{
  holds, validate-parts, add_sub_int64, eq_sym, eq_ℤ→eq, fill_range_stats-eq, new_stats, old_stats,
}

set_range_stats-state :
    (l : List RangeStats) (s : Store)
    → (t : Store) × (set_range_stats l s ≡ (ok tt, t))
      × (t.range_stats ≡ s.range_stats)
      × (t.replicas ≡ s.replicas)
unfolding set_range_stats
set_range_stats-state [] s = (s, refl, refl, refl)
set_range_stats-state (x ∷ l) s = (record s { uploaded = (x ∷ l) ∷ s.uploaded }, refl, refl, refl)

module _ (start_group : RangeDescriptor → Bool → Option Error) (r : Replica)
    (req : SplitRequest) where
  abbrev made : Replica
  made = record { range_id = req.new_range_id; range_desc = prev_desc r req }

  -- The store once the replica of the new range is made.
  abbrev created : Store → Store
  created s = record s {
    replicas = set_at req.new_range_id (some made) s.replicas;
    range_stats = set_at req.new_range_id (some (fresh_stats s req.new_range_id)) s.range_stats;
  }

  -- The statistics once they are split.
  abbrev split_stats : RangeStats → Store → ℤ → Option RangeStats
  split_stats rs s =
      set_at r.range_id (some (old_stats req.new_range_bytes req.new_range_count rs)) (
        set_at req.new_range_id
          (some
            (new_stats req.new_range_bytes req.new_range_count (fresh_stats s req.new_range_id)))
          (created s).range_stats)

  split-guard :
      (s s' : Store) (ds : List RangeDescriptor)
      → split start_group r req s ≡ (ok ds, s')
      → (validate_key_range r.range_desc.start_key r.range_desc.end_key req.split_key ≡ true)
        × (split_valid start_group r req s ≡ (ok ds, s'))
  unfolding split
  split-guard s s' ds h = elim (Bool-cases (eq_ℤ r.range_id req.range_id)) [
    | inr e ↦
        let failed : split start_group r req s ≡ (err (Error.failure invalid_range), s) =
          rw (split, e) refl in
        absurd (cc (h, failed))
    | inl e ↦
        elim (Bool-cases
          (validate_key_range r.range_desc.start_key r.range_desc.end_key req.split_key)) [
            | inr f ↦
                let failed : split start_group r req s ≡ (err (Error.failure invalid_range), s) =
                  rw (split, e, f) refl in
                absurd (cc (h, failed))
            | inl f ↦
                let yes : split start_group r req s ≡ split_valid start_group r req s =
                  rw (split, e, f) refl in
                (f, sym yes ∙ h)
          ]
  ]

  -- The new range is not the old one.
  new_differs :
      (s : Store)
      → s.replicas req.new_range_id ≡ none
      → s.replicas r.range_id ≡ some r
      → eq_ℤ req.new_range_id r.range_id ≡ false
  new_differs s absent here = elim (Bool-cases (eq_ℤ req.new_range_id r.range_id)) [
    | inl e ↦ absurd (cc (absent, here, eq_ℤ→eq req.new_range_id r.range_id e))
    | inr e ↦ e
  ]

  -- What a split comes to when the new range has no replica yet.
  split_valid-eq :
      (rs : RangeStats) (s : Store)
      → s.replicas req.new_range_id ≡ none
      → s.replicas r.range_id ≡ some r
      → s.range_stats r.range_id ≡ some rs
      → create_replica start_group (prev_desc r req) false s ≡ (ok made, created s)
      → (t : Store) × (split_valid start_group r req s
          ≡ (ok (prev_desc r req ∷ post_desc r req ∷ []), t))
        × (t.range_stats ≡ split_stats rs s)
        × (t.replicas ≡ (created s).replicas)
  unfolding split_valid
  split_valid-eq rs s absent here stats creates =
      let ne = new_differs s absent here in
      let (l, filled) =
        fill_range_stats-eq req.new_range_bytes req.new_range_count r.range_id req.new_range_id
          (fresh_stats s req.new_range_id) rs (created s) ne
          (set_at-same req.new_range_id req.new_range_id (some (fresh_stats s req.new_range_id))
            s.range_stats (eq_refl req.new_range_id))
          (set_at-other req.new_range_id r.range_id (some (fresh_stats s req.new_range_id))
              s.range_stats ne
            ∙ stats) in
      let s₂ : Store = record (created s) { range_stats = split_stats rs s } in
      let (t, sets, same_stats, same_replicas) = set_range_stats-state l s₂ in
      let descs = prev_desc r req ∷ post_desc r req ∷ [] in
      let answer : Exec Store (List RangeDescriptor) = pure descs in
      let fill =
        fill_range_stats r.range_id req.new_range_id req.new_range_bytes req.new_range_count in
      (
        t,
        >>=-ok (create_replica start_group (prev_desc r req) false)
              (λ _. fill >>= λ st. set_range_stats st >> answer) made s (created s) creates
            ∙ (>>=-ok fill (λ st. set_range_stats st >> answer) l (created s) s₂ filled
                ∙ >>=-ok (set_range_stats l) (λ _. answer) tt s₂ t sets),
        same_stats,
        same_replicas,
      )

  split_valid-err :
      (e : Error) (s : Store)
      → create_replica start_group (prev_desc r req) false s ≡ (err e, s)
      → split_valid start_group r req s ≡ (err e, s)
  unfolding split_valid
  split_valid-err e s h =
      let fill =
        fill_range_stats r.range_id req.new_range_id req.new_range_bytes req.new_range_count in
      >>=-err (create_replica start_group (prev_desc r req) false)
        (λ _. fill >>= λ st. set_range_stats st >> pure (prev_desc r req ∷ post_desc r req ∷ [])) e
        s s h

ok_injective :
    {A : Type 0} {a b : A} {s t : Store} → ◌≡◌ {A = Result A × Store} (ok a, s) (ok b, t) → a ≡ b
ok_injective h = ground (arith, h)

-- When a split succeeds on a replica of the store whose statistics are there, at a key above the
-- start of the range, its answer is two ranges to one of which each key of the range belongs, never
-- to both, and no other key; the first of them has a new replica; and the statistics of the two add
-- up to those of the range, if all four numbers are int64.
pub split-halves :
    (start_group : RangeDescriptor → Bool → Option Error) (r : Replica) (req : SplitRequest)
    (rs : RangeStats) (s s' : Store) (ds : List RangeDescriptor)
    → s.replicas r.range_id ≡ some r
    → s.range_stats r.range_id ≡ some rs
    → IsInt64 rs.total_bytes
    → IsInt64 rs.total_count
    → IsInt64 req.new_range_bytes
    → IsInt64 req.new_range_count
    → bytes_less r.range_desc.start_key req.split_key ≡ true
    → split start_group r req s ≡ (ok ds, s')
    → (prev : RangeDescriptor) × (post : RangeDescriptor) × (new : RangeStats) × (old : RangeStats)
      × (ds ≡ prev ∷ post ∷ [])
      × ((key : Bytes)
          → (holds r.range_desc key ≡ (holds prev key || holds post key))
            × ((holds prev key && holds post key) ≡ false))
      × (s'.replicas req.new_range_id
          ≡ some (record { range_id = req.new_range_id; range_desc = prev }))
      × (s'.range_stats req.new_range_id ≡ some new)
      × (s'.range_stats r.range_id ≡ some old)
      × (add_int64 old.total_bytes new.total_bytes ≡ rs.total_bytes)
      × (add_int64 old.total_count new.total_count ≡ rs.total_count)
unfolding make_range_desc
split-halves start_group r req rs s s' ds here stats hb hc hnb hnc above h =
    let (valid, rest) = split-guard start_group r req s s' ds h in
    let id = req.new_range_id in
    elim (create_replica-cases start_group (prev_desc r req) false s) [
      | inl (e, refused) ↦ absurd (cc (rest, split_valid-err start_group r req e s refused))
      | inr (absent, creates) ↦
          let (t, ends, same_stats, same_replicas) =
            split_valid-eq start_group r req rs s absent here stats creates in
          let ne = new_differs start_group r req s absent here in
          let state : t ≡ s' = ap (λ q. q.1) (sym ends ∙ rest) in
          let answer : prev_desc r req ∷ post_desc r req ∷ [] ≡ ds =
            ok_injective (sym ends ∙ rest) in
          rw (← answer, ← state)
            (
              prev_desc r req,
              post_desc r req,
              new_stats req.new_range_bytes req.new_range_count (fresh_stats s id),
              old_stats req.new_range_bytes req.new_range_count rs,
              refl,
              λ key.
                  validate-parts r.range_desc.start_key req.split_key r.range_desc.end_key key above
                    valid,
              ap (λ (m : ℤ → Option Replica). m id) same_replicas
                  ∙ set_at-same id id (some (made start_group r req)) s.replicas (eq_refl id),
              ap (λ (m : ℤ → Option RangeStats). m id) same_stats
                  ∙ (set_at-other r.range_id id
                        (some (old_stats req.new_range_bytes req.new_range_count rs)) _
                        (eq_sym id r.range_id ne)
                      ∙ set_at-same id id _ _ (eq_refl id)),
              ap (λ (m : ℤ → Option RangeStats). m r.range_id) same_stats
                  ∙ set_at-same r.range_id r.range_id _ _ (eq_refl r.range_id),
              add_sub_int64 rs.total_bytes req.new_range_bytes hb hnb,
              add_sub_int64 rs.total_count req.new_range_count hc hnc,
            )
    ]
