-- ===== src/Store/Registered.antt =====
-- Every replica of a store has statistics that count.
use ancestor.Common.{
  Bool, true, false, List, ◌∷◌, Option, none, some, ◌≡◌, ◌≢◌, refl, arith, sym, ◌∙◌, inl, inr,
  Bool-cases, Option-cases, ◌⊎◌,
}
use ancestor.Common.Int.{ℤ, pos, eq_ℤ}
use ancestor.Meta.Message.{Error, already_exist}
use ancestor.Meta.Stats.{RangeStats}
use ancestor.Meta.Exec.{>>=-err, >>=-ok, ◌>>=◌, ◌>>◌, pure, Exec, Result, ok, err, panic}
use ancestor.Store.{
  Store, Replica, RangeDescriptor, RootRequest, create_replica_request, remove_replica_request,
  other_request, set_at, execute_root_cmd, create_replica, add_range_stats, add_replica,
  new_replica, execute_create_replica, execute_remove_replica, delete_replica, stop_raft,
  set_removed, is_exist_node,
}

pub set_at-same :
    {A : Type 0} (id j : ℤ) (a : Option A) (m : ℤ → Option A)
    → eq_ℤ id j ≡ true
    → set_at id a m j ≡ a
unfolding set_at
set_at-same id j a m h = rw h refl

pub set_at-other :
    {A : Type 0} (id j : ℤ) (a : Option A) (m : ℤ → Option A)
    → eq_ℤ id j ≡ false
    → set_at id a m j ≡ m j
unfolding set_at
set_at-other id j a m h = rw h refl

eq_trans : (a b c : ℤ) → eq_ℤ a b ≡ true → eq_ℤ b c ≡ true → eq_ℤ a c ≡ true
eq_trans a b c h k = ground arith

pub eq_refl : (a : ℤ) → eq_ℤ a a ≡ true
eq_refl a = ground arith

-- A replica stands at its own id, and the statistics of its range are there and not removed.
abbrev pub Registered : Store → Type 0
Registered s =
    (id : ℤ) (r : Replica)
    → s.replicas id ≡ some r
    → (eq_ℤ r.range_id id ≡ true)
      × (rs : RangeStats) × (s.range_stats id ≡ some rs)
      × (rs.is_removed ≡ false)

-- The state after a call satisfies this, and the call has not panicked.
abbrev pub Kept : {A : Type 0} → Result A × Store → Type 0
Kept x = Registered x.1 × (x.0 ≢ panic)

abbrev continue : {A B : Type 0} → (A → Exec Store B) → Result A × Store → Result B × Store
continue f x = elim x.0 [ ok a ↦ f a x.1 | err e ↦ (err e, x.1) | panic ↦ (panic, x.1) ]

continue-Kept :
    {A B : Type 0} (f : A → Exec Store B) (x : Result A × Store)
    → Kept x
    → ((a : A) (s : Store) → Registered s → Kept (f a s))
    → Kept (continue f x)
continue-Kept f (ok a, s) kept next = next a s kept.0
continue-Kept f (err e, s) kept next = (kept.0, λ p. cc p)
continue-Kept f (panic, s) kept next = absurd (kept.1 refl)

Kept-bind :
    {A B : Type 0} (m : Exec Store A) (f : A → Exec Store B) (s : Store)
    → Kept (m s)
    → ((a : A) (s : Store) → Registered s → Kept (f a s))
    → Kept ((m >>= f) s)
Kept-bind m f s kept next = continue-Kept f (m s) kept next

-- A new replica with statistics of its own.
add-Registered :
    (id : ℤ) (r : Replica) (rs : RangeStats) (s : Store)
    → eq_ℤ r.range_id id ≡ true
    → rs.is_removed ≡ false
    → Registered s
    → Registered (record s {
      replicas = set_at id (some r) s.replicas;
      range_stats = set_at id (some rs) s.range_stats;
    })
add-Registered id r rs s here counts reg j q there = elim (Bool-cases (eq_ℤ id j)) [
  | inl e ↦
      let same : r ≡ q = ground (arith, there, set_at-same id j (some r) s.replicas e) in
      (
        rw (← same) (eq_trans r.range_id id j here e),
        rs,
        set_at-same id j (some rs) s.range_stats e,
        counts,
      )
  | inr e ↦
      let (own, st, found, kept) =
        reg j q (sym (set_at-other id j (some r) s.replicas e) ∙ there) in
      (own, st, set_at-other id j (some rs) s.range_stats e ∙ found, kept)
]

-- A replica that goes, with its statistics marked.
remove-Registered :
    (id : ℤ) (rs : RangeStats) (s : Store) (l : List ℤ)
    → Registered s
    → Registered (record s {
      replicas = set_at id none s.replicas;
      range_stats = set_at id (some rs) s.range_stats;
      stopped = l;
    })
remove-Registered id rs s l reg j q there = elim (Bool-cases (eq_ℤ id j)) [
  | inl e ↦ absurd (cc (there, set_at-same id j none s.replicas e))
  | inr e ↦
      let (own, st, found, kept) = reg j q (sym (set_at-other id j none s.replicas e) ∙ there) in
      (own, st, set_at-other id j (some rs) s.range_stats e ∙ found, kept)
]

pub fresh_stats : Store → ℤ → RangeStats
fresh_stats s id = elim (s.range_stats id) [
  | some rs ↦ record rs { is_removed = false }
  | none ↦ record {
    node_id = s.node_id;
    range_id = id;
    total_bytes = pos 0;
    total_count = pos 0;
    is_raft_leader = false;
    is_removed = false;
  }
]

fresh_stats-counts : (s : Store) (id : ℤ) → (fresh_stats s id).is_removed ≡ false
unfolding fresh_stats
fresh_stats-counts s id = elim (Option-cases (s.range_stats id)) [
  | inl e ↦ rw (fresh_stats, e) refl
  | inr (rs, e) ↦ rw (fresh_stats, e) refl
]

add_range_stats-eq :
    (s : Store) (id : ℤ)
    → add_range_stats id s
      ≡ (ok tt, record s { range_stats = set_at id (some (fresh_stats s id)) s.range_stats })
unfolding add_range_stats fresh_stats
add_range_stats-eq s id = elim (Option-cases (s.range_stats id)) [
  | inl e ↦ rw (add_range_stats, fresh_stats, e) refl
  | inr (rs, e) ↦ rw (add_range_stats, fresh_stats, e) refl
]

module _ (start_group : RangeDescriptor → Bool → Option Error) where
  -- What createReplica comes to.
  pub create_replica-cases :
      (rd : RangeDescriptor) (need_load : Bool) (s : Store)
      → ((e : Error) × (create_replica start_group rd need_load s ≡ (err e, s)))
        ⊎ (let r : Replica = record { range_id = rd.range_id; range_desc = rd } in
            (s.replicas rd.range_id ≡ none)
            × (create_replica start_group rd need_load s ≡ (
              ok r,
              record s {
                replicas = set_at rd.range_id (some r) s.replicas;
                range_stats = set_at rd.range_id (some (fresh_stats s rd.range_id)) s.range_stats;
              },
            )))
  unfolding create_replica new_replica add_replica
  create_replica-cases rd need_load s = elim (Option-cases (s.replicas rd.range_id)) [
    | inr (r, e) ↦ inl (Error.failure already_exist, rw (create_replica, e) refl)
    | inl e ↦ elim (Option-cases (start_group rd need_load)) [
      | inr (x, f) ↦
          let next : Replica → Exec Store Replica =
            λ r. add_range_stats rd.range_id >> (add_replica rd.range_id r >> pure r) in
          inl (
            x,
            rw (create_replica, e)
                (>>=-err (new_replica start_group rd need_load) next x s s
                  (rw (new_replica, f) refl)),
          )
      | inl f ↦
          let r : Replica = record { range_id = rd.range_id; range_desc = rd } in
          let started : new_replica start_group rd need_load s ≡ (ok r, s) =
            rw (new_replica, f) refl in
          let last : Replica → Exec Store Replica = λ r. add_replica rd.range_id r >> pure r in
          inr (
            e,
            rw (create_replica, e)
                (>>=-ok (new_replica start_group rd need_load)
                    (λ r. add_range_stats rd.range_id >> last r) r s s started
                  ∙ >>=-ok (add_range_stats rd.range_id) (λ _. last r) tt s
                      (record s {
                        range_stats =
                            set_at rd.range_id (some (fresh_stats s rd.range_id)) s.range_stats;
                      })
                      (add_range_stats-eq s rd.range_id)),
          )
    ]
  ]

  pub create_replica-Kept :
      (rd : RangeDescriptor) (need_load : Bool) (s : Store)
      → Registered s
      → Kept (create_replica start_group rd need_load s)
  create_replica-Kept rd need_load s reg = elim (create_replica-cases rd need_load s) [
    | inl (e, h) ↦ rw h (reg, λ p. cc p)
    | inr (there, h) ↦ rw h (
      add-Registered rd.range_id (record { range_id = rd.range_id; range_desc = rd })
          (fresh_stats s rd.range_id) s (eq_refl rd.range_id) (fresh_stats-counts s rd.range_id)
          reg,
      λ p. cc p,
    )
  ]

  execute_create-Kept :
      (id : ℤ) (rd : RangeDescriptor) (s : Store)
      → Registered s
      → Kept (execute_create_replica start_group id rd s)
  unfolding execute_create_replica
  execute_create-Kept id rd s reg = elim (Option-cases (s.replicas id)) [
    | inr (r, e) ↦ rw (execute_create_replica, e) (reg, λ p. cc p)
    | inl e ↦
        rw (execute_create_replica, e)
          (Kept-bind (create_replica start_group rd true) (λ _. pure tt) s
            (create_replica-Kept rd true s reg) (λ r s₁ reg₁. (reg₁, λ p. cc p)))
  ]

  remove_found :
      (id : ℤ) (r : Replica) (rs : RangeStats) (s : Store)
      → s.replicas id ≡ some r
      → s.range_stats id ≡ some rs
      → (delete_replica id >> (stop_raft id >> set_removed id)) s ≡ (
        ok tt,
        record s {
          replicas = set_at id none s.replicas;
          range_stats = set_at id (some (record rs { is_removed = true })) s.range_stats;
          stopped = id ∷ s.stopped;
        },
      )
  unfolding delete_replica stop_raft set_removed
  remove_found id r rs s e found =
      >>=-ok (delete_replica id) (λ _. stop_raft id >> set_removed id) tt s
        (record s { replicas = set_at id none s.replicas }) (rw (delete_replica, e) refl)
      ∙ rw (set_removed, found) refl

  execute_remove-Kept :
      (id node : ℤ) (s : Store) → Registered s → Kept (execute_remove_replica start_group id node s)
  unfolding execute_remove_replica
  execute_remove-Kept id node s reg = elim (Option-cases (s.replicas id)) [
    | inl e ↦ rw (execute_remove_replica, e) (reg, λ p. cc p)
    | inr (r, e) ↦ elim (Bool-cases (is_exist_node node r.range_desc.replicas)) [
      | inr f ↦ rw (execute_remove_replica, e, f) (reg, λ p. cc p)
      | inl f ↦
          let (own, rs, found, counts) = reg id r e in
          let gone = record rs { is_removed = true } in
          rw (execute_remove_replica, e, f, remove_found id r rs s e found)
            (remove-Registered id gone s (id ∷ s.stopped) reg, λ p. cc p)
    ]
  ]

  -- A request to the store never panics, and after it, whatever it answers, every replica stands at
  -- its own id and has statistics that are not removed, when this held before.
  pub execute_root_cmd-Registered :
      (req : RootRequest) (s : Store)
      → Registered s
      → Registered (execute_root_cmd start_group req s).1
        × ((execute_root_cmd start_group req s).0 ≢ panic)
  unfolding execute_root_cmd
  execute_root_cmd-Registered (create_replica_request id rd) s reg = execute_create-Kept id rd s reg
  execute_root_cmd-Registered (remove_replica_request id node) s reg =
      execute_remove-Kept id node s reg
  execute_root_cmd-Registered other_request s reg = (reg, λ p. cc p)
