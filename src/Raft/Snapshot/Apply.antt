-- ===== src/Raft/Snapshot/Apply.antt =====
-- The range of a replica after a snapshot is applied.
use ancestor.Common.{
  Bytes, List, [], ◌∷◌, some, ◌≡◌, bytes_less, true, arith, refl, ap, ◌∙◌, sym, inl, inr,
  Bool-cases, length, ◌⊎◌, none, false, bytes_equal_iff,
}
use ancestor.Engine.{get-clear_other, Engine, done, Outcome-cases}
use ancestor.Meta.Exec.{ok, >>=-eq-ok, ◌>>◌, Exec, or_raise, >>=-ok}
use ancestor.Raft.State.{Raft, RaftCodec, put_db, clear_db}
use ancestor.Raft.Index.{set_last_index, set_applied_index}
use ancestor.Raft.Snapshot.{
  Snapshot, clear_keys, clear, write_keys, apply_snapshot, update_range_stats, pos, apply_keys,
  unmarshal_data,
}
use ancestor.Raft.Snapshot.Visit.{written, Without}

module _ (E : Engine) (C : RaftCodec) where
  -- The first round of each loop.
  write_keys-first :
      (k v : Bytes) (rest : List (Bytes × Bytes)) (s s' : Raft E)
      → write_keys E C ((k, v) ∷ rest) s ≡ (ok tt, s')
      → (db : E.Db) × (E.put s.db k v ≡ done db)
        × (write_keys E C rest
              (record s { db = db; stats = update_range_stats 0 0 (length k) (length v) s.stats })
            ≡ (ok tt, s'))
  unfolding write_keys put_db
  write_keys-first k v rest s s' h = elim (Outcome-cases (E.put s.db k v)) [
    | inl p ↦ absurd (ground (arith, h, p))
    | inr (db, p) ↦ (db, p, ground (arith, h, p))
  ]

  clear_keys-first :
      (end k v : Bytes) (rest : List (Bytes × Bytes)) (s s' : Raft E)
      → bytes_less k end ≡ true
      → clear_keys E C end ((k, v) ∷ rest) s ≡ (ok tt, s')
      → (db : E.Db) × (E.clear s.db k ≡ done db)
        × (clear_keys E C end rest (record s { db = db }) ≡ (ok tt, s'))
  unfolding clear_keys clear_db
  clear_keys-first end k v rest s s' below h = elim (Outcome-cases (E.clear s.db k)) [
    | inl p ↦ absurd (ground (arith, h, p, below))
    | inr (db, p) ↦ (db, p, ground (arith, h, p, below))
  ]

  pub write_keys-effect :
      (l : List (Bytes × Bytes)) (s s' : Raft E)
      → write_keys E C l s ≡ (ok tt, s')
      → (s' ≡ record s { db = s'.db; stats = s'.stats })
        × ((j : Bytes) → E.get s'.db j ≡ written l j (E.get s.db j))
  unfolding write_keys
  write_keys-effect [] s s' h = let e : s ≡ s' = ap (λ q. q.1) h in rw (← e) (refl, λ j. refl)
  write_keys-effect ((k, v) ∷ rest) s s' h =
      let (db, p, later) = write_keys-first k v rest s s' h in
      let t = record s { db = db; stats = update_range_stats 0 0 (length k) (length v) s.stats } in
      let (same, after) = write_keys-effect rest t s' later in
      (same, λ j. after j ∙ ap (written rest j) (E.get-put s.db db k j v p))

  -- The loop of clear removes keys or leaves them, and leaves those that it does not visit.
  pub clear_keys-effect :
      (end j : Bytes) (l : List (Bytes × Bytes)) (s s' : Raft E)
      → clear_keys E C end l s ≡ (ok tt, s')
      → (s' ≡ record s { db = s'.db })
        × ((E.get s'.db j ≡ E.get s.db j) ⊎ (E.get s'.db j ≡ done none))
        × (Without j l ⊎ (bytes_less j end ≡ false) → E.get s'.db j ≡ E.get s.db j)
  unfolding clear_keys
  clear_keys-effect end j [] s s' h =
      let e : s ≡ s' = ap (λ q. q.1) h in rw (← e) (refl, inl refl, λ _. refl)
  clear_keys-effect end j ((k, v) ∷ rest) s s' h = elim (Bool-cases (bytes_less k end)) [
    | inr past ↦ let e : s ≡ s' = ground (arith, h, past) in rw (← e) (refl, inl refl, λ _. refl)
    | inl below ↦
        let (db, p, later) = clear_keys-first end k v rest s s' below h in
        let (same, some_left, kept) =
          clear_keys-effect end j rest (record s { db = db }) s' later in
        (
          same,
          elim some_left [
            | inr gone ↦ inr gone
            | inl left ↦ elim (E.get-clear s.db db k j p) [
              | inl e ↦ inl (left ∙ e)
              | inr e ↦ inr (left ∙ e.1)
            ]
          ],
          λ where_. elim where_ [
            | inl w ↦ kept (inl w.1) ∙ get-clear_other E s.db db k j w.0 p
            | inr out ↦
                kept (inr out)
                ∙ get-clear_other E s.db db k j (ground (arith, below, out, bytes_equal_iff k j)) p
          ],
        )
  ]

  -- The parts of applySnapshot.
  pub apply_snapshot-parts :
      (snap : Snapshot) (l : List (Bytes × Bytes)) (s s' : Raft E)
      → C.unmarshal_key_values snap.content ≡ some l
      → apply_snapshot E C snap s ≡ (ok tt, s')
      → (s₁ : Raft E) × (s₂ : Raft E) × (s₃ : Raft E) × (s₄ : Raft E) × (clear_keys E C s.end_key
            (E.forward s.db s.start_key)
            s
          ≡ (ok tt, s₁))
        × (write_keys E C l
              (record s₁ { stats = record s₁.stats { total_bytes = pos 0; total_count = pos 0 } })
            ≡ (ok tt, s₂))
        × (set_last_index E C snap.index s₂ ≡ (ok tt, s₃))
        × (set_applied_index E C snap.index s₃ ≡ (ok tt, s₄))
        × (s' ≡ record s₄ { truncate_index = snap.index; truncate_term = snap.term })
  unfolding apply_snapshot apply_keys clear
  apply_snapshot-parts snap l s s' u h =
      let reset : Exec (Raft E) Unit = λ s.
        (ok tt, record s { stats = record s.stats { total_bytes = pos 0; total_count = pos 0 } }) in
      let last : Exec (Raft E) Unit =
        λ s. (ok tt, record s { truncate_index = snap.index; truncate_term = snap.term }) in
      let after_applied : Exec (Raft E) Unit = set_applied_index E C snap.index >> last in
      let after_last : Exec (Raft E) Unit = set_last_index E C snap.index >> after_applied in
      let after_write : Exec (Raft E) Unit = write_keys E C l >> after_last in
      let read = or_raise (C.unmarshal_key_values snap.content) unmarshal_data in
      let go : apply_keys E C snap l s ≡ (ok tt, s') =
        sym (>>=-ok read (apply_keys E C snap) l s s (rw u refl)) ∙ h in
      let (_, s₁, a, h₁) = >>=-eq-ok (clear E C) (λ _. reset >> after_write) tt s s' go in
      let t = record s₁ { stats = record s₁.stats { total_bytes = pos 0; total_count = pos 0 } } in
      let (_, s₂, b, h₂) = >>=-eq-ok (write_keys E C l) (λ _. after_last) tt t s' h₁ in
      let (_, s₃, c, h₃) =
        >>=-eq-ok (set_last_index E C snap.index) (λ _. after_applied) tt s₂ s' h₂ in
      let (_, s₄, d, h₄) = >>=-eq-ok (set_applied_index E C snap.index) (λ _. last) tt s₃ s' h₃ in
      (s₁, s₂, s₃, s₄, a, b, c, d, sym (ap (λ q. q.1) h₄))
