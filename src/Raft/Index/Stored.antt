-- ===== src/Raft/Index/Stored.antt =====
-- What is loaded after the indices were set.
use ancestor.Common.{
  Bytes, ℕ, some, ◌≡◌, arith, ◌<◌, ◌^◌, ap, ◌∙◌, inl, inr, Option-cases, bytes_equal_refl, refl, [],
}
use ancestor.Common.Int.{int64, uint64-int64, int64-IsInt64}
use ancestor.Engine.{Engine, done}
use ancestor.Meta.Message.{Value}
use ancestor.Meta.Value.{set_int, no_value, get-set}
use ancestor.Meta.Exec.{>>=-ok, ok}
use ancestor.Raft.State.{Raft, RaftCodec, put_db, put_db-done, get_db, get_db-found}
use ancestor.Raft.Keys.{raft_applied_index_key, raft_last_index_key}
use ancestor.Raft.Keys.Order.{index_keys_differ}
use ancestor.Raft.Index.{
  load_raft_prev_index, index_or_zero, read_index, load_applied_index, load_last_index,
  set_applied_index, set_last_index,
}

module _ (E : Engine) (C : RaftCodec) where
  -- The value of an index that was set.
  abbrev index_value : ℕ → Value
  index_value n = set_int (int64 n) no_value

  pub set_last_index-done :
      (n : ℕ) (s s' : Raft E)
      → set_last_index E C n s ≡ (ok tt, s')
      → (s' ≡ record s { db = s'.db; last_index = n })
        × (b : Bytes) × (E.put s.db (raft_last_index_key s.range_id) b ≡ done s'.db)
        × (C.unmarshal_value b ≡ some (index_value n))
  unfolding set_last_index
  set_last_index-done n s s' h = elim (Option-cases (C.marshal_value (index_value n))) [
    | inl m ↦ absurd (ground (arith, h, m))
    | inr (b, m) ↦
        let t = record s { last_index = n } in
        let written : put_db E (raft_last_index_key s.range_id) b t ≡ (ok tt, s') =
          ground (arith, h, m) in
        let (db, p, same) = put_db-done E (raft_last_index_key s.range_id) b t s' written in
        rw same (refl, b, p, C.value_round_trip (index_value n) b m)
  ]

  pub set_applied_index-done :
      (n : ℕ) (s s' : Raft E)
      → set_applied_index E C n s ≡ (ok tt, s')
      → (s' ≡ record s { db = s'.db; applied_index = n })
        × (b : Bytes) × (E.put s.db (raft_applied_index_key s.range_id) b ≡ done s'.db)
        × (C.unmarshal_value b ≡ some (index_value n))
  unfolding set_applied_index
  set_applied_index-done n s s' h = elim (Option-cases (C.marshal_value (index_value n))) [
    | inl m ↦ absurd (ground (arith, h, m))
    | inr (b, m) ↦
        let t = record s { applied_index = n } in
        let written : put_db E (raft_applied_index_key s.range_id) b t ≡ (ok tt, s') =
          ground (arith, h, m) in
        let (db, p, same) = put_db-done E (raft_applied_index_key s.range_id) b t s' written in
        rw same (refl, b, p, C.value_round_trip (index_value n) b m)
  ]

  read-index_value :
      (n : ℕ) (b : Bytes) (s : Raft E)
      → n < 2 ^ 64
      → C.unmarshal_value b ≡ some (index_value n)
      → read_index E C (some b) s ≡ (ok n, s)
  unfolding read_index
  read-index_value n b s small u =
      let (int, _, _, _) = get-set (int64 n) [] no_value (int64-IsInt64 n) in
      ground (arith, u, int, uint64-int64 n small)

  load_last-stored :
      (b : Bytes) (n : ℕ) (s : Raft E)
      → E.get s.db (raft_last_index_key s.range_id) ≡ done (some b)
      → read_index E C (some b) s ≡ (ok n, s)
      → load_last_index E C s ≡ (ok n, s)
  unfolding load_last_index
  load_last-stored b n s g r =
      >>=-ok (get_db E (raft_last_index_key s.range_id)) (read_index E C) (some b) s s
        (get_db-found E _ (some b) s g)
      ∙ r

  load_applied-stored :
      (b : Bytes) (n : ℕ) (s : Raft E)
      → E.get s.db (raft_applied_index_key s.range_id) ≡ done (some b)
      → read_index E C (some b) s ≡ (ok n, s)
      → load_applied_index E C s ≡ (ok n, s)
  unfolding load_applied_index
  load_applied-stored b n s g r =
      >>=-ok (get_db E (raft_applied_index_key s.range_id)) (read_index E C) (some b) s s
        (get_db-found E _ (some b) s g)
      ∙ r

  load_raft_prev_index-loaded :
      (n m : ℕ) (q : Raft E)
      → load_last_index E C q ≡ (ok n, q)
      → load_applied_index E C q ≡ (ok m, q)
      → ((load_raft_prev_index E C q).last_index ≡ n)
        × ((load_raft_prev_index E C q).applied_index ≡ m)
  unfolding load_raft_prev_index index_or_zero
  load_raft_prev_index-loaded n m q last applied =
      (rw (ap (λ p. p.0) last) refl, rw (ap (λ p. p.0) applied) refl)

  -- After the last index and then the applied index are set, every number of 64 bits, the fields hold
  -- them, and any replica of the range that starts on the engine loads them, whatever its fields were.
  pub load-set_indices :
      (n m : ℕ) (s s₁ s₂ q : Raft E)
      → n < 2 ^ 64
      → m < 2 ^ 64
      → set_last_index E C n s ≡ (ok tt, s₁)
      → set_applied_index E C m s₁ ≡ (ok tt, s₂)
      → q.db ≡ s₂.db
      → q.range_id ≡ s₂.range_id
      → (s₂.last_index ≡ n)
        × (s₂.applied_index ≡ m)
        × (load_last_index E C q ≡ (ok n, q))
        × (load_applied_index E C q ≡ (ok m, q))
        × ((load_raft_prev_index E C q).last_index ≡ n)
        × ((load_raft_prev_index E C q).applied_index ≡ m)
  load-set_indices n m s s₁ s₂ q hn hm set_last set_applied same_db same_id =
      let (same₁, b, put_last, last) = set_last_index-done n s s₁ set_last in
      let (same₂, c, put_applied, applied) = set_applied_index-done m s₁ s₂ set_applied in
      let id₁ : s₁.range_id ≡ s.range_id = ap (λ q. q.range_id) same₁ in
      let id₂ : s₂.range_id ≡ s₁.range_id = ap (λ q. q.range_id) same₂ in
      let (_, _, other, _, _) = index_keys_differ s₁.range_id 0 in
      let at_last =
        E.get-put s.db s₁.db (raft_last_index_key s.range_id) (raft_last_index_key s.range_id) b
          put_last in
      let over_last =
        E.get-put s₁.db s₂.db (raft_applied_index_key s₁.range_id) (raft_last_index_key s₁.range_id)
          c put_applied in
      let at_applied =
        E.get-put s₁.db s₂.db (raft_applied_index_key s₁.range_id)
          (raft_applied_index_key s₁.range_id) c put_applied in
      let last_there : E.get s₂.db (raft_last_index_key s₂.range_id) ≡ done (some b) = rw (id₂) (
        over_last
        ∙ rw (other, id₁)
            (at_last ∙ rw (bytes_equal_refl (raft_last_index_key s.range_id)) refl)) in
      let applied_there : E.get s₂.db (raft_applied_index_key s₂.range_id) ≡ done (some c) =
        rw (id₂) (at_applied ∙ rw (bytes_equal_refl (raft_applied_index_key s₁.range_id)) refl) in
      let loads_last : load_last_index E C q ≡ (ok n, q) =
        load_last-stored b n q (rw (same_db, same_id) last_there)
          (read-index_value n b q hn last) in
      let loads_applied : load_applied_index E C q ≡ (ok m, q) =
        load_applied-stored c m q (rw (same_db, same_id) applied_there)
          (read-index_value m c q hm applied) in
      let (prev_last, prev_applied) = load_raft_prev_index-loaded n m q loads_last loads_applied in
      (
        ap (λ q. q.last_index) same₂ ∙ ap (λ q. q.last_index) same₁,
        ap (λ q. q.applied_index) same₂,
        loads_last,
        loads_applied,
        prev_last,
        prev_applied,
      )
