-- ===== src/Raft/Log/Compact.antt =====
-- compact, against a log that is a function of the index.
use ancestor.Common.{
  Bytes, ℕ, List, [], ◌∷◌, none, ◌≡◌, ◌<◌, ◌^◌, arith, ◌≢◌, bytes_less, true, false, if◌then◌else◌,
  bytes_equal, inl, inr, Bool-cases, ◌⊎◌, ◌∙◌, refl, bytes_equal_iff, bytes_less_total,
  bytes_less_trans, bytes_less→not_equal, sym, Bool, Option-cases, ◌≤◌,
}
use ancestor.Engine.{Engine, done, Outcome-cases}
use ancestor.Meta.Key.{bytes_next}
use ancestor.Raft.Log.{
  clear_batch, compact, commit_offset, Raft, ok, raft_offset_index_key, raft_log_key, set_int,
  int64, no_value,
}
use ancestor.Raft.Keys.Order.{index_keys_differ, log_key_order}
use ancestor.Raft.Log.Stored.{stored, stored-none, stored-same, stored-put_other}
use ancestor.Raft.Keys.Next.{less-bytes_next, bytes_next_ne_nil, log_key_ne_nil}
use ancestor.Raft.State.{RaftCodec}

module _ (E : Engine) (C : RaftCodec) (end : Bytes) where
  -- One round of the iteration clears a key below the end and leaves the other keys.
  pub clear_batch-step :
      (k v : Bytes) (rest : List (Bytes × Bytes)) (b b' : E.Db)
      → bytes_less k end ≡ true
      → clear_batch E C end ((k, v) ∷ rest) b ≡ done b'
      → (b₁ : E.Db) × (clear_batch E C end rest b₁ ≡ done b')
        × ((j : Bytes) → E.get b₁ j ≡ (if bytes_equal k j then done none else E.get b j))
  unfolding clear_batch
  clear_batch-step k v rest b b' below h = elim (Outcome-cases (E.clear_in_batch b k)) [
    | inl e ↦ absurd (ground (arith, h, e, below))
    | inr (b₁, e) ↦ (b₁, ground (arith, h, e, below), λ j. E.get-clear_in_batch b b₁ k j e)
  ]

  pub clear_batch-round :
      (k v : Bytes) (rest : List (Bytes × Bytes)) (b b₁ : E.Db)
      → bytes_less k end ≡ true
      → E.clear_in_batch b k ≡ done b₁
      → clear_batch E C end ((k, v) ∷ rest) b ≡ clear_batch E C end rest b₁
  unfolding clear_batch
  clear_batch-round k v rest b b₁ below h = rw (clear_batch, below, h) refl

  clear_batch-stop :
      (k v : Bytes) (rest : List (Bytes × Bytes)) (b b' : E.Db)
      → bytes_less k end ≡ false
      → clear_batch E C end ((k, v) ∷ rest) b ≡ done b'
      → b ≡ b'
  unfolding clear_batch
  clear_batch-stop k v rest b b' past h = ground (arith, h, past)

  clear_batch-nil : (b b' : E.Db) → clear_batch E C end [] b ≡ done b' → b ≡ b'
  unfolding clear_batch
  clear_batch-nil b b' h = ground (arith, h)

  -- What is not there stays so, and what is not below the end stays.
  pub clear_batch-keeps :
      (j : Bytes) (l : List (Bytes × Bytes)) (b b' : E.Db)
      → (E.get b j ≡ done none) ⊎ (bytes_less j end ≡ false)
      → clear_batch E C end l b ≡ done b'
      → E.get b' j ≡ E.get b j
  clear_batch-keeps j [] b b' or h = rw (clear_batch-nil b b' h) refl
  clear_batch-keeps j ((k, v) ∷ rest) b b' or h = elim (Bool-cases (bytes_less k end)) [
    | inr past ↦ rw (clear_batch-stop k v rest b b' past h) refl
    | inl below ↦
        let (b₁, h₁, same) = clear_batch-step k v rest b b' below h in
        let here : E.get b₁ j ≡ E.get b j =
          ground (arith, same j, or, below, bytes_equal_iff k j) in
        let or₁ : (E.get b₁ j ≡ done none) ⊎ (bytes_less j end ≡ false) = elim or [
          | inl e ↦ inl (here ∙ e)
          | inr e ↦ inr e
        ] in
        clear_batch-keeps j rest b₁ b' or₁ h₁ ∙ here
  ]

  -- Between the key from which the iterator runs and the end nothing is left.
  pub clear_batch-clears :
      (db : E.Db) (j k : Bytes) (l : List (Bytes × Bytes)) (b b' : E.Db)
      → E.forward db k ≡ l
      → k ≢ []
      → bytes_less j k ≡ false
      → bytes_less j end ≡ true
      → (E.get b j ≡ done none) ⊎ (E.get b j ≡ E.get db j)
      → clear_batch E C end l b ≡ done b'
      → E.get b' j ≡ done none
  clear_batch-clears db j k [] b b' from ne ge lt or h =
      let none_there = E.forward-nil db k j from ge ne in
      let gone : E.get b j ≡ done none = elim or [ inl e ↦ e | inr e ↦ e ∙ none_there ] in
      clear_batch-keeps j [] b b' (inl gone) h ∙ gone
  clear_batch-clears db j k ((i, v) ∷ rest) b b' from ne ge lt or h = elim (bytes_less_total j i) [
    | inl less ↦
        let none_there = E.forward-first db k j i v rest from ge less ne in
        let gone : E.get b j ≡ done none = elim or [ inl e ↦ e | inr e ↦ e ∙ none_there ] in
        clear_batch-keeps j ((i, v) ∷ rest) b b' (inl gone) h ∙ gone
    | inr (inl same) ↦
        let (b₁, h₁, here) = clear_batch-step i v rest b b' (rw (← same) lt) h in
        let gone : E.get b₁ j ≡ done none = ground (arith, here j, bytes_equal_iff i j, same) in
        clear_batch-keeps j rest b₁ b' (inl gone) h₁ ∙ gone
    | inr (inr more) ↦
        let (found, ge_i, next) = E.forward-cons db k i v rest from in
        let below = bytes_less_trans i j end more lt in
        let (b₁, h₁, here) = clear_batch-step i v rest b b' below h in
        let or₁ : (E.get b₁ j ≡ done none) ⊎ (E.get b₁ j ≡ E.get db j) = elim or [
          | inl e ↦ inl (here j ∙ rw (bytes_less→not_equal i j more) e)
          | inr e ↦ inr (here j ∙ rw (bytes_less→not_equal i j more) e)
        ] in
        clear_batch-clears db j (bytes_next i) rest b₁ b' (sym next) (bytes_next_ne_nil i)
          (less-bytes_next j i ∙ rw more refl) lt or₁ h₁
  ]

module _ (E : Engine) (C : RaftCodec) where
  commit_offset-parts :
      (index : ℕ) (accepted : Bool) (batch : E.Db) (s s' : Raft E)
      → commit_offset E C index accepted batch s ≡ (ok tt, s')
      → (b : Bytes) × (E.put batch (raft_offset_index_key s.range_id) b ≡ done s'.db)
        × (s' ≡ record s { db = s'.db; offset_index = index })
  unfolding commit_offset
  commit_offset-parts index accepted batch s s' h =
      elim (Option-cases (C.marshal_value (set_int (int64 index) no_value))) [
        | inl m ↦ absurd (ground (arith, h, m))
        | inr (b, m) ↦ elim (Outcome-cases (E.put batch (raft_offset_index_key s.range_id) b)) [
          | inl p ↦ absurd (ground (arith, h, m, p))
          | inr (db, p) ↦ elim (Bool-cases accepted) [
            | inr a ↦ absurd (ground (arith, h, m, p, a))
            | inl a ↦
                let same : record s { db = db; offset_index = index } ≡ s' =
                  ground (arith, h, m, p, a) in
                rw (← same) (b, p, refl)
          ]
        ]
      ]

  compact-parts :
      (index : ℕ) (accepted : Bool) (s s' : Raft E)
      → index < 10 ^ 16
      → compact E C index accepted s ≡ (ok tt, s')
      → (batch : E.Db) × (clear_batch E C
            (raft_log_key s.range_id index)
            (E.forward s.db (raft_log_key s.range_id 0))
            s.db
          ≡ done batch)
        × (commit_offset E C index accepted batch s ≡ (ok tt, s'))
  unfolding compact
  compact-parts index accepted s s' small h =
      let order = log_key_order s.range_id 0 index (omega arith) small in
      let from = raft_log_key s.range_id 0 in
      let end = raft_log_key s.range_id index in
      elim (Outcome-cases (clear_batch E C end (E.forward s.db from) s.db)) [
        | inl e ↦ absurd (ground (arith, h, e, order))
        | inr (batch, e) ↦ (batch, e, ground (arith, h, e, order))
      ]

-- compact, when it succeeds on an index up to 10 ^ 16, makes the index the offset of the log, leaves no
-- entry below it, keeps the entries from it on, and keeps every field but the engine's contents.
pub compact-effect :
    (E : Engine) (C : RaftCodec) (index : ℕ) (accepted : Bool) (s s' : Raft E)
    → index < 10 ^ 16
    → compact E C index accepted s ≡ (ok tt, s')
    → (s' ≡ record s { db = s'.db; offset_index = index })
      × ((i : ℕ) → i < index → stored E C s'.db s.range_id i ≡ none)
      × ((i : ℕ)
          → index ≤ i
          → i < 10 ^ 16
          → stored E C s'.db s.range_id i ≡ stored E C s.db s.range_id i)
compact-effect E C index accepted s s' small h =
    let (batch, cleared, committed) = compact-parts E C index accepted s s' small h in
    let (b, put, same) = commit_offset-parts E C index accepted batch s s' committed in
    let kept = λ (i : ℕ).
      stored-put_other E C batch s'.db s.range_id i (raft_offset_index_key s.range_id) b
        (index_keys_differ s.range_id i).4 put in
    let from = raft_log_key s.range_id 0 in
    let end = raft_log_key s.range_id index in
    (
      same,
      λ i below.
          kept i
          ∙ stored-none E C batch s.range_id i (
              clear_batch-clears E C end s.db (raft_log_key s.range_id i) from (E.forward s.db from)
                s.db batch refl (log_key_ne_nil s.range_id 0)
                (log_key_order s.range_id i 0 (omega arith) (omega arith) ∙ ground arith)
                (log_key_order s.range_id i index (omega arith) small ∙ ground arith) (inr refl)
                cleared),
      λ i above hi.
          kept i
          ∙ stored-same E C s.db batch s.range_id i (
              clear_batch-keeps E C end (raft_log_key s.range_id i) (E.forward s.db from) s.db batch
                (inr (log_key_order s.range_id i index hi small ∙ ground arith)) cleared),
    )
