-- ===== src/Raft/Log/Stored.antt =====
-- The log as an engine holds it.
use ancestor.Common.{
  Bytes, ℕ, Option, none, some, ◌≡◌, arith, ◌<◌, bytes_less, false, ◌^◌, inl, inr, Option-cases,
  ◌∙◌, ap, if◌then◌else◌, bytes_equal, ◌==◌, refl,
}
use ancestor.Engine.{get-clear_other, Engine, done, failed, Outcome-cases}
use ancestor.Raft.State.{RaftCodec, Entry}
use ancestor.Raft.Keys.{raft_log_key}
use ancestor.Raft.Keys.Order.{log_key_equal}

module _ (E : Engine) (C : RaftCodec) where
  -- The entry of an index.
  unfoldable pub stored : E.Db → ℕ → ℕ → Option Entry
  stored db id i = elim (E.get db (raft_log_key id i)) [
    | failed ↦ none
    | done o ↦ elim o [ none ↦ none | some b ↦ C.unmarshal_entry b ]
  ]

  pub stored-some :
      (db : E.Db) (id i : ℕ) (e : Entry)
      → stored db id i ≡ some e
      → (b : Bytes) × (E.get db (raft_log_key id i) ≡ done (some b))
        × (C.unmarshal_entry b ≡ some e)
  unfolding stored
  stored-some db id i e h = elim (Outcome-cases (E.get db (raft_log_key id i))) [
    | inl f ↦ absurd (ground arith)
    | inr (o, f) ↦ elim (Option-cases o) [
      | inl g ↦ absurd (ground arith)
      | inr (b, g) ↦ (b, f ∙ ap done g, ground arith)
    ]
  ]

module _ (E : Engine) (C : RaftCodec) (db db' : E.Db) (id : ℕ) where
  pub stored-put :
      (i j : ℕ) (b : Bytes) (e : Entry)
      → i < 10 ^ 16
      → j < 10 ^ 16
      → E.put db (raft_log_key id j) b ≡ done db'
      → C.unmarshal_entry b ≡ some e
      → stored E C db' id i ≡ (if j == i then some e else stored E C db id i)
  unfolding stored
  stored-put i j b e hi hj h u =
      let same = E.get-put db db' (raft_log_key id j) (raft_log_key id i) b h in
      let keys = log_key_equal id j i hj hi in ground (arith, same, keys, u)

  -- Clear at an index leaves the entries of the others.
  pub stored-clear :
      (i j : ℕ)
      → i < 10 ^ 16
      → j < 10 ^ 16
      → i < j
      → E.clear db (raft_log_key id j) ≡ done db'
      → stored E C db' id i ≡ stored E C db id i
  unfolding stored
  stored-clear i j hi hj lt h =
      let keys : bytes_equal (raft_log_key id j) (raft_log_key id i) ≡ false =
        ground (arith, lt, log_key_equal id j i hj hi) in
      let same = get-clear_other E db db' (raft_log_key id j) (raft_log_key id i) keys h in
      ground (arith, same)

  -- A key that is no entry's.
  pub stored-put_other :
      (i : ℕ) (k b : Bytes)
      → bytes_equal k (raft_log_key id i) ≡ false
      → E.put db k b ≡ done db'
      → stored E C db' id i ≡ stored E C db id i
  unfolding stored
  stored-put_other i k b differ h =
      let same = E.get-put db db' k (raft_log_key id i) b h in ground (arith, same, differ)

  -- The entry of an index is what stands at its key.
  pub stored-same :
      (i : ℕ)
      → E.get db' (raft_log_key id i) ≡ E.get db (raft_log_key id i)
      → stored E C db' id i ≡ stored E C db id i
  unfolding stored
  stored-same i h = rw (stored, h) refl

pub stored-none :
    (E : Engine) (C : RaftCodec) (db : E.Db) (id i : ℕ)
    → E.get db (raft_log_key id i) ≡ done none
    → stored E C db id i ≡ none
unfolding stored
stored-none E C db id i h = rw (stored, h) refl

-- Between the keys of entries of a log stand keys of its entries only.
abbrev pub OnlyEntries : (E : Engine) → E.Db → ℕ → Type 0
OnlyEntries E db id =
    (j v : Bytes) (hi : ℕ)
    → hi < 10 ^ 16
    → E.get db j ≡ done (some v)
    → bytes_less j (raft_log_key id 0) ≡ false
    → bytes_less (raft_log_key id hi) j ≡ false
    → (i : ℕ) × (i < 10 ^ 16) × (j ≡ raft_log_key id i)
