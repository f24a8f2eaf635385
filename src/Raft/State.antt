-- ===== src/Raft/State.antt =====
-- What storage/replica_raftstorage.go reads and writes: an engine, the fields of replica that it
-- uses, and raft's entries.
use ancestor.Common.{Bytes, ℕ, Option, ◌≡◌, some, List, inl, arith, inr, refl}
use ancestor.Engine.{Outcome-cases, Engine, done, failed}
use ancestor.Meta.Message.{Value, Error}
use ancestor.Meta.Stats.{RangeStats}
use ancestor.Meta.Exec.{Exec, ok, err}

-- raftpb.Entry, as far as the code reads it: what it stands for is in `content`.
pub record Entry : Type 0 where
  pub index : ℕ
  pub term : ℕ
  pub content : Bytes

pub record HardState : Type 0 where
  pub term : ℕ
  pub vote : ℕ
  pub commit : ℕ

-- The marshalling of package raftpb and of the generated code of meta.
pub record RaftCodec : Type 0 where
  pub marshal_entry : Entry → Option Bytes
  pub unmarshal_entry : Bytes → Option Entry
  pub marshal_value : Value → Option Bytes
  pub unmarshal_value : Bytes → Option Value
  pub marshal_hard_state : HardState → Option Bytes
  pub unmarshal_hard_state : Bytes → Option HardState
  pub marshal_key_values : List (Bytes × Bytes) → Option Bytes
  pub unmarshal_key_values : Bytes → Option (List (Bytes × Bytes))
  pub entry_round_trip :
      (e : Entry) (b : Bytes) → marshal_entry e ≡ some b → unmarshal_entry b ≡ some e
  pub key_values_round_trip :
      (l : List (Bytes × Bytes)) (b : Bytes)
      → marshal_key_values l ≡ some b
      → unmarshal_key_values b ≡ some l
  pub value_round_trip :
      (v : Value) (b : Bytes) → marshal_value v ≡ some b → unmarshal_value b ≡ some v

-- The fields of replica: raftOffsetIndex, raftLastIndex, raftAppliedIndex, raftTruncateIndex and
-- raftTruncateTerm, the bounds of rangeDesc, and the statistics of the range.
pub record Raft (E : Engine) : Type 0 where
  pub db : E.Db
  pub range_id : ℕ
  pub start_key : Bytes
  pub end_key : Bytes
  pub offset_index : ℕ
  pub last_index : ℕ
  pub applied_index : ℕ
  pub truncate_index : ℕ
  pub truncate_term : ℕ
  pub stats : RangeStats

module _ (E : Engine) where
  -- engine.Get, Put and Clear, with the engine's error for the caller's.
  unfoldable pub get_db : Bytes → Exec (Raft E) (Option Bytes)
  get_db k s = elim (E.get s.db k) [
    | done v ↦ (ok v, s)
    | failed ↦ (err (Error.engine_get_data k), s)
  ]

  unfoldable pub put_db : Bytes → Bytes → Exec (Raft E) Unit
  put_db k v s = elim (E.put s.db k v) [
    | done db' ↦ (ok tt, record s { db = db' })
    | failed ↦ (err (Error.engine_put_data k), s)
  ]

  unfoldable pub clear_db : Bytes → Exec (Raft E) Unit
  clear_db k s = elim (E.clear s.db k) [
    | done db' ↦ (ok tt, record s { db = db' })
    | failed ↦ (err (Error.engine_clear_data k), s)
  ]

  pub put_db-done :
      (k v : Bytes) (s s' : Raft E)
      → put_db k v s ≡ (ok tt, s')
      → (db : E.Db) × (E.put s.db k v ≡ done db) × (s' ≡ record s { db = db })
  unfolding put_db
  put_db-done k v s s' h = elim (Outcome-cases (E.put s.db k v)) [
    | inl e ↦ absurd (ground (arith, h, e))
    | inr (db, e) ↦ (db, e, ground (arith, h, e))
  ]

  pub clear_db-done :
      (k : Bytes) (s s' : Raft E)
      → clear_db k s ≡ (ok tt, s')
      → (db : E.Db) × (E.clear s.db k ≡ done db) × (s' ≡ record s { db = db })
  unfolding clear_db
  clear_db-done k s s' h = elim (Outcome-cases (E.clear s.db k)) [
    | inl e ↦ absurd (ground (arith, h, e))
    | inr (db, e) ↦ (db, e, ground (arith, h, e))
  ]

  pub get_db-found :
      (k : Bytes) (v : Option Bytes) (s : Raft E) → E.get s.db k ≡ done v → get_db k s ≡ (ok v, s)
  unfolding get_db
  get_db-found k v s h = rw (get_db, h) refl
