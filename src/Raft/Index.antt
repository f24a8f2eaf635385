-- ===== src/Raft/Index.antt =====
-- storage/replica_raftstorage.go: the indices that are stored beside the log, loadOffsetIndex,
-- loadAppliedIndex, loadLastIndex, setAppliedIndex, setLastIndex, loadHardState and setHardState.
pub mod Stored
use ancestor.Common.{Bytes, ℕ, Option, none, some}
use ancestor.Common.Int.{int64, uint64}
use ancestor.Engine.{Engine}
use ancestor.Meta.Message.{Error, Failure, marshal_data, unmarshal_data}
use ancestor.Meta.Value.{Got, got, refused, get_int, set_int, no_value}
use ancestor.Meta.Exec.{Result, panic, Exec, gets, or_raise, ok, err, pure, raise, ◌>>=◌, ◌>>◌}
use ancestor.Raft.State.{Raft, RaftCodec, HardState, get_db, put_db}
use ancestor.Raft.Keys.{
  raft_applied_index_key, raft_last_index_key, raft_offset_index_key, raft_hard_state_key,
}

module _ (E : Engine) (C : RaftCodec) where
  -- The number in a stored value.
  unfoldable pub read_index : Option Bytes → Exec (Raft E) ℕ
  read_index none = pure 0
  read_index (some b) = do
    val ← or_raise (C.unmarshal_value b) unmarshal_data
    elim (get_int val) [ got i ↦ pure (uint64 i) | refused f ↦ raise (Error.failure f) ]

  -- loadOffsetIndex
  unfoldable pub load_offset_index : Exec (Raft E) ℕ
  load_offset_index = do
    id ← gets (λ s. s.range_id)
    v ← get_db E (raft_offset_index_key id)
    read_index v

  -- loadAppliedIndex
  unfoldable pub load_applied_index : Exec (Raft E) ℕ
  load_applied_index = do
    id ← gets (λ s. s.range_id)
    v ← get_db E (raft_applied_index_key id)
    read_index v

  -- loadLastIndex
  unfoldable pub load_last_index : Exec (Raft E) ℕ
  load_last_index = do
    id ← gets (λ s. s.range_id)
    v ← get_db E (raft_last_index_key id)
    read_index v

  -- setAppliedIndex, on the engine: the field changes before the write.
  unfoldable pub set_applied_index : ℕ → Exec (Raft E) Unit
  set_applied_index index = do
    val ← or_raise (C.marshal_value (set_int (int64 index) no_value)) marshal_data
    id ← λ s. (ok s.range_id, record s { applied_index = index })
    put_db E (raft_applied_index_key id) val

  -- setLastIndex, on the engine: the field changes before the write.
  unfoldable pub set_last_index : ℕ → Exec (Raft E) Unit
  set_last_index index = do
    val ← or_raise (C.marshal_value (set_int (int64 index) no_value)) marshal_data
    id ← λ s. (ok s.range_id, record s { last_index = index })
    put_db E (raft_last_index_key id) val

  -- setHardState
  unfoldable pub set_hard_state : HardState → Exec (Raft E) Unit
  set_hard_state hs = do
    val ← or_raise (C.marshal_hard_state hs) marshal_data
    id ← gets (λ s. s.range_id)
    put_db E (raft_hard_state_key id) val

  -- loadHardState
  unfoldable pub load_hard_state : Bytes → Exec (Raft E) HardState
  load_hard_state key = do
    v ← get_db E key
    elim v [
      | none ↦ pure (record { term = 0; vote = 0; commit = 0 })
      | some b ↦ or_raise (C.unmarshal_hard_state b) unmarshal_data
    ]

  -- A number of a call whose error nothing reads.
  unfoldable pub index_or_zero : Result ℕ → ℕ
  index_or_zero (ok i) = i
  index_or_zero (err e) = 0
  index_or_zero panic = 0

  -- loadRaftPrevIndex (storage/replica.go)
  unfoldable pub load_raft_prev_index : Raft E → Raft E
  load_raft_prev_index s = record s {
    applied_index = index_or_zero (load_applied_index s).0;
    offset_index = index_or_zero (load_offset_index s).0;
    last_index = index_or_zero (load_last_index s).0;
  }
