-- ===== src/Raft/Snapshot.antt =====
-- storage/replica_raftstorage.go: data, snapshot, clear, applySnapshot, InitialState.
pub mod Visit
pub mod Apply
pub mod Restore
use ancestor.Common.{
  Bytes, ℕ, List, [], ◌∷◌, Option, none, some, Bool, bytes_less, true, false, length, not,
  if◌then◌else◌, ◌+◌, ◌%◌, ◌^◌, map,
}
use ancestor.Common.Int.{ℤ, pos, uint64}
use ancestor.Engine.{Engine}
use ancestor.Meta.Message.{Error, marshal_data, unmarshal_data}
use ancestor.Meta.Stats.{RangeStats, update_range_stats}
use ancestor.Meta.Exec.{Exec, gets, or_raise, ok, err, pure, raise, ◌>>=◌, ◌>>◌}
use ancestor.Raft.State.{Raft, RaftCodec, HardState, put_db, clear_db}
use ancestor.Raft.Keys.{raft_hard_state_key}
use ancestor.Raft.Log.{term}
use ancestor.Raft.Index.{load_applied_index, load_hard_state, set_last_index, set_applied_index}

-- raftpb.Snapshot with its metadata.
pub record Snapshot : Type 0 where
  pub content : Bytes
  pub index : ℕ
  pub term : ℕ
  pub nodes : List ℕ

-- The loop of data over what the iterator visits, up to the end of the range.
unfoldable pub visited : Bytes → List (Bytes × Bytes) → List (Bytes × Bytes)
visited end [] = []
visited end ((k, v) ∷ rest) = if bytes_less k end then (k, v) ∷ visited end rest else []

module _ (E : Engine) (C : RaftCodec) where
  -- data
  unfoldable pub data_of : Exec (Raft E) Bytes
  data_of s =
      or_raise (C.marshal_key_values (visited s.end_key (E.forward s.db s.start_key))) marshal_data
        s

  -- snapshot, where the raft group knows the nodes `nodes`.
  unfoldable pub snapshot : List ℕ → Exec (Raft E) Snapshot
  snapshot nodes = do
    i ← load_applied_index E C
    t ← term E C i
    d ← data_of
    pure (record { content = d; index = i; term = t; nodes = nodes })

  -- The loop of clear.
  unfoldable pub clear_keys : Bytes → List (Bytes × Bytes) → Exec (Raft E) Unit
  clear_keys end [] = pure tt
  clear_keys end ((k, v) ∷ rest) = elim (bytes_less k end) [
    | false ↦ pure tt
    | true ↦ clear_db E k >> clear_keys end rest
  ]

  -- clear
  unfoldable pub clear : Exec (Raft E) Unit
  clear s = clear_keys s.end_key (E.forward s.db s.start_key) s

  -- The loop that writes the keys of a snapshot.
  unfoldable pub write_keys : List (Bytes × Bytes) → Exec (Raft E) Unit
  write_keys [] = pure tt
  write_keys ((k, v) ∷ rest) = do
    λ s. (ok tt, record s { stats = update_range_stats 0 0 (length k) (length v) s.stats })
    put_db E k v
    write_keys rest

  -- applySnapshot once the data is unmarshalled.
  unfoldable pub apply_keys : Snapshot → List (Bytes × Bytes) → Exec (Raft E) Unit
  apply_keys snap kvs = do
    clear
    λ s. (ok tt, record s { stats = record s.stats { total_bytes = pos 0; total_count = pos 0 } })
    write_keys kvs
    set_last_index E C snap.index
    set_applied_index E C snap.index
    λ s. (ok tt, record s { truncate_index = snap.index; truncate_term = snap.term })

  -- applySnapshot
  unfoldable pub apply_snapshot : Snapshot → Exec (Raft E) Unit
  apply_snapshot snap = do
    kvs ← or_raise (C.unmarshal_key_values snap.content) unmarshal_data
    apply_keys snap kvs

  -- InitialState, where the range has replicas on the nodes `replicas`; raft says which hard
  -- states are empty.
  unfoldable pub initial_state : (HardState → Bool) → List ℤ → Exec (Raft E) (HardState × List ℕ)
  initial_state is_empty_hard_state replicas = do
    id ← gets (λ s. s.range_id)
    hs ← load_hard_state E C (raft_hard_state_key id)
    pure (
      hs,
      if not (is_empty_hard_state hs)
          then map (λ node. (uint64 node + id) % 2 ^ 64) replicas
          else [],
    )
