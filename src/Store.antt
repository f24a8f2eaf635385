-- ===== src/Store.antt =====
-- storage/store.go and storage/rebalance.go: the replicas and the statistics of a node's ranges, how
-- replicas are created, split and removed, and how a batch is sent to them. Maps are functions.
pub mod Split
pub mod Send
pub mod Stats
pub mod Registered
use ancestor.Common.{
  Bytes, Bool, true, false, List, [], ◌∷◌, Option, none, some, if◌then◌else◌, ◌&&◌, not, ◌||◌, ◌==◌,
}
use ancestor.Common.Int.{ℤ, pos, eq_ℤ}
use ancestor.Meta.Message.{
  Error, Failure, already_exist, not_found_node, bad_request, unknown_range, unknown_request,
}
use ancestor.Meta.Stats.{RangeStats}
use ancestor.Meta.Exec.{Exec, ok, err, panic, pure, raise, crash, raise_if, ◌>>=◌, ◌>>◌}

-- ReplicaDescriptor and RangeDescriptor (meta/metadata.proto).
pub record ReplicaDescriptor : Type 0 where
  pub node_id : ℤ
  pub replica_id : ℤ

pub record RangeDescriptor : Type 0 where
  pub range_id : ℤ
  pub start_key : Bytes
  pub end_key : Bytes
  pub replicas : List ReplicaDescriptor

-- RangeDescriptor.IsSystem
unfoldable pub is_system_range : RangeDescriptor → Bool
is_system_range rd = elim rd.start_key [ [] ↦ false | x ∷ _ ↦ x == 0 ]

-- replica, as far as the store reads it.
pub record Replica : Type 0 where
  pub range_id : ℤ
  pub range_desc : RangeDescriptor

-- store, with what it has told other parts: the ranges whose raft loop it has stopped, and the
-- statistics that it has given to the placement driver.
pub record Store : Type 0 where
  pub node_id : ℤ
  pub replicas : ℤ → Option Replica
  pub range_stats : ℤ → Option RangeStats
  pub active_raft_snapshot : Bool
  pub stopped : List ℤ
  pub uploaded : List (List RangeStats)

-- m[id] = a and delete(m, id)
unfoldable pub set_at : {A : Type 0} → ℤ → Option A → (ℤ → Option A) → ℤ → Option A
set_at id a m i = if eq_ℤ id i then a else m i

-- getReplica
unfoldable pub get_replica : ℤ → Exec Store Replica
get_replica id s = elim (s.replicas id) [
  | some r ↦ (ok r, s)
  | none ↦ (err (Error.range_not_found id), s)
]

-- addReplica
unfoldable pub add_replica : ℤ → Replica → Exec Store Unit
add_replica id r s = (ok tt, record s { replicas = set_at id (some r) s.replicas })

-- addRangeStats
unfoldable pub add_range_stats : ℤ → Exec Store Unit
add_range_stats id s = elim (s.range_stats id) [
  | some rs ↦ (
    ok tt,
    record s { range_stats = set_at id (some (record rs { is_removed = false })) s.range_stats },
  )
  | none ↦ (
    ok tt,
    record s {
      range_stats =
          set_at id
            (some (record {
              node_id = s.node_id;
              range_id = id;
              total_bytes = pos 0;
              total_count = pos 0;
              is_raft_leader = false;
              is_removed = false;
            }))
            s.range_stats;
    },
  )
]

-- deleteReplica
unfoldable pub delete_replica : ℤ → Exec Store Unit
delete_replica id s = elim (s.replicas id) [
  | some r ↦ (ok tt, record s { replicas = set_at id none s.replicas })
  | none ↦ (err (Error.range_not_found id), s)
]

-- isExistNode
unfoldable pub is_exist_node : ℤ → List ReplicaDescriptor → Bool
is_exist_node id [] = false
is_exist_node id (repl ∷ rest) = eq_ℤ repl.node_id id || is_exist_node id rest

-- s.rangeStats[id].IsRemoved = true, which panics on a missing key.
unfoldable pub set_removed : ℤ → Exec Store Unit
set_removed id s = elim (s.range_stats id) [
  | none ↦ (panic, s)
  | some rs ↦ (
    ok tt,
    record s { range_stats = set_at id (some (record rs { is_removed = true })) s.range_stats },
  )
]

-- The send on raftStopChan, which the raft loop of the replica receives.
unfoldable pub stop_raft : ℤ → Exec Store Unit
stop_raft id s = (ok tt, record s { stopped = id ∷ s.stopped })

-- The two requests to the store itself, and any other.
pub data RootRequest : Type 0 where
  create_replica_request : ℤ → RangeDescriptor → RootRequest
  remove_replica_request : ℤ → ℤ → RootRequest
  other_request : RootRequest

-- newReplica starts the replica's raft group, a call of etcd's raft that can fail: `start_group`
-- gives its error.
module _ (start_group : RangeDescriptor → Bool → Option Error) where
  -- newReplica
  unfoldable pub new_replica : RangeDescriptor → Bool → Exec Store Replica
  new_replica rd need_load s = elim (start_group rd need_load) [
    | some e ↦ (err e, s)
    | none ↦ (ok (record { range_id = rd.range_id; range_desc = rd }), s)
  ]

  -- createReplica
  unfoldable pub create_replica : RangeDescriptor → Bool → Exec Store Replica
  create_replica rd need_load s = elim (s.replicas rd.range_id) [
    | some _ ↦ (err (Error.failure already_exist), s)
    | none ↦
        (new_replica rd need_load >>= λ r.
        add_range_stats rd.range_id >> (add_replica rd.range_id r >> pure r))
          s
  ]

  -- executeCreateReplica
  unfoldable pub execute_create_replica : ℤ → RangeDescriptor → Exec Store Unit
  execute_create_replica id rd s = elim (s.replicas id) [
    | some _ ↦ (ok tt, s)
    | none ↦ (create_replica rd true >>= λ _. pure tt) s
  ]

  -- executeRemoveReplica
  unfoldable pub execute_remove_replica : ℤ → ℤ → Exec Store Unit
  execute_remove_replica id node s = elim (s.replicas id) [
    | none ↦ (err (Error.failure unknown_range), s)
    | some r ↦
        if not (is_exist_node node r.range_desc.replicas)
        then (err (Error.failure not_found_node), s)
        else (delete_replica id >> (stop_raft id >> set_removed id)) s
  ]

  -- executeRootCmd
  unfoldable pub execute_root_cmd : RootRequest → Exec Store Unit
  execute_root_cmd (create_replica_request id rd) = execute_create_replica id rd
  execute_root_cmd (remove_replica_request id node) = execute_remove_replica id node
  execute_root_cmd other_request = raise (Error.failure unknown_request)

  -- The inner loop of Create, over the replicas of one range. An error is only logged.
  unfoldable pub create_on_node : RangeDescriptor → List ReplicaDescriptor → Store → Store
  create_on_node rd [] s = s
  create_on_node rd (r ∷ rest) s = create_on_node rd rest (
      if eq_ℤ r.node_id s.node_id && not (is_system_range rd)
      then (create_replica rd true s).1
      else s)

  -- Create
  unfoldable pub create : List RangeDescriptor → Store → Store
  create [] s = s
  create (rd ∷ rest) s = create rest (create_on_node rd rd.replicas s)

-- acquireRaftSnapshot and releaseRaftSnapshot
unfoldable pub acquire_raft_snapshot : Store → Bool × Store
acquire_raft_snapshot s =
    if s.active_raft_snapshot then (false, s) else (true, record s { active_raft_snapshot = true })

unfoldable pub release_raft_snapshot : Store → Store
release_raft_snapshot s = record s { active_raft_snapshot = false }
