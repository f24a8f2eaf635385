-- ===== src/Pd/Replicas.antt =====
-- pd/replica.go: the members of a range change, and its leader.
use ancestor.Common.{ℕ, List, [], ◌∷◌, ◌++◌, if◌then◌else◌, not, ◌&&◌}
use ancestor.Common.Int.{ℤ, pos, eq_ℤ}
use ancestor.Meta.Message.{Error, replica_not_exist}
use ancestor.Meta.Exec.{Exec, attempt, ◌>>=◌, ◌>>◌, pure, raise_if}
use ancestor.Store.{RangeDescriptor, ReplicaDescriptor, is_exist_node}
use ancestor.Pd.Ranges.{OrderedCache}
use ancestor.Pd.State.{
  Pd, Outside, add_raft_conf_request, compact_log_request, create_replica_request,
  remove_replica_request, delete_raft_conf_request, transfer_leader_request,
}
use ancestor.Pd.Send.{descriptor, send_to_leader, send_to_node}
use ancestor.Pd.Region.{get_range_descriptor, set_range_descriptors}
use ancestor.Pd.Check.{update_range_descriptor}

-- The replicas that are not on the node.
unfoldable pub without_node : ℤ → List ReplicaDescriptor → List ReplicaDescriptor
without_node id [] = []
without_node id (r ∷ rest) =
    let others = without_node id rest in if eq_ℤ r.node_id id then others else r ∷ others

module _ (O : OrderedCache) (out : Outside) where
  -- updateRangeDescriptor on the nodes, then setRangeDescriptors.
  unfoldable pub publish : RangeDescriptor → ℕ → Exec (Pd O.Cache) (Unit {0})
  publish nrd r = update_range_descriptor O out nrd r >> set_range_descriptors O out (nrd ∷ [])

  -- addReplica
  unfoldable pub add_replica : ℤ → ℤ → Exec (Pd O.Cache) (Unit {0})
  add_replica range_id node_id = get_range_descriptor O out range_id >>= λ r.
      send_to_leader O out r (add_raft_conf_request range_id node_id)
      >> (attempt (send_to_leader O out r (compact_log_request range_id))
          >> (descriptor O out r >>= λ rd.
              send_to_node O out (create_replica_request rd node_id) node_id
              >> (descriptor O out r >>= λ rd'.
                  publish
                    (record rd' {
                      replicas =
                          rd'.replicas ++ record { node_id = node_id; replica_id = pos 0 } ∷ [];
                    })
                    r)))

  -- deleteReplica. The new list of replicas is built before the requests.
  unfoldable pub delete_replica : ℤ → ℤ → Exec (Pd O.Cache) (Unit {0})
  delete_replica range_id node_id = get_range_descriptor O out range_id >>= λ r.
      descriptor O out r >>= λ rd.
      raise_if (not (is_exist_node node_id rd.replicas)) (Error.failure replica_not_exist)
      >> (send_to_node O out (remove_replica_request range_id node_id) node_id
          >> (send_to_leader O out r (delete_raft_conf_request range_id node_id)
              >> (descriptor O out r >>= λ rd'.
                  publish (record rd' { replicas = without_node node_id rd.replicas }) r)))

  -- transferLeader
  unfoldable pub transfer_leader : ℤ → ℤ → ℤ → Exec (Pd O.Cache) (Unit {0})
  transfer_leader range_id src dst = get_range_descriptor O out range_id >>= λ r.
      descriptor O out r >>= λ rd.
      raise_if (not (is_exist_node src rd.replicas && is_exist_node dst rd.replicas))
        (Error.failure replica_not_exist)
      >> (send_to_leader O out r (transfer_leader_request range_id src dst) >> pure tt)
