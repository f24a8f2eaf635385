-- ===== src/Pd/Fill.antt =====
-- pd/check.go: checkReplica, which gives replicas to the ranges that have too few.
pub mod Filled
use ancestor.Common.{
  Bytes, ℕ, zero, suc, Bool, true, false, Option, none, some, List, [], ◌∷◌, ◌++◌, if◌then◌else◌,
  ◌+◌, ◌-◌, length, map, ltb, get_elem?,
}
use ancestor.Common.Int.{ℤ}
use ancestor.Meta.Message.{Error, Failure, no_new_id, not_found_in_cache}
use ancestor.Meta.Exec.{
  Exec, Result, Tried, worked, refused, attempt, ok, err, panic, ◌>>=◌, ◌>>◌, pure, raise,
}
use ancestor.Store.{RangeDescriptor, ReplicaDescriptor}
use ancestor.Pd.Cluster.{Cluster, NodeDescriptor, count, get_idle_node}
use ancestor.Pd.Ranges.{OrderedCache, RangeCache, modify, unstable}
use ancestor.Pd.State.{Pd, Outside, create_replica_request}
use ancestor.Pd.Send.{descriptor, call_node}
use ancestor.Pd.Region.{new_id, set_range_descriptors}
use ancestor.Pd.Check.{min_replica}

module _ (O : OrderedCache) (out : Outside) where
  -- getIdleNode
  unfoldable pub idle_node : List ℤ → Exec (Pd O.Cache) NodeDescriptor
  idle_node ids s = (
    elim (get_idle_node ids s.cluster) [
      | none ↦ err (Error.failure not_found_in_cache)
      | some n ↦ ok n
    ],
    s,
  )

  -- The loop that looks for nodes, for the number of replicas that are missing.
  unfoldable pub fill : ℕ → List ℤ → Exec (Pd O.Cache) (List ReplicaDescriptor)
  fill zero ids = pure []
  fill (suc n) ids = idle_node ids >>= λ node. new_id O out >>= λ id.
      fill n (ids ++ node.node_id ∷ []) >>= λ reps.
      pure (record { node_id = node.node_id; replica_id = id } ∷ reps)

  -- rd.Replicas = append(rd.Replicas, reps...), through the pointer.
  unfoldable pub append_replicas : ℕ → List ReplicaDescriptor → Exec (Pd O.Cache) (Unit {0})
  append_replicas r reps s = (
    ok tt,
    record s {
      ranges = record s.ranges {
        objects =
            modify r (λ (rd : RangeDescriptor). record rd { replicas = rd.replicas ++ reps })
              s.ranges.objects;
      };
    },
  )

  -- The calls of CreateReplica, whose errors are logged.
  unfoldable pub create_replicas :
      List ReplicaDescriptor → RangeDescriptor → Exec (Pd O.Cache) (Unit {0})
  create_replicas [] rd = pure tt
  create_replicas (rep ∷ reps) rd =
      call_node O out rep.node_id (create_replica_request rd rep.node_id) >> create_replicas reps rd

  -- The calls of the nodes, and setRangeDescriptors, whose error is logged.
  unfoldable pub tell_nodes :
      List ReplicaDescriptor → RangeDescriptor → Exec (Pd O.Cache) (Unit {0})
  tell_nodes reps rd =
      create_replicas reps rd >> (attempt (set_range_descriptors O out (rd ∷ [])) >> pure tt)

  unfoldable pub place_replicas : ℕ → List ReplicaDescriptor → Exec (Pd O.Cache) (Unit {0})
  place_replicas r reps = append_replicas r reps >> (descriptor O out r >>= tell_nodes reps)

  unfoldable pub fill_descriptor : ℕ → RangeDescriptor → Exec (Pd O.Cache) (Unit {0})
  fill_descriptor r rd =
      let ids = map (λ (p : ReplicaDescriptor). p.node_id) rd.replicas in
      fill (min_replica - length ids) ids >>= place_replicas r

  -- A round of checkReplica. Errors up to the new replicas end the check.
  unfoldable pub fill_range : ℕ → Exec (Pd O.Cache) (Unit {0})
  fill_range r = descriptor O out r >>= fill_descriptor r

  unfoldable pub fill_ranges : List ℕ → Exec (Pd O.Cache) (Unit {0})
  fill_ranges [] = pure tt
  fill_ranges (r ∷ rest) = fill_range r >> fill_ranges rest

  -- checkReplica; an error is one that it logs before it returns.
  unfoldable pub check_replica : Exec (Pd O.Cache) (Unit {0})
  check_replica s =
      if ltb (count s.cluster) min_replica
      then (ok tt, s)
      else if out.opens
      then fill_ranges (unstable O s.ranges) s
      else (ok tt, s)
