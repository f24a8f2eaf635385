-- ===== src/Pd/Region.antt =====
-- pd/region.go: the range descriptors of the placement driver, which are written to etcd and then
-- to the cache.
use ancestor.Common.{
  Bytes, ℕ, suc, Option, none, some, List, [], ◌∷◌, ◌++◌, if◌then◌else◌, ◌+◌, zero,
}
use ancestor.Common.Int.{ℤ, pos}
use ancestor.Meta.Message.{Error, lost_master, no_new_id, not_found_in_cache, etcd_fail, bad_json}
use ancestor.Meta.Exec.{Exec, ok, err, ◌>>=◌, ◌>>◌, pure, raise}
use ancestor.Raft.Keys.{decimal}
use ancestor.Store.{RangeDescriptor, ReplicaDescriptor}
use ancestor.Pd.Cluster.{find}
use ancestor.Common.Int.{eq_ℤ}
use ancestor.Pd.Ranges.{OrderedCache, add_ranges, lookup, iterate}
use ancestor.Pd.State.{Pd, Outside}

-- newRangeDescriptor
unfoldable pub new_range_descriptor : ℤ → Bytes → Bytes → List ReplicaDescriptor → RangeDescriptor
new_range_descriptor id start end_key replicas = record {
  range_id = id;
  start_key = start;
  end_key = end_key;
  replicas = replicas;
}

-- The range of a node's own keys, from the zero byte with its number to that with the next; the
-- replica stands in the list three times. The number is not negative.
unfoldable pub system_range : ℕ → RangeDescriptor
system_range id =
    let r : ReplicaDescriptor = record { node_id = pos id; replica_id = pos id } in
    record {
      range_id = pos id;
      start_key = 0 ∷ decimal id;
      end_key = 0 ∷ decimal (id + 1);
      replicas = r ∷ r ∷ r ∷ [];
    }

module _ (O : OrderedCache) (out : Outside) where
  -- newID, whose answers are those of the outside.
  unfoldable pub new_id : Exec (Pd O.Cache) ℤ
  new_id s = (
    elim (out.fresh_id s.ids) [ none ↦ err (Error.failure no_new_id) | some id ↦ ok id ],
    record s { ids = s.ids + 1 },
  )

  -- The loop of getDefaultRanges from a byte on.
  unfoldable pub default_ranges_from : ℕ → ℕ → Exec (Pd O.Cache) (List RangeDescriptor)
  default_ranges_from zero i = pure []
  default_ranges_from (suc n) i = new_id >>= λ id. default_ranges_from n (i + 1) >>= λ rds.
      pure (new_range_descriptor id (i ∷ []) ((i + 1) ∷ []) [] ∷ rds)

  -- getDefaultRanges
  unfoldable pub get_default_ranges : Exec (Pd O.Cache) (List RangeDescriptor)
  get_default_ranges = default_ranges_from 2 1

  -- getRangeDescriptor, the pointer.
  unfoldable pub get_range_descriptor : ℤ → Exec (Pd O.Cache) ℕ
  get_range_descriptor id s = (
    elim (find eq_ℤ id s.ranges.ranges) [
      | none ↦ err (Error.failure not_found_in_cache)
      | some r ↦ ok r
    ],
    s,
  )

  -- getRangeDescriptors
  unfoldable pub get_range_descriptors : Bytes → Exec (Pd O.Cache) (List RangeDescriptor)
  get_range_descriptors [] s = (ok (iterate O s.ranges), s)
  get_range_descriptors (x ∷ key) s = (
    elim (lookup O (x ∷ key) s.ranges) [
      | none ↦ err (Error.failure not_found_in_cache)
      | some rd ↦ ok (rd ∷ [])
    ],
    s,
  )

  -- putValues with the comparison that the server is still the master.
  unfoldable pub master_put : Exec (Pd O.Cache) (Unit {0})
  master_put s = (
    if out.accepts s.writes then ok tt else err (Error.failure lost_master),
    record s { writes = s.writes + 1 },
  )

  -- setRangeDescriptors
  unfoldable pub set_range_descriptors : List RangeDescriptor → Exec (Pd O.Cache) (Unit {0})
  set_range_descriptors rds =
      master_put >> λ s. (ok tt, record s { ranges = add_ranges O rds s.ranges })

  -- addSystemRangeDescriptor
  unfoldable pub add_system_range_descriptor : ℕ → Exec (Pd O.Cache) (Unit {0})
  add_system_range_descriptor id = set_range_descriptors (system_range id ∷ [])

  -- The loop of loadRangeDescriptors over what etcd holds; `none` is a value that json refuses.
  unfoldable pub parse_ranges :
      List (Option RangeDescriptor)
      → List RangeDescriptor
      → Exec (Pd O.Cache) (List RangeDescriptor)
  parse_ranges [] rds = pure rds
  parse_ranges (none ∷ kvs) rds = raise (Error.failure bad_json)
  parse_ranges (some rd ∷ kvs) rds = parse_ranges kvs (rds ++ rd ∷ [])

  -- loadRangeDescriptors, by the values that etcd returns: none is an error, and an empty list the
  -- nil of getValues.
  unfoldable pub load_range_descriptors :
      Option (List (Option RangeDescriptor)) → Exec (Pd O.Cache) (Unit {0})
  load_range_descriptors none = raise (Error.failure etcd_fail)
  load_range_descriptors (some []) = get_default_ranges >>= set_range_descriptors
  load_range_descriptors (some (kv ∷ kvs)) = parse_ranges (kv ∷ kvs) [] >>= λ rds s.
      (ok tt, record s { ranges = add_ranges O rds s.ranges })
