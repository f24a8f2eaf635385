-- ===== src/Store/Split.antt =====
-- storage/rebalance.go: where a range is split, and the split.
pub mod Key
pub mod Parts
pub mod Halves
use ancestor.Common.{
  Bytes, Bool, true, false, List, [], ◌∷◌, Option, none, some, if◌then◌else◌, ◌||◌, not, length,
  ◌+◌, bytes_less,
}
use ancestor.Common.Int.{ℤ, pos, eq_ℤ, ltb_ℤ, add_int64, sub_int64}
use ancestor.Engine.{Engine}
use ancestor.Meta.Key.{new_mvcc_key, decode, DecodedKey}
use ancestor.Meta.Message.{Error, Failure, invalid_range, no_split_key, no_range_stats, exist_node}
use ancestor.Meta.Stats.{RangeStats}
use ancestor.Meta.Exec.{Exec, Result, ok, err, panic, pure, raise, ◌>>=◌, ◌>>◌}
use ancestor.Replica.{validate_key_range}
use ancestor.Store.{
  Store, Replica, RangeDescriptor, ReplicaDescriptor, set_at, create_replica, is_exist_node,
}

-- The loop of getSplitKey over what the iterator visits, with RangeBytes and RangeCount so far: the
-- key and the two numbers.
unfoldable pub split_key_loop :
    Bytes → Bytes → ℤ → ℤ → ℤ → List (Bytes × Bytes) → Result (Bytes × ℤ × ℤ)
split_key_loop start end size bytes count [] = err (Error.failure no_split_key)
split_key_loop start end size bytes count ((k, v) ∷ l) =
    let bytes' = add_int64 bytes (pos (length k + length v)) in
    let count' = add_int64 count (pos 1) in
    let rest = split_key_loop start end size bytes' count' l in
    let d = decode k in
    if not (bytes_less k end)
    then err (Error.failure no_split_key)
    else if ltb_ℤ bytes' size
    then rest
    else elim d.error [
      | some e ↦ err (Error.bad_key e)
      | none ↦ if not (bytes_less start d.key) then rest else ok (d.key, bytes', count')
    ]

-- getSplitKey
unfoldable pub get_split_key : (E : Engine) → Replica → ℤ → E.Db → Result (Bytes × ℤ × ℤ)
get_split_key E r size db =
    split_key_loop r.range_desc.start_key (new_mvcc_key r.range_desc.end_key) size (pos 0) (pos 0)
      (E.forward db (new_mvcc_key r.range_desc.start_key))

pub record SplitRequest : Type 0 where
  pub range_id : ℤ
  pub new_range_id : ℤ
  pub split_key : Bytes
  pub new_range_bytes : ℤ
  pub new_range_count : ℤ

-- makeRangeDesc
unfoldable pub make_range_desc : ℤ → Bytes → Bytes → List ReplicaDescriptor → RangeDescriptor
make_range_desc id skey ekey replicas = record {
  range_id = id;
  start_key = skey;
  end_key = ekey;
  replicas = replicas;
}

abbrev pub stats_of : ℤ → ℤ → ℤ → ℤ → RangeStats
stats_of node id bytes count = record {
  node_id = node;
  range_id = id;
  total_bytes = bytes;
  total_count = count;
  is_raft_leader = false;
  is_removed = false;
}

-- The statistics of a range change, and are read again; a missing key panics.
unfoldable pub change_stats : ℤ → (RangeStats → RangeStats) → Exec Store RangeStats
change_stats id f s = elim (s.range_stats id) [
  | none ↦ (panic, s)
  | some rs ↦ (ok (f rs), record s { range_stats = set_at id (some (f rs)) s.range_stats })
]

-- fillRangeStats
unfoldable pub fill_range_stats : ℤ → ℤ → ℤ → ℤ → Exec Store (List RangeStats)
fill_range_stats old_id new_id bytes count =
    change_stats new_id (λ rs. record rs { total_bytes = bytes; total_count = count })
    >> (change_stats old_id (λ rs. record rs {
      total_bytes = sub_int64 rs.total_bytes bytes;
      total_count = sub_int64 rs.total_count count;
    })
        >>= λ old s. (
          ok (
              stats_of s.node_id new_id bytes count
              ∷ stats_of s.node_id old_id old.total_bytes old.total_count
              ∷ []),
          s,
        ))

-- setRangeStats, whose error the caller only logs.
unfoldable pub set_range_stats : List RangeStats → Exec Store Unit
set_range_stats [] s = (ok tt, s)
set_range_stats (x ∷ l) s = (ok tt, record s { uploaded = (x ∷ l) ∷ s.uploaded })

-- The two descriptors of a split.
abbrev pub prev_desc : Replica → SplitRequest → RangeDescriptor
prev_desc r req =
    let desc = r.range_desc in
    make_range_desc req.new_range_id desc.start_key req.split_key desc.replicas

abbrev pub post_desc : Replica → SplitRequest → RangeDescriptor
post_desc r req =
    let desc = r.range_desc in make_range_desc r.range_id req.split_key desc.end_key desc.replicas

module _ (start_group : RangeDescriptor → Bool → Option Error) where
  -- split, behind its guard.
  unfoldable pub split_valid : Replica → SplitRequest → Exec Store (List RangeDescriptor)
  split_valid r req =
      create_replica start_group (prev_desc r req) false
      >> (fill_range_stats r.range_id req.new_range_id req.new_range_bytes req.new_range_count
          >>= λ stats. set_range_stats stats >> pure (prev_desc r req ∷ post_desc r req ∷ []))

  -- split
  unfoldable pub split : Replica → SplitRequest → Exec Store (List RangeDescriptor)
  split r req s =
      if not (eq_ℤ r.range_id req.range_id)
        || not (validate_key_range r.range_desc.start_key r.range_desc.end_key req.split_key)
      then (err (Error.failure invalid_range), s)
      else split_valid r req s

-- updateRange
unfoldable pub update_range : ℤ → RangeDescriptor → Exec Replica Unit
update_range id desc r =
    if not (eq_ℤ r.range_id id)
    then (err (Error.failure invalid_range), r)
    else (ok tt, record r { range_desc = desc })
