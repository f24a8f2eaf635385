-- ===== src/Pd/Check.antt =====
-- pd/check.go: the checks that split a range that has grown and give replicas to ranges that have
-- too few, and the strategy of pd/decision_maker.go.
pub mod Routes
use ancestor.Common.{
  Bytes, ℕ, zero, suc, Bool, true, false, Option, none, some, List, [], ◌∷◌, ◌++◌, if◌then◌else◌,
  ◌+◌, ◌-◌, ◌^◌, ◌/◌, ◌*◌, length, map, ltb, ◌&&◌, not, get_elem?, ◌/◌,
}
use ancestor.Common.Int.{ℤ, pos, negsuc, eq_ℤ, ltb_ℤ}
use ancestor.Meta.Message.{Error, Failure, no_new_id}
use ancestor.Meta.Exec.{
  Exec, Result, Tried, worked, refused, attempt, ok, err, panic, ◌>>=◌, ◌>>◌, pure, raise, crash,
}
use ancestor.Meta.Stats.{RangeStats}
use ancestor.Store.{RangeDescriptor, ReplicaDescriptor}
use ancestor.Pd.Cluster.{
  Cluster, NodeDescriptor, count, NodeStats, get_node_stats, get_idle_node, find, assign, delete,
}
use ancestor.Pd.Ranges.{OrderedCache, RangeCache, modify, unstable}
use ancestor.Pd.State.{
  DelayRecord, Pd, Outside, NodeRequest, NodeResponse, split_key_response, split_response,
  other_response, get_split_key_request, split_request, update_range_request,
  create_replica_request,
}
use ancestor.Pd.Send.{descriptor, send_to_leader}
use ancestor.Pd.Region.{new_id, get_range_descriptor, set_range_descriptors}

abbrev pub min_replica : ℕ
min_replica = 3

abbrev pub second : ℕ
second = 10 ^ 9

abbrev pub max_retry_interval : ℕ
max_retry_interval = 60 * second

-- checkSplit of the default strategy. The size that float32(cap)*threshold stands for is `limit`,
-- since the model has no floats.
unfoldable pub check_split : RangeStats → ℤ → Bool
check_split r limit = r.is_raft_leader && not r.is_removed && ltb_ℤ limit r.total_bytes

-- int64(n) / 2, which rounds towards zero.
unfoldable pub half : ℤ → ℤ
half (pos n) = pos (n / 2)
half (negsuc zero) = pos 0
half (negsuc (suc n)) = negsuc (n / 2)

module _ (O : OrderedCache) (out : Outside) where
  -- getSplitKey: the key, bytes and count of the response, which must be of the right kind.
  unfoldable pub split_key_of : NodeResponse → Exec (Pd O.Cache) (Bytes × ℤ × ℤ)
  split_key_of (split_key_response key bytes n) = pure (key, bytes, n)
  split_key_of _ = crash

  -- getSplitKey
  unfoldable pub get_split_key : RangeStats → Exec (Pd O.Cache) (Bytes × ℤ × ℤ)
  get_split_key rsi = get_range_descriptor O out rsi.range_id >>= λ r.
      send_to_leader O out r (get_split_key_request rsi.range_id (half rsi.total_bytes))
      >>= split_key_of

  -- bresp.Resp[0].Split.RangeDescriptors[0] and [1]
  unfoldable pub split_descs : NodeResponse → Exec (Pd O.Cache) (RangeDescriptor × RangeDescriptor)
  split_descs (split_response (prev ∷ post ∷ _)) = pure (prev, post)
  split_descs _ = crash

  -- updateRangeDescriptor
  unfoldable pub update_range_descriptor : RangeDescriptor → ℕ → Exec (Pd O.Cache) (Unit {0})
  update_range_descriptor nrd r = send_to_leader O out r (update_range_request nrd) >> pure tt

  -- What requestSplit does with the two descriptors.
  unfoldable pub record_split : ℕ → RangeDescriptor × RangeDescriptor → Exec (Pd O.Cache) (Unit {0})
  record_split r (prev, post) =
      update_range_descriptor post r >> set_range_descriptors O out (post ∷ prev ∷ [])

  unfoldable pub after_split : ℕ → NodeResponse → Exec (Pd O.Cache) (Unit {0})
  after_split r resp = split_descs resp >>= record_split r

  -- requestSplit with the new id and the pointer to the descriptor.
  unfoldable pub send_split : RangeStats → Bytes → ℤ → ℤ → ℤ → ℕ → Exec (Pd O.Cache) (Unit {0})
  send_split rsi key bytes n id r =
      send_to_leader O out r (split_request rsi.range_id key id bytes n) >>= after_split r

  unfoldable pub ask_split : RangeStats → Bytes → ℤ → ℤ → ℤ → Exec (Pd O.Cache) (Unit {0})
  ask_split rsi key bytes n id =
      get_range_descriptor O out rsi.range_id >>= send_split rsi key bytes n id

  -- requestSplit
  unfoldable pub request_split : RangeStats → Bytes → ℤ → ℤ → Exec (Pd O.Cache) (Unit {0})
  request_split rsi key bytes n = new_id O out >>= ask_split rsi key bytes n

  -- checkRangeSplit
  unfoldable pub check_range_split : ℤ → RangeStats → Exec (Pd O.Cache) (Unit {0})
  check_range_split limit r =
      if check_split r limit
      then (get_split_key r >>= λ (k, b, n). request_split r k b n)
      else pure tt

  -- time.Now
  unfoldable pub now : Exec (Pd O.Cache) ℕ
  now s = (ok (out.clock s.readings), record s { readings = s.readings + 1 })

  unfoldable pub set_delay : ℤ → DelayRecord → Exec (Pd O.Cache) (Unit {0})
  set_delay id d s = (ok tt, record s { delay_record = assign eq_ℤ id d s.delay_record })

  unfoldable pub drop_delay : ℤ → Exec (Pd O.Cache) (Unit {0})
  drop_delay id s = (ok tt, record s { delay_record = delete eq_ℤ id s.delay_record })

  -- newDelayRecord
  unfoldable pub new_delay_record : Exec (Pd O.Cache) DelayRecord
  new_delay_record = now >>= λ t. pure (record { timeout = t + second; interval = second })

  -- valid
  unfoldable pub is_valid : DelayRecord → Exec (Pd O.Cache) Bool
  is_valid d = now >>= λ t. pure (not (ltb d.timeout t))

  -- next of delayRecord
  unfoldable pub next_delay : DelayRecord → Exec (Pd O.Cache) DelayRecord
  next_delay d =
      let doubled = d.interval * 2 in
      let interval = if ltb max_retry_interval doubled then max_retry_interval else doubled in
      now >>= λ t. pure (record { timeout = t + interval; interval = interval })

  -- What checkDelayRecord does once the delay is over.
  unfoldable pub after_delay : ℤ → DelayRecord → Tried (Unit {0}) → Exec (Pd O.Cache) Bool
  after_delay id d (refused e) = next_delay d >>= λ d'. set_delay id d' >> pure true
  after_delay id d (worked _) = drop_delay id >> pure true

  -- checkDelayRecord
  unfoldable pub check_delay_record : ℤ → RangeStats → Exec (Pd O.Cache) Bool
  check_delay_record limit rs s = elim (find eq_ℤ rs.range_id s.delay_record) [
    | none ↦ (ok false, s)
    | some d ↦
        (is_valid d >>= λ b.
        if b
        then pure true
        else (attempt (check_range_split limit rs) >>= after_delay rs.range_id d))
          s
  ]

  unfoldable pub after_check : ℤ → Tried (Unit {0}) → Exec (Pd O.Cache) (Unit {0})
  after_check id (refused e) = new_delay_record >>= set_delay id
  after_check id (worked _) = pure tt

  -- The inner loop of checkSplit.
  unfoldable pub check_ranges : ℤ → List (ℤ × RangeStats) → Exec (Pd O.Cache) (Unit {0})
  check_ranges limit [] = pure tt
  check_ranges limit ((_, rs) ∷ rest) =
      (check_delay_record limit rs >>= λ b.
      if b then pure tt else (attempt (check_range_split limit rs) >>= after_check rs.range_id))
      >> check_ranges limit rest

  unfoldable pub check_nodes : ℤ → List NodeStats → Exec (Pd O.Cache) (Unit {0})
  check_nodes limit [] = pure tt
  check_nodes limit (ns ∷ rest) = check_ranges limit ns.range_stats_info >> check_nodes limit rest

  -- Server.checkSplit
  unfoldable pub check_all_splits : ℤ → Exec (Pd O.Cache) (Unit {0})
  check_all_splits limit s = check_nodes limit (get_node_stats [] s.cluster) s
