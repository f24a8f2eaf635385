-- ===== src/Pd/State.antt =====
-- The fields of Server (pd/server.go) that the ranges of the placement driver need, and what it
-- meets outside: the ids that the allocator gives, whether etcd accepts a write, and how nodes
-- answer, at each call in turn.
use ancestor.Common.{Bytes, ℕ, Bool, Option, List}
use ancestor.Common.Int.{ℤ}
use ancestor.Meta.Message.{Error}
use ancestor.Store.{RangeDescriptor}
use ancestor.Pd.Cluster.{Cluster}
use ancestor.Pd.Ranges.{RangeCache}

-- The requests that the driver sends to nodes.
pub data NodeRequest : Type 0 where
  get_split_key_request : (range_id : ℤ) (split_size : ℤ) → NodeRequest
  split_request : (range_id : ℤ) (split_key : Bytes) (new_range_id bytes count : ℤ) → NodeRequest
  update_range_request : (desc : RangeDescriptor) → NodeRequest
  add_raft_conf_request : (range_id : ℤ) (node_id : ℤ) → NodeRequest
  compact_log_request : (range_id : ℤ) → NodeRequest
  create_replica_request : (desc : RangeDescriptor) (node_id : ℤ) → NodeRequest
  remove_replica_request : (range_id : ℤ) (node_id : ℤ) → NodeRequest
  delete_raft_conf_request : (range_id : ℤ) (node_id : ℤ) → NodeRequest
  transfer_leader_request : (range_id : ℤ) (src dst : ℤ) → NodeRequest

-- The first response of a batch.
pub data NodeResponse : Type 0 where
  split_key_response : (split_key : Bytes) (range_bytes range_count : ℤ) → NodeResponse
  split_response : (descs : List RangeDescriptor) → NodeResponse
  other_response : NodeResponse

-- No client for the address, a call that fails, or a batch response with its error.
pub data Answer : Type 0 where
  no_client call_failed : Answer
  answered : Option Error → NodeResponse → Answer

-- delayRecord, in nanoseconds.
pub record DelayRecord : Type 0 where
  pub timeout : ℕ
  pub interval : ℕ

pub record Pd (C : Type 0) : Type 0 where
  pub cluster : Cluster
  pub ranges : RangeCache C
  -- Calls of newID so far, and calls of etcd's transactions.
  pub ids : ℕ
  pub writes : ℕ
  -- The calls of nodes that were tried, the latest first.
  pub sent : List (ℤ × NodeRequest)
  -- Readings of the clock so far.
  pub readings : ℕ
  pub delay_record : List (ℤ × DelayRecord)

pub record Outside : Type 0 where
  pub fresh_id : ℕ → Option ℤ
  pub accepts : ℕ → Bool
  -- The clock, and whether the client can be opened.
  pub clock : ℕ → ℕ
  pub opens : Bool
  pub respond : ℕ → ℤ → NodeRequest → Answer
