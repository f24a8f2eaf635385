-- ===== src/Meta/Message.antt =====
-- meta/data.proto and storage/engine/mvcc.proto, the messages as they reach the Go code
-- (meta/data.pb.go, storage/engine/mvcc.pb.go), and the errors of meta/errors.go without their texts. A nil byte string and an
-- empty one are both []: the code tells them apart only for the id of a transaction, which is
-- never empty where it is set.
use ancestor.Common.{Bytes, Option, ℕ, Bool}
use ancestor.Common.Int.{ℤ}
use ancestor.Meta.Timestamp.{Timestamp}
use ancestor.Meta.Key.{KeyError}

pub data TransactionStatus : Type 0 where
  pending committed aborted : TransactionStatus

pub record Transaction : Type 0 where
  pub name : Bytes
  pub id : Bytes
  pub priority : ℤ
  pub status : TransactionStatus
  pub last_heartbeat : ℤ
  pub timestamp : Timestamp
  pub sequence : ℕ

pub data ValueType : Type 0 where
  unknown int float bytes time timeseries metadata transaction mvcc_value : ValueType

pub record Value : Type 0 where
  pub bytes : Bytes
  pub checksum : ℕ
  pub timestamp : Option Timestamp
  pub tag : ValueType

-- MVCCMetadata; a transaction id of [] is nil.
pub record MvccMetadata : Type 0 where
  pub transaction_id : Bytes
  pub timestamp : Timestamp
  pub deleted : Bool

-- MVCCValue; the code never sets its field `deleted`.
pub record MvccValue : Type 0 where
  pub value : Option Value

pub record Intent : Type 0 where
  pub key : Bytes
  pub txn : Transaction

pub data PushTxnType : Type 0 where
  push_timestamp push_abort push_touch : PushTxnType

-- Errors that are not of meta/errors.go: those of fmt.Errorf and errors.New, and of the packages
-- raft and badger.
pub data Failure : Type 0 where
  bad_tag bad_length bad_number : Failure
  raft_compacted raft_unavailable raft_gap raft_bad_bounds : Failure
  compact_needless compact_beyond_last : Failure
  batch_commit : Failure
  invalid_range exist_node not_found_node no_split_key no_range_stats already_exist : Failure
  bad_request unknown_request unknown_range request_node : Failure
  not_found_in_cache lost_master send_fail not_master not_ready no_new_id etcd_fail bad_json :
      Failure
  replica_not_exist config_fail need_retry invalid_value not_exist no_timestamp : Failure

pub data Error : Type 0 where
  invalid_key : Error
  engine_get_data engine_put_data engine_clear_data : Bytes → Error
  marshal_data unmarshal_data : Error
  invalid_transaction : Error
  transaction_status : Transaction → Bool → Error
  transaction_aborted : Transaction → Error
  write_too_old : Timestamp → Timestamp → Error
  write_intent : Transaction → PushTxnType → Bytes → Bytes → Error
  range_not_found : ℤ → Error
  not_leader : ℤ → Error
  bad_key : KeyError → Error
  iterator : Error
  failure : Failure → Error
