-- ===== src/Replica.antt =====
-- storage/replica_command.go: the commands of a replica over the versions and the transaction
-- records of its engine. The statistics of the range are those of the state; a call that is
-- handed nil for them runs by `without_stats`. The wrappers putTxnData, getMetaData and so on only
-- pass their arguments on, so the functions of storage/engine/mvcc.go stand in their place.
pub mod Put
pub mod Push
pub mod Commit
use ancestor.Common.{
  none, some, Bool, Option, Bytes, true, length, if◌then◌else◌, [], ℕ, false, ◌==◌, ◌&&◌, not,
  bytes_less, bytes_equal, List,
}
use ancestor.Common.Int.{ℤ, pos, ltb_ℤ, sub_int64}
use ancestor.Engine.{Engine}
use ancestor.Meta.Timestamp.{Timestamp, less, large, equal, next}
use ancestor.Meta.Message.{
  Transaction, TransactionStatus, pending, committed, aborted, Value, ValueType, MvccMetadata,
  Intent, PushTxnType, push_timestamp, push_abort, push_touch, Error,
}
use ancestor.Meta.Exec.{Result, Exec, pure, raise, crash, ok, err, panic, raise_if, ◌>>=◌, ◌>>◌}
use ancestor.Mvcc.Protobuf.{Codec}
use ancestor.Mvcc.Store.{State, mvcc_get_meta, mvcc_put_meta, mvcc_put, mvcc_clear, mvcc_get}
use ancestor.Mvcc.Txn.{ChangeType, mvcc_get_txn, mvcc_put_txn}
use ancestor.Mvcc.Resolve.{mvcc_resolve_write_intent, deref}

-- txnExpiredTime, 5 * time.Second, as the int64 that it is compared as.
abbrev pub txn_expired_time : ℤ
txn_expired_time = pos 5_000_000_000

unfoldable pub is_unknown : ValueType → Bool
is_unknown ValueType.unknown = true
is_unknown _ = false

unfoldable pub is_push_timestamp : PushTxnType → Bool
is_push_timestamp push_timestamp = true
is_push_timestamp _ = false

unfoldable pub is_none {ℓ} : {A : Type ℓ} → Option A → Bool
is_none none = true
is_none (some _) = false

-- isNoneValue
unfoldable pub is_none_value : Value → Bool
unfolding is_unknown is_none
is_none_value val =
    length val.bytes == 0 && (val.checksum == 0 && (is_none val.timestamp && is_unknown val.tag))

-- validateKeyRange, for the range [start, end) of a replica.
unfoldable pub validate_key_range : Bytes → Bytes → Bytes → Bool
validate_key_range start end key =
    if length end == 0 && not (bytes_less key start)
    then true
    else not (bytes_less key start) && bytes_less key end

module _ (E : Engine) where
  abbrev pub without_stats : {A : Type 0} → Exec (State E) A → Exec (State E) A
  without_stats m s =
      let (r, s') = m (record s { stats = none }) in (r, record s' { stats = s.stats })

module _ (E : Engine) (C : Codec) where
  -- What getInternal does once it has the metadata: `ts` is the time to read at, and `check_del`
  -- whether a deleted newest version hides the value.
  unfoldable pub get_version :
      Bytes → Timestamp → Bool → MvccMetadata → Exec (State E) (Option Value)
  get_version key ts check_del meta =
      if check_del && meta.deleted
      then pure none
      else do (val, _, _) ← mvcc_get E C key ts; pure val

  unfoldable pub get_with_meta :
      Bytes → Timestamp → Transaction → MvccMetadata → Exec (State E) (Option Value)
  get_with_meta key ts txn meta =
      if not (length meta.transaction_id == 0)
      then if not (bytes_equal meta.transaction_id txn.id)
        then if not (less ts meta.timestamp)
          then raise (Error.write_intent txn push_timestamp meta.transaction_id key)
          else get_version key ts false meta
        else get_version key meta.timestamp true meta
      else get_version key ts (not (less ts meta.timestamp)) meta

  -- getInternal
  unfoldable pub get_internal : Bytes → Timestamp → Transaction → Exec (State E) (Option Value)
  get_internal key ts txn = do
    (found, _, _) ← mvcc_get_meta E C key
    elim found [ none ↦ pure none | some meta ↦ get_with_meta key ts txn meta ]

  -- get: the value of the response, empty where there is none.
  unfoldable pub get : Bytes → Timestamp → Transaction → Exec (State E) Value
  get key ts txn = do
    val ← get_internal key ts txn
    pure (elim val [
      | none ↦ record { bytes = []; checksum = 0; timestamp = none; tag = ValueType.unknown }
      | some v ↦ v
    ])

  -- putDataAndMeta
  unfoldable pub put_data_and_meta :
      Bytes → Transaction → Value → Bool → ℕ → ℕ → Exec (State E) Unit
  put_data_and_meta key txn val deleted orig_key_size orig_val_size = do
    mvcc_put_meta E C key txn deleted orig_key_size orig_val_size
    mvcc_put E C key txn val

  -- What put makes of the metadata that it finds: an error, or the old version of its own
  -- transaction cleared.
  unfoldable pub check_meta : Bytes → Timestamp → Transaction → MvccMetadata → Exec (State E) Unit
  check_meta key ts txn meta =
      if length meta.transaction_id == 0
      then raise_if (less ts meta.timestamp) (Error.write_too_old ts meta.timestamp)
      else if not (bytes_equal meta.transaction_id txn.id)
      then raise (Error.write_intent txn push_abort meta.transaction_id key)
      else if not (equal meta.timestamp ts)
      then mvcc_clear E C key meta.timestamp
      else pure tt

  unfoldable pub put_value : Bytes → Transaction → Value → Bool → ℕ → ℕ → Exec (State E) Unit
  put_value key txn val was_deleted orig_key_size orig_val_size =
      if is_none_value val && was_deleted
      then pure tt
      else put_data_and_meta key txn val (is_none_value val) orig_key_size orig_val_size

  -- The rest of put, behind its call of getMetaData.
  unfoldable pub put_found :
      Bytes → Timestamp → Transaction → Value → Option MvccMetadata × ℕ × ℕ → Exec (State E) Unit
  put_found key ts txn val (none, m, n) = put_value key txn val true m n
  put_found key ts txn val (some meta, m, n) =
      check_meta key ts txn meta >> put_value key txn val meta.deleted m n

  -- put
  unfoldable pub put : Bytes → Timestamp → Transaction → Value → Exec (State E) Unit
  put key ts txn val = mvcc_get_meta E C key >>= put_found key ts txn val

  -- The write at the end of processPushTransaction and the pushee that it returns.
  unfoldable pub push_with : Transaction → ChangeType → Exec (State E) Transaction
  push_with pushee change = do without_stats E (mvcc_put_txn E C pushee change); pure pushee

  -- What processPushTransaction does with a pending pushee.
  unfoldable pub push_pending :
      Timestamp → PushTxnType → Transaction → Transaction → Exec (State E) Transaction
  push_pending latest push_type pusher pushee =
      if is_push_timestamp push_type && large pushee.timestamp pusher.timestamp
      then pure pushee
      else if ltb_ℤ txn_expired_time (sub_int64 latest.wall_time pushee.last_heartbeat)
      then push_with (record pushee { status = aborted }) ChangeType.push_abort
      else if ltb_ℤ pusher.priority pushee.priority
      then raise (Error.transaction_aborted pusher)
      else elim push_type [
        | push_timestamp ↦ do
          ts ← deref (next pusher.timestamp)
          push_with (record pushee { timestamp = ts }) ChangeType.push_timestamp
        | push_abort ↦ push_with (record pushee { status = aborted }) ChangeType.push_abort
        | push_touch ↦ raise (Error.transaction_aborted pusher)
      ]

  -- processPushTransaction
  unfoldable pub process_push_transaction :
      Bytes → Timestamp → PushTxnType → Transaction → Exec (State E) Transaction
  process_push_transaction key latest push_type pusher = do
    found ← mvcc_get_txn E C key
    elim found [
      | none ↦ raise Error.invalid_transaction
      | some pushee ↦ elim pushee.status [
        | pending ↦ push_pending latest push_type pusher pushee
        | committed ↦ pure pushee
        | aborted ↦ pure pushee
      ]
    ]

  -- beginTransaction
  unfoldable pub begin_transaction : Transaction → Exec (State E) Unit
  begin_transaction txn = mvcc_put_txn E C txn ChangeType.begin

  -- endTransaction
  unfoldable pub end_transaction : Transaction → Bool → Exec (State E) Unit
  end_transaction txn commit = without_stats E (
      mvcc_put_txn E C (record txn { status = if commit then committed else aborted })
        ChangeType.end_txn)

  -- heartbeatTransaction: the transaction of the response, set where the status is final. Other
  -- errors are logged.
  unfoldable pub heartbeat_transaction :
      Transaction → Exec (State E) (Option (Bytes × TransactionStatus))
  heartbeat_transaction txn s =
      let (r, s') = without_stats E (mvcc_put_txn E C txn ChangeType.heartbeat) s in
      elim r [
        | panic ↦ (panic, s')
        | ok _ ↦ (ok none, s')
        | err (Error.transaction_status _ _) ↦ (ok (some (txn.id, aborted)), s')
        | err _ ↦ (ok none, s')
      ]

  -- resolveIntent
  unfoldable pub resolve_intent : List Intent → Exec (State E) Unit
  resolve_intent intents = mvcc_resolve_write_intent E C intents
