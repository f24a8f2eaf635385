-- ===== src/Mvcc/Txn.antt =====
-- MVCCGetTxn and MVCCPutTxn of storage/engine/mvcc.go.
pub mod Record
use ancestor.Common.{
  Option, Bool, none, true, if◌then◌else◌, Bytes, some, false, ◌&&◌, length, ◌==◌,
}
use ancestor.Common.Int.{ltb_ℤ}
use ancestor.Engine.{Engine, Outcome, done, failed}
use ancestor.Meta.Key.{new_mvcc_key}
use ancestor.Meta.Timestamp.{less}
use ancestor.Meta.Message.{
  Transaction, TransactionStatus, pending, committed, aborted, Error, bytes,
}
use ancestor.Meta.Exec.{Exec, pure, raise, ◌>>=◌, ◌>>◌, raise_if, or_raise}
use ancestor.Mvcc.Protobuf.{Codec}
use ancestor.Mvcc.Store.{State, get_db, put_db, count}

-- meta.TxnChangeType…
pub data ChangeType : Type 0 where
  heartbeat begin end_txn push_timestamp push_abort : ChangeType

-- The status that a final transaction makes MVCCPutTxn fail with.
abbrev pub final_error : Transaction → Option Error
final_error t = elim t.status [
  | pending ↦ none
  | committed ↦ some (Error.transaction_status t false)
  | aborted ↦ some (Error.transaction_status t true)
]

abbrev is_push_timestamp : ChangeType → Bool
is_push_timestamp push_timestamp = true
is_push_timestamp _ = false

abbrev is_heartbeat : ChangeType → Bool
is_heartbeat heartbeat = true
is_heartbeat _ = false

abbrev pub is_begin : ChangeType → Bool
is_begin begin = true
is_begin _ = false

abbrev sets_status : ChangeType → Bool
sets_status push_abort = true
sets_status end_txn = true
sets_status _ = false

-- The three updates of MVCCPutTxn, on the local record and `needUpdate`.
unfoldable pub heartbeat_update : ChangeType → Transaction → Transaction × Bool → Transaction × Bool
heartbeat_update change req (local, need) =
    if is_heartbeat change && ltb_ℤ local.last_heartbeat req.last_heartbeat
    then (record local { last_heartbeat = req.last_heartbeat }, true)
    else (local, need)

unfoldable pub timestamp_update : Transaction → Transaction × Bool → Transaction × Bool
timestamp_update req (local, need) =
    if less local.timestamp req.timestamp
    then (record local { timestamp = req.timestamp }, true)
    else (local, need)

unfoldable pub status_update : ChangeType → Transaction → Transaction × Bool → Transaction × Bool
status_update change req (local, need) =
    if sets_status change then (record local { status = req.status }, true) else (local, need)

unfoldable pub update : ChangeType → Transaction → Transaction × Bool → Transaction × Bool
unfolding heartbeat_update timestamp_update status_update
update change req l =
    status_update change req (timestamp_update req (heartbeat_update change req l))

module _ (E : Engine) (C : Codec) where
  -- MVCCGetTxn
  unfoldable pub mvcc_get_txn : Bytes → Exec (State E) (Option Transaction)
  unfolding get_db
  mvcc_get_txn key = do
    raise_if (length key == 0) Error.invalid_key
    val ← get_db E (new_mvcc_key key) (Error.engine_get_data (new_mvcc_key key))
    elim val [
      | none ↦ pure none
      | some b ↦ elim (C.unmarshal_txn b) [
        | none ↦ raise Error.unmarshal_data
        | some t ↦ pure (some t)
      ]
    ]

  -- The local record that MVCCPutTxn starts from, and `needUpdate`.
  unfoldable pub local_txn : Transaction → ChangeType → Exec (State E) (Transaction × Bool)
  local_txn req change =
      let fresh = record req { last_heartbeat = req.timestamp.wall_time } in
      if is_begin change then pure (fresh, true) else do
        found ← mvcc_get_txn req.id
        elim found [ none ↦ pure (fresh, true) | some t ↦ pure (t, false) ]

  unfoldable pub write_txn : Bytes → Transaction → Exec (State E) Unit
  unfolding put_db count
  write_txn key txn = do
    encoded ← or_raise (C.marshal_txn txn) Error.marshal_data
    put_db E key encoded (Error.engine_put_data key)
    count E 0 0 (length key) (length encoded)

  -- MVCCPutTxn
  unfoldable pub mvcc_put_txn : Transaction → ChangeType → Exec (State E) Unit
  mvcc_put_txn req change = do
    (txn, need) ← local_txn req change
    elim (final_error txn) [
      | some e ↦ raise e
      | none ↦
          if is_push_timestamp change && less req.timestamp txn.timestamp
          then pure tt
          else let (txn', need') = update change req (txn, need) in
            if need' then write_txn (new_mvcc_key req.id) txn' else pure tt
    ]
