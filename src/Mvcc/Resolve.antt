-- ===== src/Mvcc/Resolve.antt =====
-- MVCCResolveWriteIntent of storage/engine/mvcc.go and its three cases.
use ancestor.Common.Int.{pos}
use ancestor.Common.{
  [], ◌∷◌, none, some, not, Option, Bytes, ℕ, if◌then◌else◌, List, length, bytes_equal, ◌==◌,
}
use ancestor.Engine.{Engine}
use ancestor.Engine.Scan.{scan}
use ancestor.Meta.Key.{new_mvcc_key, new_mvcc_time_key, bytes_next, decode}
use ancestor.Meta.Timestamp.{Timestamp, large}
use ancestor.Meta.Message.{
  Transaction, pending, committed, aborted, Value, MvccMetadata, Intent, Error,
}
use ancestor.Meta.Exec.{Exec, pure, raise, crash, gets, or_raise, ok, err, panic, ◌>>=◌, ◌>>◌}
use ancestor.Mvcc.Protobuf.{Codec}
use ancestor.Mvcc.Store.{
  State, clear_db, count_unchecked, mvcc_get_meta, mvcc_put_meta, mvcc_put, mvcc_clear, mvcc_get,
}

-- `*val`, which panics on a nil pointer.
abbrev pub deref : {S A : Type 0} → Option A → Exec S A
deref none = crash
deref (some a) = pure a

module _ (E : Engine) (C : Codec) where
  -- The rest of mvccResolveIntentUpdate, behind its call of MVCCGet.
  unfoldable pub update_found :
      Bytes → Transaction → Timestamp → Option Value × ℕ × ℕ → Exec (State E) Unit
  update_found key txn ts (val, mvcc_key_size, val_size) = do
    value ← deref val
    mvcc_put E C key txn value
    mvcc_clear E C key ts
    count_unchecked E mvcc_key_size val_size 0 0

  -- mvccResolveIntentUpdate
  unfoldable pub resolve_intent_update : Bytes → Transaction → MvccMetadata → Exec (State E) Unit
  resolve_intent_update key txn local_meta =
      mvcc_get E C key local_meta.timestamp >>= update_found key txn local_meta.timestamp

  -- mvccResolveIntentPending
  unfoldable pub resolve_intent_pending :
      Bytes → Transaction → MvccMetadata → ℕ → ℕ → Exec (State E) Unit
  resolve_intent_pending key txn local_meta orig_key_size orig_val_size =
      if not (large txn.timestamp local_meta.timestamp) then pure tt else do
        mvcc_put_meta E C key txn local_meta.deleted orig_key_size orig_val_size
        resolve_intent_update key txn local_meta

  -- mvccResolveIntentCommit
  unfoldable pub resolve_intent_commit :
      Bytes → Transaction → MvccMetadata → ℕ → ℕ → Exec (State E) Unit
  resolve_intent_commit key txn local_meta orig_key_size orig_val_size = do
    mvcc_put_meta E C key txn local_meta.deleted orig_key_size orig_val_size
    (if not (large txn.timestamp local_meta.timestamp)
        then pure tt
        else resolve_intent_update key txn local_meta)

  -- The metadata of the version that stood below the one that was cleared.
  unfoldable pub previous_meta : Bytes → Transaction → ℕ → ℕ → Bytes × Bytes → Exec (State E) Unit
  previous_meta key txn orig_key_size orig_val_size (mvcc_key, encoded) =
      let d = decode mvcc_key in
      elim d.error [
        | some e ↦ raise (Error.bad_key e)
        | none ↦ do
          mvcc_val ← or_raise (C.unmarshal_value encoded) Error.unmarshal_data
          value ← deref mvcc_val.value
          mvcc_put_meta E C key (record txn { timestamp = d.ts }) (length value.bytes == 0)
              orig_key_size orig_val_size
          pure tt
      ]

  -- mvccResolveIntentAbort
  unfoldable pub resolve_intent_abort :
      Bytes → Transaction → MvccMetadata → ℕ → ℕ → Exec (State E) Unit
  resolve_intent_abort key txn local_meta orig_key_size orig_val_size = do
    mvcc_clear E C key local_meta.timestamp
    count_unchecked E orig_key_size orig_val_size 0 0
    let next_key = bytes_next (new_mvcc_time_key key local_meta.timestamp)
    let end_scan_key = new_mvcc_key (bytes_next key)
    kvs ← gets (λ s. scan E s.db next_key end_scan_key 1)
    elim kvs [
      | [] ↦ do
        clear_db E (new_mvcc_key key) (Error.engine_clear_data key)
        count_unchecked E orig_key_size orig_val_size 0 0
      | kv ∷ _ ↦ previous_meta key txn orig_key_size orig_val_size kv
    ]

  -- `&meta.Transaction{Timestamp: resolveTxn.Timestamp}`
  abbrev pub updated_txn : Transaction → Transaction
  updated_txn txn = record {
    name = [];
    id = [];
    priority = pos 0;
    status = pending;
    last_heartbeat = pos 0;
    timestamp = txn.timestamp;
    sequence = 0;
  }

  unfoldable pub resolve_by_status : Intent → MvccMetadata → ℕ → ℕ → Exec (State E) Unit
  resolve_by_status intent local_meta key_size val_size = elim intent.txn.status [
    | pending ↦
        resolve_intent_pending intent.key (record (updated_txn intent.txn) { id = intent.txn.id })
          local_meta key_size val_size
    | aborted ↦
        resolve_intent_abort intent.key (updated_txn intent.txn) local_meta key_size val_size
    | committed ↦
        resolve_intent_commit intent.key (updated_txn intent.txn) local_meta key_size val_size
  ]

  -- One round of the loop of MVCCResolveWriteIntent: an error is logged and ends the round only.
  unfoldable pub resolve_one : Intent → Exec (State E) Unit
  resolve_one intent s =
      let (found, s') = mvcc_get_meta E C intent.key s in
      elim found [
        | panic ↦ (panic, s')
        | err _ ↦ (ok tt, s')
        | ok (none, _, _) ↦ (ok tt, s')
        | ok (some local_meta, key_size, val_size) ↦
            if bytes_equal local_meta.transaction_id intent.txn.id
            then (let (r, s'') = resolve_by_status intent local_meta key_size val_size s' in
                elim r [ panic ↦ (panic, s'') | err _ ↦ (ok tt, s'') | ok _ ↦ (ok tt, s'') ])
            else (ok tt, s')
      ]

  -- MVCCResolveWriteIntent
  unfoldable pub mvcc_resolve_write_intent : List Intent → Exec (State E) Unit
  mvcc_resolve_write_intent [] = pure tt
  mvcc_resolve_write_intent (intent ∷ intents) =
      resolve_one intent >> mvcc_resolve_write_intent intents
