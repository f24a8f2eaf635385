-- ===== src/Mvcc/Store.antt =====
-- storage/engine/mvcc.go: metadata and versions.
pub mod Versions
pub mod Read
use ancestor.Common.{
  Option, ℕ, Bool, Bytes, if◌then◌else◌, none, some, length, ◌==◌, ◌&&◌, bytes_equal, take, ◌-◌, [],
  ◌∷◌,
}
use ancestor.Engine.{Engine, Outcome, done, failed}
use ancestor.Engine.Scan.{scan}
use ancestor.Meta.Key.{new_mvcc_key, new_mvcc_time_key, bytes_next, decode, encode_timestamp_size}
use ancestor.Meta.Timestamp.{Timestamp}
use ancestor.Meta.Message.{Transaction, Value, MvccMetadata, MvccValue, Error, bytes}
use ancestor.Meta.Stats.{RangeStats, update_range_stats}
use ancestor.Meta.Exec.{Exec, pure, raise, crash, ◌>>=◌, ◌>>◌, ok, err, panic, raise_if, or_raise}
use ancestor.Mvcc.Protobuf.{Codec}

pub record State (E : Engine) : Type 0 where
  pub db : E.Db
  pub stats : Option RangeStats

-- The test of mvccGetInternal on the key that the iterator found: as long as the key that was
-- looked for, and equal but for the twelve bytes of the timestamp.
unfoldable pub same_key : Bytes → Bytes → Bool
same_key mvcc_key enc_key =
    length mvcc_key == length enc_key
    && bytes_equal (take (length mvcc_key - encode_timestamp_size) mvcc_key)
        (take (length enc_key - encode_timestamp_size) enc_key)

module _ (E : Engine) where
  -- engine.Get, Put and Clear, with the error that the caller makes of theirs.
  unfoldable pub get_db : Bytes → Error → Exec (State E) (Option Bytes)
  get_db k e s = elim (E.get s.db k) [ done v ↦ (ok v, s) | failed ↦ (err e, s) ]

  unfoldable pub put_db : Bytes → Bytes → Error → Exec (State E) Unit
  put_db k v e s = elim (E.put s.db k v) [
    | done db' ↦ (ok tt, record s { db = db' })
    | failed ↦ (err e, s)
  ]

  unfoldable pub clear_db : Bytes → Error → Exec (State E) Unit
  clear_db k e s = elim (E.clear s.db k) [
    | done db' ↦ (ok tt, record s { db = db' })
    | failed ↦ (err e, s)
  ]

  -- `if stats != nil { stats.UpdateRangeStats(…) }`
  unfoldable pub count : ℕ → ℕ → ℕ → ℕ → Exec (State E) Unit
  count ok_size ov_size k_size v_size s = elim s.stats [
    | none ↦ (ok tt, s)
    | some rs ↦
        (ok tt, record s { stats = some (update_range_stats ok_size ov_size k_size v_size rs) })
  ]

  -- `stats.UpdateRangeStats(…)` with no test, which panics on a nil pointer.
  unfoldable pub count_unchecked : ℕ → ℕ → ℕ → ℕ → Exec (State E) Unit
  count_unchecked ok_size ov_size k_size v_size s = elim s.stats [
    | none ↦ (panic, s)
    | some rs ↦
        (ok tt, record s { stats = some (update_range_stats ok_size ov_size k_size v_size rs) })
  ]

module _ (E : Engine) (C : Codec) where
  -- MVCCGetMeta: the metadata with the lengths of the encoded key and of the stored value.
  unfoldable pub mvcc_get_meta : Bytes → Exec (State E) (Option MvccMetadata × ℕ × ℕ)
  unfolding get_db
  mvcc_get_meta key = do
    raise_if (length key == 0) Error.invalid_key
    let meta_key = new_mvcc_key key
    val ← get_db E meta_key (Error.engine_get_data key)
    elim val [
      | none ↦ pure (none, 0, 0)
      | some b ↦ elim (C.unmarshal_metadata b) [
        | none ↦ raise Error.unmarshal_data
        | some m ↦ pure (some m, length meta_key, length b)
      ]
    ]

  -- MVCCPutMeta
  unfoldable pub mvcc_put_meta : Bytes → Transaction → Bool → ℕ → ℕ → Exec (State E) (ℕ × ℕ)
  unfolding put_db count
  mvcc_put_meta key txn deleted orig_key_size orig_val_size = do
    raise_if (length key == 0) Error.invalid_key
    let meta_key = new_mvcc_key key
    encoded ←
        or_raise
          (C.marshal_metadata
            (record { transaction_id = txn.id; timestamp = txn.timestamp; deleted = deleted }))
          Error.marshal_data
    put_db E meta_key encoded (Error.engine_put_data meta_key)
    count E orig_key_size orig_val_size (length meta_key) (length encoded)
    pure (length meta_key, length encoded)

  -- mvccPutInternal, for a transaction that is not nil.
  unfoldable pub mvcc_put_internal : Bytes → MvccValue → Transaction → Exec (State E) Unit
  unfolding put_db count
  mvcc_put_internal key val txn = do
    let mvcc_key = new_mvcc_time_key key txn.timestamp
    encoded ← or_raise (C.marshal_value val) Error.marshal_data
    put_db E mvcc_key encoded (Error.engine_put_data mvcc_key)
    count E 0 0 (length mvcc_key) (length encoded)

  -- MVCCPut
  unfoldable pub mvcc_put : Bytes → Transaction → Value → Exec (State E) Unit
  unfolding mvcc_put_internal
  mvcc_put key txn value = mvcc_put_internal key (record { value = some value }) txn

  -- MVCCClear
  unfoldable pub mvcc_clear : Bytes → Timestamp → Exec (State E) Unit
  unfolding clear_db
  mvcc_clear key timestamp =
      clear_db E (new_mvcc_time_key key timestamp) (Error.engine_clear_data key)

  found_value : Bytes → Bytes × Bytes → Exec (State E) (Option Value × ℕ × ℕ)
  found_value enc_key (mvcc_key, val) =
      if same_key mvcc_key enc_key
      then elim (C.unmarshal_value val) [
        | none ↦ raise Error.unmarshal_data
        | some v ↦ pure (v.value, length mvcc_key, length val)
      ]
      else pure (none, length mvcc_key, 0)

  -- mvccGetInternal: the first version at or after the encoded key and timestamp.
  unfoldable pub mvcc_get_internal : Bytes → Timestamp → Exec (State E) (Option Value × ℕ × ℕ)
  unfolding found_value
  mvcc_get_internal key ts s =
      let enc_key = new_mvcc_time_key key ts in
      elim (E.forward s.db enc_key) [
        | [] ↦ (ok (none, 0, 0), s)
        | found ∷ _ ↦ found_value enc_key found s
      ]

  -- MVCCGet
  unfoldable pub mvcc_get : Bytes → Timestamp → Exec (State E) (Option Value × ℕ × ℕ)
  unfolding mvcc_get_internal
  mvcc_get key ts = raise_if (length key == 0) Error.invalid_key >> mvcc_get_internal key ts
