-- ===== src/Client/Txn.antt =====
-- client/txn.go and client/resolve_intent.go: a transaction of the client, which buffers its writes
-- and sends them when it commits. The requests of doNodeRequest (client/base.go) are answered from
-- outside, and so are the lookups of ranges. The buffer is an ordered cache, as in Pd/Ranges.
pub mod Puts
pub mod Sends
pub mod Commits
pub mod Returns
use ancestor.Common.{
  Bytes, ℕ, zero, suc, Bool, true, false, Option, none, some, List, [], ◌∷◌, ◌++◌, ◌≡◌, length, map,
  if◌then◌else◌, ◌==◌, ◌+◌, take, drop, not, bytes_equal, ◌&&◌, ◌||◌,
}
use ancestor.Common.Int.{ℤ, eq_ℤ}
use ancestor.Meta.Timestamp.{Timestamp, zero_timestamp, less}
use ancestor.Meta.Message.{
  Error, Failure, TransactionStatus, pending, committed, aborted, need_retry, invalid_value,
  not_exist, no_timestamp, unknown_range,
}
use ancestor.Meta.Exec.{
  Exec, Result, Tried, worked, refused, attempt, ok, err, panic, ◌>>=◌, ◌>>◌, pure, raise, crash,
  gets,
}
use ancestor.Client.State.{
  Buffer, PutRequest, Call, begin_call, put_call, end_call, Txn, World, Batches, max_batch_put_size,
  user_key, add_put, put_of, put_error, is_pooled,
}

module _ (B : Buffer) (w : World) where
  abbrev pub T : Type 0
  T = Txn B.Cache

  unfoldable pub call : Call → Exec T (Unit {0})
  call c s = (
    elim (w.respond (length s.sent) c) [ none ↦ ok tt | some e ↦ err e ],
    record s { sent = s.sent ++ c ∷ [] },
  )

  -- newTransaction at the timestamp read, or at the one wanted if that is less.
  unfoldable pub new_transaction : Option Timestamp → Timestamp → T
  new_transaction ver t = record {
    dirty = false;
    has_begin = false;
    status = pending;
    timestamp = elim ver [ none ↦ t | some v ↦ if less v t then v else t ];
    cache = B.empty;
    pool = some [];
    beating = false;
    resolving = [];
    sent = [];
    readings = 0;
  }

  -- Get
  unfoldable pub get : Bytes → Exec T Bytes
  get k s = (
    elim (B.get (user_key k) s.cache) [
      | none ↦ w.snapshot_get k
      | some none ↦ err (Error.failure not_exist)
      | some (some v) ↦ ok v
    ],
    s,
  )

  -- Set
  unfoldable pub set : Bytes → Bytes → Exec T (Unit {0})
  set k [] s = (err (Error.failure invalid_value), s)
  set k (x ∷ v) s =
      (ok tt, record s { dirty = true; cache = B.add (user_key k) (some (x ∷ v)) s.cache })

  -- Delete
  unfoldable pub delete : Bytes → Exec T (Unit {0})
  delete k s = (ok tt, record s { dirty = true; cache = B.add (user_key k) none s.cache })

  -- The begin of doPutData.
  unfoldable pub begin_once : Exec T (Unit {0})
  begin_once s =
      if s.has_begin
      then (ok tt, s)
      else (call begin_call >> λ s'. (ok tt, record s' { has_begin = true; beating = true })) s

  -- The walk of createBatchPutRequest, which ends at the first key whose range is not found.
  unfoldable pub create_from : List (Bytes × Option Bytes) → Batches → Exec T Batches
  create_from [] breqs = pure breqs
  create_from (e ∷ l) breqs = elim (w.range_of e.0) [
    | none ↦ raise (Error.failure unknown_range)
    | some r ↦ create_from l (add_put r (put_of e) breqs)
  ]

  -- resolveSender.add: a nil map is not written to.
  unfoldable pub add_intent : ℤ × Bytes → Exec T (Unit {0})
  add_intent i s = elim s.pool [
    | none ↦ (panic, s)
    | some l ↦ (ok tt, record s { pool = some (if is_pooled i l then l else l ++ i ∷ []) })
  ]

  -- The first loop of splitBatchPutRequest over the requests of a batch.
  unfoldable pub add_intents : ℤ → List PutRequest → Exec T (Unit {0})
  add_intents r [] = pure tt
  add_intents r (p ∷ reqs) = add_intent (r, p.key) >> add_intents r reqs

  unfoldable pub put_failed : Tried (Unit {0}) → Exec T (Unit {0})
  put_failed (worked _) = pure tt
  put_failed (refused e) = raise (put_error e)

  -- The slices of splitBatchPutRequest. The fuel is the number of requests; each round takes one
  -- at least, so that it does not run out.
  unfoldable pub send_slices : ℕ → ℤ → List PutRequest → Exec T (Unit {0})
  send_slices fuel r [] = pure tt
  send_slices zero r (p ∷ reqs) = crash
  send_slices (suc fuel) r (p ∷ reqs) =
      attempt (call (put_call r (take max_batch_put_size (p ∷ reqs)))) >>= λ t.
      put_failed t >> send_slices fuel r (drop max_batch_put_size (p ∷ reqs))

  -- The loop of splitBatchPutRequest over the batches.
  unfoldable pub send_batches : Batches → Exec T (Unit {0})
  send_batches [] = pure tt
  send_batches ((r, reqs) ∷ rest) =
      add_intents r reqs >> (send_slices (length reqs) r reqs >> send_batches rest)

  unfoldable pub clear_cache : Exec T (Unit {0})
  clear_cache s = (ok tt, record s { cache = B.clear s.cache })

  -- What doPutData does once the transaction has begun.
  unfoldable pub put_entries : List (Bytes × Option Bytes) → Exec T (Unit {0})
  put_entries [] = pure tt
  put_entries (e ∷ l) = (create_from (e ∷ l) [] >>= send_batches) >> clear_cache

  -- doPutData
  unfoldable pub do_put_data : Exec T (Unit {0})
  do_put_data = begin_once >> λ s. put_entries (B.entries s.cache) s

  unfoldable pub set_status : TransactionStatus → Exec T (Unit {0})
  set_status st s = (ok tt, record s { status = st })

  -- txn.admin.GetTimestamp into the transaction.
  unfoldable pub stamp : Exec T Timestamp
  stamp s = elim (w.timestamps s.readings) [
    | none ↦ (
      err (Error.failure no_timestamp),
      record s { readings = s.readings + 1; timestamp = zero_timestamp },
    )
    | some t ↦ (ok t, record s { readings = s.readings + 1; timestamp = t })
  ]

  -- resolveSender.send
  unfoldable pub send_intents : Exec T (Unit {0})
  send_intents s = (
    ok tt,
    if s.dirty
        then record s {
          resolving = s.resolving ++ elim s.pool [ none ↦ [] | some l ↦ l ];
          pool = none;
        }
        else s,
  )

  unfoldable pub is_need_retry : Error → Bool
  is_need_retry (Error.failure need_retry) = true
  is_need_retry _ = false

  -- What EndTransaction does after its request, which had this number of requests before it. The
  -- type it tests is that of an error without a trace.
  unfoldable pub ended : ℕ → Tried (Unit {0}) → Exec T (Unit {0})
  ended n (worked _) s = send_intents s
  ended n (refused e) s =
      (err e, if is_need_retry e && w.is_bare n then record s { status = aborted } else s)

  -- heartbeat.del
  unfoldable pub stop_beating : Exec T (Unit {0})
  stop_beating s = (ok tt, record s { beating = false })

  -- EndTransaction
  unfoldable pub end_transaction : Bool → Exec T (Unit {0})
  end_transaction commit =
      stop_beating
      >> (stamp >>= λ t s. (attempt (call (end_call commit t)) >>= ended (length s.sent)) s)

  -- Commit
  unfoldable pub commit : Exec T (Unit {0})
  commit s =
      if not s.dirty
      then (ok tt, s)
      else (do_put_data >> (set_status committed >> end_transaction true)) s

  -- Rollback
  unfoldable pub rollback : Exec T (Unit {0})
  rollback = set_status aborted >> λ s. if s.has_begin then end_transaction false s else (ok tt, s)
