-- ===== src/Store/Send.antt =====
-- storage/store.go: Send and processWriteIntentError. The replica's Send, the leader of its raft group
-- and the calls of the client are parameters; the loop runs on fuel, since the code retries without
-- an end.
pub mod Answered
pub mod Returns
use ancestor.Common.{
  ℕ, zero, suc, Bool, true, false, List, [], ◌∷◌, ◌++◌, Option, none, some, length, drop, not,
  if◌then◌else◌, Bytes,
}
use ancestor.Common.Int.{ℤ}
use ancestor.Meta.Message.{Error, Failure, Transaction, PushTxnType}
use ancestor.Meta.Batch.{Reply, execute_batch}
use ancestor.Meta.Exec.{
  attempt, Tried, worked, refused, gets, Exec, Result, ok, err, panic, ◌>>=◌, ◌>>◌, pure,
}

-- WriteIntentError: the pusher, the kind of push, the id of the intent's transaction and its key.
pub record WriteIntent : Type 0 where
  pub pusher : Transaction
  pub push_type : PushTxnType
  pub txn_id : Bytes
  pub key : Bytes

-- The error as a write intent error, if it is one.
unfoldable pub write_intent_of : Error → Option WriteIntent
write_intent_of (Error.write_intent t p i k) =
    some (record { pusher = t; push_type = p; txn_id = i; key = k })
write_intent_of _ = none

module _ {S : Type 0} (push_txn : WriteIntent → Exec S Transaction)
    (resolve : Bytes → Transaction → Exec S Unit) where
  -- processWriteIntentError
  unfoldable pub process_write_intent_error : WriteIntent → Exec S Transaction
  process_write_intent_error wi = push_txn wi >>= λ pushee. resolve wi.key pushee >> pure pushee

-- `replica_send` is the Send of the replica for requests and transactions that were pushed, and
-- `process` is processWriteIntentError.
module _ {S R P : Type 0} (replica_send : List (Option R) → List Transaction → Exec S (Reply P))
    (process : WriteIntent → Exec S Transaction) where
  -- What the loop does with the answer of processWriteIntentError, the responses so far at hand.
  unfoldable pub send_pushed :
      (Transaction → Exec S (Option (Reply P)))
      → List P
      → Tried Transaction
      → Exec S (Option (Reply P))
  send_pushed again resp (refused e) = pure (some (record { resp = resp; error = some e }))
  send_pushed again resp (worked p) = again p

  -- What it does with the error of the replica's reply.
  unfoldable pub send_rest :
      (Transaction → Exec S (Option (Reply P))) → List P → Option Error → Exec S (Option (Reply P))
  send_rest again resp none = pure (some (record { resp = resp; error = none }))
  send_rest again resp (some e) = elim (write_intent_of e) [
    | none ↦ pure (some (record { resp = resp; error = some e }))
    | some wi ↦ attempt (process wi) >>= send_pushed again resp
  ]

  -- The retry loop of Send; `none` is a loop that has run out of fuel.
  unfoldable pub send_loop :
      ℕ → List P → List (Option R) → List Transaction → Exec S (Option (Reply P))
  send_loop zero resp reqs pushees = pure none
  send_loop (suc n) resp reqs pushees = do
    r ← replica_send reqs pushees
    send_rest (λ p. send_loop n (resp ++ r.resp) (drop (length r.resp) reqs) (pushees ++ p ∷ []))
        (resp ++ r.resp) r.error

-- Send: a system batch goes to the store itself, another to the leader of its range.
module _ {S R P Rep : Type 0} (root : R → Exec S P) (find_replica : ℤ → Exec S Rep)
    (leader_of : Rep → S → ℤ × Bool)
    (replica_send : Rep → List (Option R) → List Transaction → Exec S (Reply P))
    (process : WriteIntent → Exec S Transaction) where
  unfoldable pub send : ℕ → Bool → ℤ → List (Option R) → Exec S (Option (Reply P))
  send fuel is_system range_id reqs =
      if is_system
      then (execute_batch root reqs >>= λ r. pure (some r))
      else (attempt (find_replica range_id) >>= λ found. elim found [
        | refused e ↦ pure (some (record { resp = []; error = some e }))
        | worked rep ↦ gets (leader_of rep) >>= λ leader.
            if not leader.1
            then pure (some (record { resp = []; error = some (Error.not_leader leader.0) }))
            else send_loop (replica_send rep) process fuel [] reqs []
      ])
