-- ===== src/Replica/Push.antt =====
-- What a push decides between two transactions.
use ancestor.Common.{
  ap, ◌≡◌, ◌≢◌, length, some, arith, true, false, none, subst, ◌∙◌, refl, Bool-cases, inl, inr,
  Option-cases, sym,
}
use ancestor.Engine.{Engine}
use ancestor.Meta.Timestamp.{
  Timestamp, IsTimestamp, less_not_less, less, large, large-eq-less, next, next-is-successor,
}
use ancestor.Meta.Message.{
  Transaction, PushTxnType, push_timestamp, push_abort, push_touch, aborted, pending,
}
use ancestor.Meta.Exec.{ok, >>=-eq-ok, pure}
use ancestor.Mvcc.Protobuf.{Codec}
use ancestor.Mvcc.Store.{State}
use ancestor.Mvcc.Txn.{is_begin, ChangeType, mvcc_put_txn}
use ancestor.Mvcc.Txn.Record.{stored_txn, get_txn-stored, put_txn-Advances, Advances}
use ancestor.Replica.{
  process_push_transaction, push_pending, push_with, txn_expired_time, is_push_timestamp, ltb_ℤ,
  sub_int64, without_stats,
}

-- What a push that succeeds leaves of a pending transaction: it is aborted, or it stays pending
-- and its timestamp is past that of the pusher.
pub data Pushed (push_type : PushTxnType) (pusher new : Transaction) : Type 0 where
  was_aborted : new.status ≡ aborted → Pushed push_type pusher new
  was_moved :
      push_type ≡ push_timestamp
      → new.status ≡ pending
      → less pusher.timestamp new.timestamp ≡ true
      → Pushed push_type pusher new

module _ (E : Engine) (C : Codec) where
  push_with-stored :
      (req t p : Transaction) (change : ChangeType) (s s' : State E)
      → length req.id ≢ 0
      → is_begin change ≡ false
      → stored_txn E C s.db req.id ≡ some t
      → push_with E C req change s ≡ (ok p, s')
      → (t' : Transaction) × (stored_txn E C s'.db req.id ≡ some t') × Advances change req t t'
  unfolding push_with
  push_with-stored req t p change s s' h b e r =
      let (_, s₁, first, second) =
        >>=-eq-ok (without_stats E (mvcc_put_txn E C req change)) (λ _. pure req) p s s' r in
      let before = record s { stats = none } in
      let after = (mvcc_put_txn E C req change before).1 in
      let (was, t', stored, adv, _) =
        put_txn-Advances E C req t change before after h b e (ap (λ q. (q.0, after)) first) in
      let same_db = ap (λ q. q.1.db) first in
      let same_end = ap (λ q. q.1) second in
      (
        t',
        subst (λ db. stored_txn E C db req.id ≡ some t') (same_db ∙ ap (λ q. q.db) same_end) stored,
        adv,
      )

  -- The writes of a push that aborts the pushee.
  push_abort-Pushed :
      (push_type : PushTxnType) (pusher t p : Transaction) (s s' : State E)
      → length t.id ≢ 0
      → stored_txn E C s.db t.id ≡ some t
      → push_with E C (record t { status = aborted }) ChangeType.push_abort s ≡ (ok p, s')
      → (t' : Transaction) × (stored_txn E C s'.db t.id ≡ some t') × Pushed push_type pusher t'
  push_abort-Pushed push_type pusher t p s s' h e r =
      let (t', stored, adv) =
        push_with-stored (record t { status = aborted }) t p ChangeType.push_abort s s' h refl e
          r in
      (t', stored, was_aborted adv.decided)

  push_timestamp-Pushed :
      (n : Timestamp) (pusher t p : Transaction) (s s' : State E)
      → length t.id ≢ 0
      → stored_txn E C s.db t.id ≡ some t
      → t.status ≡ pending
      → IsTimestamp pusher.timestamp
      → next pusher.timestamp ≡ some n
      → push_with E C (record t { timestamp = n }) ChangeType.push_timestamp s ≡ (ok p, s')
      → (t' : Transaction) × (stored_txn E C s'.db t.id ≡ some t') × Pushed push_timestamp pusher t'
  push_timestamp-Pushed n pusher t p s s' h e live stamp hn r =
      let (t', stored, adv) =
        push_with-stored (record t { timestamp = n }) t p ChangeType.push_timestamp s s' h refl e
          r in
      let (_, past, _) = next-is-successor pusher.timestamp n pusher.timestamp stamp stamp hn in
      (
        t',
        stored,
        was_moved refl (adv.decided ∙ live)
            (less_not_less pusher.timestamp n t'.timestamp past adv.reached),
      )

  push_pending-Pushed :
      (latest : Timestamp) (push_type : PushTxnType) (pusher t p : Transaction) (s s' : State E)
      → length t.id ≢ 0
      → IsTimestamp pusher.timestamp
      → stored_txn E C s.db t.id ≡ some t
      → t.status ≡ pending
      → push_pending E C latest push_type pusher t s ≡ (ok p, s')
      → (t' : Transaction) × (stored_txn E C s'.db t.id ≡ some t') × Pushed push_type pusher t'
  unfolding push_pending is_push_timestamp
  push_pending-Pushed latest push_timestamp pusher t p s s' h stamp e live r =
      elim (Bool-cases (large t.timestamp pusher.timestamp)) [
        | inl past ↦ (
          t,
          ground (arith, e),
          was_moved refl live (sym (large-eq-less t.timestamp pusher.timestamp) ∙ past),
        )
        | inr f ↦
            elim (Bool-cases
              (ltb_ℤ txn_expired_time (sub_int64 latest.wall_time t.last_heartbeat))) [
                | inl g ↦ push_abort-Pushed push_timestamp pusher t p s s' h e (rw (f, g) at r)
                | inr g ↦ elim (Bool-cases (ltb_ℤ pusher.priority t.priority)) [
                  | inl low ↦ absurd (ground arith)
                  | inr low ↦ elim (Option-cases (next pusher.timestamp)) [
                    | inl hn ↦ absurd (ground arith)
                    | inr (n, hn) ↦
                        push_timestamp-Pushed n pusher t p s s' h e live stamp hn
                          (rw (f, g, low, hn) at r)
                  ]
                ]
              ]
      ]
  push_pending-Pushed latest push_abort pusher t p s s' h stamp e live r =
      elim (Bool-cases (ltb_ℤ txn_expired_time (sub_int64 latest.wall_time t.last_heartbeat))) [
        | inl g ↦ push_abort-Pushed push_abort pusher t p s s' h e (rw g at r)
        | inr g ↦ elim (Bool-cases (ltb_ℤ pusher.priority t.priority)) [
          | inl low ↦ absurd (ground arith)
          | inr low ↦ push_abort-Pushed push_abort pusher t p s s' h e (rw (g, low) at r)
        ]
      ]
  push_pending-Pushed latest push_touch pusher t p s s' h stamp e live r =
      elim (Bool-cases (ltb_ℤ txn_expired_time (sub_int64 latest.wall_time t.last_heartbeat))) [
        | inl g ↦ push_abort-Pushed push_touch pusher t p s s' h e (rw g at r)
        | inr g ↦ elim (Bool-cases (ltb_ℤ pusher.priority t.priority)) [
          | inl low ↦ absurd (ground arith)
          | inr low ↦ absurd (ground arith)
        ]
      ]

  -- A push that succeeds on a stored pending transaction leaves its record aborted, or, for a push of
  -- the timestamp only, pending with a timestamp past that of the pusher.
  pub push-Pushed :
      (latest : Timestamp) (push_type : PushTxnType) (pusher t p : Transaction) (s s' : State E)
      → length t.id ≢ 0
      → IsTimestamp pusher.timestamp
      → stored_txn E C s.db t.id ≡ some t
      → t.status ≡ pending
      → process_push_transaction E C t.id latest push_type pusher s ≡ (ok p, s')
      → (t' : Transaction) × (stored_txn E C s'.db t.id ≡ some t') × Pushed push_type pusher t'
  unfolding process_push_transaction
  push-Pushed latest push_type pusher t p s s' h stamp e live r =
      push_pending-Pushed latest push_type pusher t p s s' h stamp e live
        (ground (arith, get_txn-stored E C t.id t s h e))
