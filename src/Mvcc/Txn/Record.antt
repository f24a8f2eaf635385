-- ===== src/Mvcc/Txn/Record.antt =====
-- The record of a transaction under MVCCPutTxn: what a call makes of it.
use ancestor.Common.{
  ◌≡◌, if◌then◌else◌, arith, Option, ◌≢◌, some, none, ◌&&◌, bytes_equal, Option-cases,
  bytes_equal_refl, refl, sym, inl, ◌∙◌, inr, true, subst, Bool-cases, ap,
}
use ancestor.Common.Int.{◌≤ℤ◌}
use ancestor.Engine.{Engine, done, Outcome, Outcome-cases}
use ancestor.Meta.Key.{new_mvcc_key}
use ancestor.Meta.Timestamp.{less, less_irrefl}
use ancestor.Meta.Message.{Transaction, pending}
use ancestor.Meta.Exec.{ok, err, Result}
use ancestor.Mvcc.Protobuf.{Codec}
use ancestor.Mvcc.Store.{State}
use ancestor.Mvcc.Txn.{
  ChangeType, final_error, is_begin, is_push_timestamp, sets_status, update, mvcc_get_txn,
  local_txn, write_txn, mvcc_put_txn, Bool, false, Bytes, length,
}

-- `new` is what a change requested by `req` may leave of `old`.
pub record Advances (change : ChangeType) (req old new : Transaction) : Type 0 where
  pub same_id : new.id ≡ old.id
  pub same_priority : new.priority ≡ old.priority
  pub forward : less new.timestamp old.timestamp ≡ false
  pub reached : less new.timestamp req.timestamp ≡ false
  pub alive : old.last_heartbeat ≤ℤ new.last_heartbeat
  pub decided : new.status ≡ (if sets_status change then req.status else old.status)

update-Advances :
    (change : ChangeType) (req t : Transaction) (need : Bool)
    → Advances change req t (update change req (t, need)).0
unfolding update less
update-Advances change req t need = record {
  same_id = ground arith;
  same_priority = ground arith;
  forward = ground arith;
  reached = ground arith;
  alive = ground arith;
  decided = ground arith;
}

-- Where nothing is to be written, nothing has changed.
update-unneeded :
    (change : ChangeType) (req t : Transaction)
    → (update change req (t, false)).1 ≡ false
    → (update change req (t, false)).0 ≡ t
unfolding update
update-unneeded change req t h = ground arith

-- The record stays as it is, where no status is asked for and no later timestamp.
Advances-same :
    (change : ChangeType) (req t : Transaction)
    → sets_status change ≡ false
    → less t.timestamp req.timestamp ≡ false
    → Advances change req t t
Advances-same change req t h k = record {
  same_id = refl;
  same_priority = refl;
  forward = less_irrefl t.timestamp;
  reached = k;
  alive = omega arith;
  decided = rw h;
}

-- A push of the timestamp that asks for less than there is.
Advances-early :
    (change : ChangeType) (req t : Transaction)
    → (is_push_timestamp change && less req.timestamp t.timestamp) ≡ true
    → Advances change req t t
unfolding less
Advances-early change req t h = Advances-same change req t (ground arith) (ground arith)

final_error-none : (t : Transaction) → final_error t ≡ none → t.status ≡ pending
final_error-none t h = ground arith

module _ (E : Engine) (C : Codec) where
  -- The record that the engine holds under an id.
  abbrev pub stored_txn : E.Db → Bytes → Option Transaction
  stored_txn db id = elim (E.get db (new_mvcc_key id)) [
    | done o ↦ elim o [ none ↦ none | some b ↦ C.unmarshal_txn b ]
    | Outcome.failed ↦ none
  ]

  pub get_txn-stored :
      (id : Bytes) (t : Transaction) (s : State E)
      → length id ≢ 0
      → stored_txn s.db id ≡ some t
      → mvcc_get_txn E C id s ≡ (ok (some t), s)
  unfolding mvcc_get_txn
  get_txn-stored id t s h e = ground arith

  local_txn-stored :
      (req t : Transaction) (change : ChangeType) (s : State E)
      → length req.id ≢ 0
      → is_begin change ≡ false
      → stored_txn s.db req.id ≡ some t
      → local_txn E C req change s ≡ (ok (t, false), s)
  unfolding local_txn
  local_txn-stored req t change s h b e = ground (arith, get_txn-stored req.id t s h e)

  -- The call, where the engine holds a record: it fails if that is final, and writes the updated
  -- record if there is a change.
  put_txn-stored :
      (req t : Transaction) (change : ChangeType) (s : State E)
      → length req.id ≢ 0
      → is_begin change ≡ false
      → stored_txn s.db req.id ≡ some t
      → mvcc_put_txn E C req change s ≡ elim (final_error t) [
        | some e ↦ (err e, s)
        | none ↦
            if is_push_timestamp change && less req.timestamp t.timestamp
            then (ok tt, s)
            else if (update change req (t, false)).1
            then write_txn E C (new_mvcc_key req.id) (update change req (t, false)).0 s
            else (ok tt, s)
      ]
  unfolding mvcc_put_txn
  put_txn-stored req t change s h b e = ground (arith, local_txn-stored req t change s h b e)

  -- A write that succeeds has stored the marshalled record.
  write_txn-put :
      (key : Bytes) (t : Transaction) (s s' : State E)
      → write_txn E C key t s ≡ (ok tt, s')
      → (b : Bytes) × (C.marshal_txn t ≡ some b) × (E.put s.db key b ≡ done s'.db)
  unfolding write_txn
  write_txn-put key t s s' h = elim (Option-cases (C.marshal_txn t)) [
    | inl e ↦ absurd (ground arith)
    | inr (b, e) ↦ elim (Outcome-cases (E.put s.db key b)) [
      | inl f ↦ absurd (ground arith)
      | inr (db', f) ↦ (b, e, ground arith)
    ]
  ]

  -- A write that succeeds stores the record, and touches no other key.
  write_txn-stored :
      (id : Bytes) (t : Transaction) (s s' : State E)
      → write_txn E C (new_mvcc_key id) t s ≡ (ok tt, s')
      → (stored_txn s'.db id ≡ some t)
        × ((j : Bytes) → bytes_equal (new_mvcc_key id) j ≡ false → E.get s'.db j ≡ E.get s.db j)
  write_txn-stored id t s s' h =
      let (b, m, p) = write_txn-put (new_mvcc_key id) t s s' h in
      (
        ground (
          arith,
          E.get-put s.db s'.db (new_mvcc_key id) (new_mvcc_key id) b p,
          bytes_equal_refl (new_mvcc_key id),
          C.txn_round_trip t b m,
        ),
        λ j ne. E.get-put s.db s'.db (new_mvcc_key id) j b p ∙ rw ne,
      )

  abbrev LocalOutcome : Transaction → ChangeType → Transaction → State E → State E → Type 0
  LocalOutcome req change t s s' =
      (t.status ≡ pending)
      × (t' : Transaction) × (stored_txn s'.db req.id ≡ some t')
      × Advances change req t t'
      × ((j : Bytes) → bytes_equal (new_mvcc_key req.id) j ≡ false → E.get s'.db j ≡ E.get s.db j)

  unchanged :
      (req t : Transaction) (change : ChangeType) (s s' : State E)
      → stored_txn s.db req.id ≡ some t
      → t.status ≡ pending
      → Advances change req t t
      → ◌≡◌ {0} {A = Result (Unit {0}) × State E} (ok tt, s) (ok tt, s')
      → LocalOutcome req change t s s'
  unchanged req t change s s' e p a same =
      subst (LocalOutcome req change t s) (ap (λ (q : Result (Unit {0}) × State E). q.1) same)
        (p, t, e, a, λ j ne. refl)

  put_txn_cases :
      (req t : Transaction) (change : ChangeType) (s s' : State E)
      → stored_txn s.db req.id ≡ some t
      → elim (final_error t) [
        | some e ↦ (err e, s)
        | none ↦
            if is_push_timestamp change && less req.timestamp t.timestamp
            then (ok tt, s)
            else if (update change req (t, false)).1
            then write_txn E C (new_mvcc_key req.id) (update change req (t, false)).0 s
            else (ok tt, s)
      ]
        ≡ (ok tt, s')
      → LocalOutcome req change t s s'
  put_txn_cases req t change s s' e r = elim (Option-cases (final_error t)) [
    | inr (reason, f) ↦ absurd (cc (rw f at r))
    | inl f ↦
        let p = final_error-none t f in
        elim (Bool-cases (is_push_timestamp change && less req.timestamp t.timestamp)) [
          | inl early ↦
              unchanged req t change s s' e p (Advances-early change req t early)
                (rw (f, early) at r)
          | inr late ↦ elim (Bool-cases (update change req (t, false)).1) [
            | inl need ↦
                let (stored, others) =
                  write_txn-stored req.id (update change req (t, false)).0 s s'
                    (rw (f, late, need) at r) in
                (
                  p,
                  (update change req (t, false)).0,
                  stored,
                  update-Advances change req t false,
                  others,
                )
            | inr idle ↦
                unchanged req t change s s' e p
                  (subst (Advances change req t) (update-unneeded change req t idle)
                    (update-Advances change req t false))
                  (rw (f, late, idle) at r)
          ]
        ]
  ]

  -- A change that is not a begin and succeeds on a stored record finds it pending. It leaves a record
  -- with the same id and priority, whose timestamp is neither below the old nor below the requested
  -- one, whose heartbeat is not earlier, and whose status is the requested one if the change ends or
  -- aborts the transaction and the old one otherwise. No other key changes.
  pub put_txn-Advances :
      (req t : Transaction) (change : ChangeType) (s s' : State E)
      → length req.id ≢ 0
      → is_begin change ≡ false
      → stored_txn s.db req.id ≡ some t
      → mvcc_put_txn E C req change s ≡ (ok tt, s')
      → (t.status ≡ pending)
        × (t' : Transaction) × (stored_txn s'.db req.id ≡ some t')
        × Advances change req t t'
        × ((j : Bytes) → bytes_equal (new_mvcc_key req.id) j ≡ false → E.get s'.db j ≡ E.get s.db j)
  put_txn-Advances req t change s s' h b e r =
      put_txn_cases req t change s s' e (sym (put_txn-stored req t change s h b e) ∙ r)
