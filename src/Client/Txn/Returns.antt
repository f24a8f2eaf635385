-- ===== src/Client/Txn/Returns.antt =====
-- A commit returns when the nodes answer.
use ancestor.Meta.Exec.{>>=-ok, ◌>>=◌, ◌>>◌, tried}
use ancestor.Common.{
  ℕ, Bytes, ◌≡◌, [], ◌∷◌, ◌≤◌, if◌then◌else◌, arith, zero, refl, ◌++◌, Bool-cases, inl, inr, ◌+◌,
  ap, ◌∙◌,
}
use ancestor.Client.State.{
  Buffer, Txn, World, Batches, Call, PutRequest, add_put, put_of, is_pooled, put_call,
  max_batch_put_size, begin_call, end_call,
}
use ancestor.Client.Txn.{
  List, ℤ, Exec, create_from, send_slices, add_intents, send_batches, length, some, ok, Option,
  call, add_intent, drop, ◌∷◌, put_failed, none, suc, Timestamp, take, attempt, put_entries,
  begin_once, end_transaction, commit, worked, clear_cache, stop_beating, do_put_data, stamp,
  set_status, ended, send_intents, true, Bool, committed, false, not,
}
use ancestor.Client.Txn.Commits.{Delivered, commit-Delivered}

length-drop-le : {A : Type 0} (n : ℕ) (l : List A) → length (drop n l) ≤ length l
length-drop-le zero l = omega arith
length-drop-le (suc n) [] = omega arith
length-drop-le (suc n) (x ∷ l) = omega (arith, length-drop-le n l)

-- The range of each key is found, no request fails and the oracle answers.
pub record IsAnswering (w : World) : Type 0 where
  pub finds : (k : Bytes) → (r : ℤ) × (w.range_of k ≡ some r)
  pub accepts : (n : ℕ) (c : Call) → w.respond n c ≡ none
  pub tells : (n : ℕ) → (t : Timestamp) × (w.timestamps n ≡ some t)

module _ (B : Buffer) (w : World) (a : IsAnswering w) where
  abbrev T : Type 0
  T = Txn B.Cache

  abbrev Runs : {A : Type 0} → Exec T A → T → Type 0
  Runs {A} m s = (x : A) × (s' : T) × (m s ≡ (ok x, s'))

  abbrev Keeps : {A : Type 0} → Exec T A → T → Type 0
  Keeps {A} m s =
      (x : A) × (s' : T) × (m s ≡ (ok x, s')) × ((l : List (ℤ × Bytes)) × (s'.pool ≡ some l))

  abbrev HasPool : T → Type 0
  HasPool s = (l : List (ℤ × Bytes)) × (s.pool ≡ some l)

  create_from-Runs :
      (l : List (Bytes × Option Bytes)) (b : Batches) (s : T)
      → (b' : Batches) × (create_from B w l b s ≡ (ok b', s))
  unfolding create_from
  create_from-Runs [] b s = (b, refl)
  create_from-Runs (e ∷ l) b s =
      let (r, f) = a.finds e.0 in
      let (b', g) = create_from-Runs l (add_put r (put_of e) b) s in (b', rw (f, create_from) g)

  call-ok : (c : Call) (s : T) → call B w c s ≡ (ok tt, record s { sent = s.sent ++ c ∷ [] })
  unfolding call
  call-ok c s = rw (a.accepts (length s.sent) c) refl

  slices-Keeps :
      (fuel : ℕ) (r : ℤ) (reqs : List PutRequest) (s : T)
      → length reqs ≤ fuel
      → HasPool s
      → Keeps (send_slices B w fuel r reqs) s
  unfolding send_slices call put_failed
  slices-Keeps fuel r [] s h p = (tt, s, refl, p)
  slices-Keeps zero r (q ∷ reqs) s h p = absurd (omega (arith, h))
  slices-Keeps (suc fuel) r (q ∷ reqs) s h p =
      let c : Call = put_call r (take max_batch_put_size (q ∷ reqs)) in
      let (x, s', e, p') =
        slices-Keeps fuel r (drop max_batch_put_size (q ∷ reqs))
          (record s { sent = s.sent ++ c ∷ [] }) (omega (arith, h, length-drop-le 999 reqs)) p in
      (
        x,
        s',
        >>=-ok (attempt (call B w c))
              (λ t. put_failed B w t >> send_slices B w fuel r (drop max_batch_put_size (q ∷ reqs)))
              (worked tt) s (record s { sent = s.sent ++ c ∷ [] }) (ap tried (call-ok c s))
            ∙ e,
        p',
      )

  intents-Keeps :
      (r : ℤ) (reqs : List PutRequest) (s : T) → HasPool s → Keeps (add_intents B w r reqs) s
  unfolding add_intents add_intent
  intents-Keeps r [] s p = (tt, s, refl, p)
  intents-Keeps r (q ∷ reqs) s (l, f) =
      let (x, s', e, p') =
        intents-Keeps r reqs
          (record s { pool = some (if is_pooled (r, q.key) l then l else l ++ (r, q.key) ∷ []) })
          (_, refl) in
      (x, s', rw f e, p')

  batches-Keeps : (b : Batches) (s : T) → HasPool s → Keeps (send_batches B w b) s
  unfolding send_batches
  batches-Keeps [] s p = (tt, s, refl, p)
  batches-Keeps ((r, reqs) ∷ rest) s p =
      let (x, s₁, e, p₁) = intents-Keeps r reqs s p in
      let (y, s₂, f, p₂) = slices-Keeps (length reqs) r reqs s₁ (omega arith) p₁ in
      let (z, s₃, g, p₃) = batches-Keeps rest s₂ p₂ in
      (
        z,
        s₃,
        >>=-ok (add_intents B w r reqs)
              (λ _. send_slices B w (length reqs) r reqs >> send_batches B w rest) x s s₁ e
            ∙ >>=-ok (send_slices B w (length reqs) r reqs) (λ _. send_batches B w rest) y s₁ s₂ f
            ∙ g,
        p₃,
      )

  put_entries-Runs :
      (l : List (Bytes × Option Bytes)) (s : T) → HasPool s → Runs (put_entries B w l) s
  unfolding put_entries clear_cache
  put_entries-Runs [] s p = (tt, s, refl)
  put_entries-Runs (x ∷ l) s p =
      let (b, e) = create_from-Runs (x ∷ l) [] s in
      let (y, s₁, f, q) = batches-Keeps b s p in
      (
        tt,
        record s₁ { cache = B.clear s₁.cache },
        >>=-ok (create_from B w (x ∷ l) [] >>= send_batches B w) (λ _. clear_cache B w) y s s₁
            (>>=-ok (create_from B w (x ∷ l) []) (send_batches B w) b s s e ∙ f),
      )

  begin_once-Keeps : (s : T) → HasPool s → Keeps (begin_once B w) s
  unfolding begin_once call
  begin_once-Keeps s p = elim (Bool-cases s.has_begin) [
    | inl e ↦ (tt, s, rw e refl, p)
    | inr e ↦ (
      tt,
      record s { sent = s.sent ++ begin_call ∷ []; has_begin = true; beating = true },
      rw e (
          >>=-ok (call B w begin_call)
            (λ _ (s' : T). (ok tt, record s' { has_begin = true; beating = true })) tt s
            (record s { sent = s.sent ++ begin_call ∷ [] }) (call-ok begin_call s)),
      p,
    )
  ]

  stamped :
      (s : T) (t : Timestamp)
      → w.timestamps s.readings ≡ some t
      → stamp B w (record s { beating = false })
        ≡ (ok t, record s { beating = false; readings = s.readings + 1; timestamp = t })
  unfolding stamp
  stamped s t e = rw (e, stamp) refl

  end_transaction-Runs : (c : Bool) (s : T) → Runs (end_transaction B w c) s
  unfolding end_transaction stop_beating stamp ended send_intents
  end_transaction-Runs c s =
      let (t, e) = a.tells s.readings in
      let s₁ : T = record s { beating = false; readings = s.readings + 1; timestamp = t } in
      let s₂ : T = record s₁ { sent = s.sent ++ end_call c t ∷ [] } in
      (
        tt,
        (send_intents B w s₂).1,
        >>=-ok (stamp B w)
              (λ t (s : T). (attempt (call B w (end_call c t)) >>= ended B w (length s.sent)) s) t
              (record s { beating = false }) s₁ (stamped s t e)
            ∙ >>=-ok (attempt (call B w (end_call c t))) (ended B w (length s.sent)) (worked tt) s₁
                s₂ (ap tried (call-ok (end_call c t) s₁)),
      )

  commit-Runs : (s : T) → HasPool s → Runs (commit B w) s
  unfolding commit do_put_data set_status
  commit-Runs s p = elim (Bool-cases s.dirty) [
    | inr d ↦ (tt, s, rw d refl)
    | inl d ↦
        let (x, s₁, e, q) = begin_once-Keeps s p in
        let (y, s₂, f) = put_entries-Runs (B.entries s₁.cache) s₁ q in
        let (z, s₃, g) = end_transaction-Runs true (record s₂ { status = committed }) in
        (
          z,
          s₃,
          ap
                (λ b.
                  if not b
                  then (ok tt, s)
                  else (do_put_data B w >> (set_status B w committed >> end_transaction B w true))
                      s)
                d
              ∙ >>=-ok (do_put_data B w) (λ _. set_status B w committed >> end_transaction B w true)
                  y s s₂
                  (>>=-ok (begin_once B w) (λ _ (s : T). put_entries B w (B.entries s.cache) s) x s
                      s₁ e
                    ∙ f)
              ∙ g,
        )
  ]

  -- A commit of a transaction with writes, which has not sent its intents before, returns when the
  -- range of each key is found, no request fails and the oracle answers. It has sent a begin if
  -- none was sent before, then batches of 1000 puts at most, then the end: to each range the
  -- batches carry the puts of the buffered entries whose keys are in it, each once and in the
  -- buffer's order.
  pub commit-delivers :
      (s : T) (l : List (ℤ × Bytes))
      → s.pool ≡ some l
      → s.dirty ≡ true
      → (s' : T) × (commit B w s ≡ (ok tt, s')) × Delivered B w s s'
  commit-delivers s l p d =
      let (u, s', e) = commit-Runs s (l, p) in (s', e, commit-Delivered B w s s' d e)
