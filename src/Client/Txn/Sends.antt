-- ===== src/Client/Txn/Sends.antt =====
-- What sending the batches of a buffer adds to the requests.
use mathlib.Core.Path.{ap₂}
use ancestor.Common.{
  Bytes, ℕ, zero, suc, List, [], ◌∷◌, ◌++◌, ◌≡◌, refl, ◌∙◌, ap, length, if◌then◌else◌, take, drop,
  All, All-append, arith, append_assoc, append-nil, Option-cases, inl, inr,
}
use ancestor.Common.Int.{ℤ, eq_ℤ}
use ancestor.Meta.Exec.{Tried, worked, refused, attempt, ok, ◌>>◌, >>=-eq-ok}
use ancestor.Client.State.{
  Buffer, PutRequest, Call, put_call, Txn, World, Batches, max_batch_put_size,
}
use ancestor.Client.Txn.{put_failed, call, add_intents, send_slices, send_batches, add_intent}
use ancestor.Client.Txn.Puts.{
  puts_to, IsSmallPut, puts_to-append, take-drop, length-take-le, if_append, gathered,
}

module _ (B : Buffer) (w : World) where
  abbrev T : Type 0
  T = Txn B.Cache

  -- What some requests add to those sent: batches of puts, with these puts for each range.
  pub record Puts (want : ℤ → List PutRequest) (s s' : T) : Type 0 where
    pub calls : List Call
    pub added : s'.sent ≡ s.sent ++ calls
    pub carried : (r : ℤ) → puts_to r calls ≡ want r
    pub small : All IsSmallPut calls

  call-eq-ok : (c : Call) (s s' : T) → call B w c s ≡ (ok tt, s') → s'.sent ≡ s.sent ++ c ∷ []
  unfolding call
  call-eq-ok c s s' h = ground (arith, h)

  attempt-eq-ok :
      (c : Call) (s s₁ s' : T) (t : Tried (Unit {0}))
      → attempt (call B w c) s ≡ (ok t, s₁)
      → put_failed B w t s₁ ≡ (ok tt, s')
      → s'.sent ≡ s.sent ++ c ∷ []
  unfolding call put_failed
  attempt-eq-ok c s s₁ s' (worked u) h g = elim (Option-cases (w.respond (length s.sent) c)) [
    | inl e ↦ ground (arith, e, h, g)
    | inr (x, e) ↦ ground (arith, e, h, g)
  ]
  attempt-eq-ok c s s₁ s' (refused x) h g = absurd (cc g)

  slices-Puts :
      (fuel : ℕ) (r : ℤ) (reqs : List PutRequest) (s s' : T)
      → send_slices B w fuel r reqs s ≡ (ok tt, s')
      → Puts (λ q. if eq_ℤ r q then reqs else []) s s'
  unfolding send_slices puts_to
  slices-Puts fuel r [] s s' h = record {
    calls = [];
    added = ground (arith, h, append-nil s.sent);
    carried = λ q. ground arith;
    small = tt;
  }
  slices-Puts zero r (p ∷ reqs) s s' h = absurd (cc h)
  slices-Puts (suc fuel) r (p ∷ reqs) s s' h =
      let c : Call = put_call r (take max_batch_put_size (p ∷ reqs)) in
      let (t, s₁, e, k) =
        >>=-eq-ok (attempt (call B w c))
          (λ t. put_failed B w t >> send_slices B w fuel r (drop max_batch_put_size (p ∷ reqs))) tt
          s s' h in
      let (u, s₂, f, g) =
        >>=-eq-ok (put_failed B w t)
          (λ _. send_slices B w fuel r (drop max_batch_put_size (p ∷ reqs))) tt s₁ s' k in
      let rest = slices-Puts fuel r (drop max_batch_put_size (p ∷ reqs)) s₂ s' g in
      record {
        calls = c ∷ rest.calls;
        added =
            rest.added
            ∙ ap (λ x. x ++ rest.calls) (attempt-eq-ok c s s₁ s₂ t e f)
            ∙ append_assoc s.sent (c ∷ []) rest.calls;
        carried = λ q.
            ap (λ x. (if eq_ℤ r q then take max_batch_put_size (p ∷ reqs) else []) ++ x)
              (rest.carried q)
            ∙ if_append (eq_ℤ r q) (take max_batch_put_size (p ∷ reqs))
                (drop max_batch_put_size (p ∷ reqs))
            ∙ ap (λ (x : List PutRequest). if eq_ℤ r q then x else [])
                (take-drop max_batch_put_size (p ∷ reqs));
        small = (length-take-le max_batch_put_size (p ∷ reqs), rest.small);
      }

  intent-sent :
      (i : ℤ × Bytes) (s s' : T) (u : Unit {0}) → add_intent B w i s ≡ (ok u, s') → s'.sent ≡ s.sent
  unfolding add_intent
  intent-sent i s s' u h = elim (Option-cases s.pool) [
    | inl e ↦ ground (arith, e, h)
    | inr (l, e) ↦ ground (arith, e, h)
  ]

  intents-sent :
      (r : ℤ) (reqs : List PutRequest) (s s' : T)
      → add_intents B w r reqs s ≡ (ok tt, s')
      → s'.sent ≡ s.sent
  unfolding add_intents
  intents-sent r [] s s' h = ground (arith, h)
  intents-sent r (p ∷ reqs) s s' h =
      let (u, s₁, e, k) =
        >>=-eq-ok (add_intent B w (r, p.key)) (λ _. add_intents B w r reqs) tt s s' h in
      intents-sent r reqs s₁ s' k ∙ intent-sent (r, p.key) s s₁ u e

  pub batches-Puts :
      (b : Batches) (s s' : T) → send_batches B w b s ≡ (ok tt, s') → Puts (λ q. gathered q b) s s'
  unfolding send_batches gathered puts_to
  batches-Puts [] s s' h = record {
    calls = [];
    added = ground (arith, h, append-nil s.sent);
    carried = λ q. refl;
    small = tt;
  }
  batches-Puts ((r, reqs) ∷ rest) s s' h =
      let (u, s₁, e, k) =
        >>=-eq-ok (add_intents B w r reqs)
          (λ _. send_slices B w (length reqs) r reqs >> send_batches B w rest) tt s s' h in
      let (v, s₂, f, g) =
        >>=-eq-ok (send_slices B w (length reqs) r reqs) (λ _. send_batches B w rest) tt s₁ s' k in
      let one = slices-Puts (length reqs) r reqs s₁ s₂ f in
      let others = batches-Puts rest s₂ s' g in
      record {
        calls = one.calls ++ others.calls;
        added =
            others.added
            ∙ ap (λ x. x ++ others.calls)
                (one.added ∙ ap (λ x. x ++ one.calls) (intents-sent r reqs s s₁ e))
            ∙ append_assoc s.sent one.calls others.calls;
        carried = λ q.
            puts_to-append q one.calls others.calls
            ∙ ap₂ (λ x y. x ++ y) (one.carried q) (others.carried q);
        small = All-append _ one.calls others.calls one.small others.small;
      }
