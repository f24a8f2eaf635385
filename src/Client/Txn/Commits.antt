-- ===== src/Client/Txn/Commits.antt =====
-- What a commit sends.
use ancestor.Common.{
  Bytes, Bool, true, Option, List, [], ◌∷◌, ◌++◌, ◌≡◌, refl, sym, ◌∙◌, ap, length, if◌then◌else◌,
  not, All, arith, append-nil, Bool-cases, Option-cases, inl, inr,
}
use ancestor.Common.Int.{ℤ, pos}
use ancestor.Meta.Timestamp.{Timestamp}
use ancestor.Meta.Message.{committed}
use ancestor.Meta.Exec.{ok, ◌>>=◌, ◌>>◌, >>=-eq-ok}
use ancestor.Client.State.{Buffer, Call, begin_call, end_call, Txn, World}
use ancestor.Client.Txn.{
  call, begin_once, create_from, send_batches, clear_cache, put_entries, do_put_data, set_status,
  stamp, ended, send_intents, end_transaction, commit, stop_beating,
}
use ancestor.Client.Txn.Puts.{puts_to, IsSmallPut, wanted, gathered, create_from-gathered}
use ancestor.Client.Txn.Sends.{Puts, batches-Puts}

module _ (B : Buffer) (w : World) where
  abbrev T : Type 0
  T = Txn B.Cache

  abbrev Sent : T → T → Type 0
  Sent s s' = Puts B w (λ r. wanted w.range_of r (B.entries s.cache)) s s'

  put_entries-Sent :
      (l : List (Bytes × Option Bytes)) (s s' : T)
      → B.entries s.cache ≡ l
      → put_entries B w l s ≡ (ok tt, s')
      → Sent s s'
  unfolding put_entries clear_cache wanted puts_to gathered
  put_entries-Sent [] s s' f h = record {
    calls = [];
    added = ground (arith, h, append-nil s.sent);
    carried = λ q. ap (wanted w.range_of q) (sym f);
    small = tt;
  }
  put_entries-Sent (x ∷ l) s s' f h =
      let (u, s₁, e, k) =
        >>=-eq-ok (create_from B w (x ∷ l) [] >>= send_batches B w) (λ _. clear_cache B w) tt s s'
          h in
      let (b, s₂, g, j) = >>=-eq-ok (create_from B w (x ∷ l) []) (send_batches B w) u s s₁ e in
      let made : (q : ℤ) → (gathered q b ≡ wanted w.range_of q (x ∷ l)) × (s₂ ≡ s) =
        λ q. create_from-gathered B w q (x ∷ l) [] b s s₂ tt g in
      let cleared : ◌≡◌ {A = T} s' (record s₁ { cache = B.clear s₁.cache }) = ground (arith, k) in
      let puts : Puts B w (λ q. gathered q b) s₂ s₁ = batches-Puts B w b s₂ s₁ j in
      record {
        calls = puts.calls;
        added =
            ap (λ (z : T). z.sent) cleared
            ∙ puts.added
            ∙ ap (λ (z : T). z.sent ++ puts.calls) (made (pos 0)).1;
        carried = λ q. puts.carried q ∙ (made q).0 ∙ ap (wanted w.range_of q) (sym f);
        small = puts.small;
      }

  begin_once-sent :
      (s s' : T) (u : Unit {0})
      → begin_once B w s ≡ (ok u, s')
      → (s'.sent ≡ s.sent ++ (if s.has_begin then [] else begin_call ∷ [])) × (s'.cache ≡ s.cache)
  unfolding begin_once call
  begin_once-sent s s' u h = elim (Bool-cases s.has_begin) [
    | inl e ↦ (ground (arith, h, e, append-nil s.sent), ground (arith, h, e))
    | inr e ↦ elim (Option-cases (w.respond (length s.sent) begin_call)) [
      | inl f ↦ (ground (arith, h, e, f), ground (arith, h, e, f))
      | inr (x, f) ↦ absurd (ground (arith, h, e, f))
    ]
  ]

  end_transaction-sent :
      (c : Bool) (s s' : T)
      → end_transaction B w c s ≡ (ok tt, s')
      → (t : Timestamp) × (s'.sent ≡ s.sent ++ end_call c t ∷ []) × (s'.cache ≡ s.cache)
  unfolding end_transaction stop_beating stamp ended send_intents call
  end_transaction-sent c s s' h = elim (Option-cases (w.timestamps s.readings)) [
    | inl e ↦ absurd (ground (arith, h, e))
    | inr (t, e) ↦ elim (Option-cases (w.respond (length s.sent) (end_call c t))) [
      | inr (x, f) ↦ absurd (ground (arith, h, e, f))
      | inl f ↦ elim (Bool-cases s.dirty) [
        | inl d ↦ (t, ground (arith, h, e, f, d), ground (arith, h, e, f, d))
        | inr d ↦ (t, ground (arith, h, e, f, d), ground (arith, h, e, f, d))
      ]
    ]
  ]

  -- What a commit that succeeds has sent.
  pub record Delivered (s s' : T) : Type 0 where
    pub calls : List Call
    pub time : Timestamp
    pub requests :
        s'.sent
        ≡ s.sent
          ++ (if s.has_begin then [] else begin_call ∷ [])
          ++ calls
          ++ end_call true time ∷ []
    pub carried : (r : ℤ) → puts_to r calls ≡ wanted w.range_of r (B.entries s.cache)
    pub small : All IsSmallPut calls

  pub commit-Delivered : (s s' : T) → s.dirty ≡ true → commit B w s ≡ (ok tt, s') → Delivered s s'
  unfolding commit do_put_data set_status
  commit-Delivered s s' d h =
      let (u, s₁, e, k) =
        >>=-eq-ok (do_put_data B w) (λ _. set_status B w committed >> end_transaction B w true) tt s
          s'
          (ap
              (λ b.
                if not b
                then (ok tt, s)
                else (do_put_data B w >> (set_status B w committed >> end_transaction B w true)) s)
              (sym d)
            ∙ h) in
      let (v, s₀, f, g) =
        >>=-eq-ok (begin_once B w) (λ _ s. put_entries B w (B.entries s.cache) s) u s s₁ e in
      let (begun, kept) = begin_once-sent s s₀ v f in
      let x = put_entries-Sent (B.entries s₀.cache) s₀ s₁ refl g in
      let (t, closed, same) = end_transaction-sent true _ s' k in
      record {
        calls = x.calls;
        time = t;
        requests =
            closed ∙ ap (λ z. z ++ end_call true t ∷ []) (x.added ∙ ap (λ z. z ++ x.calls) begun);
        carried = λ r. x.carried r ∙ ap (λ c. wanted w.range_of r (B.entries c)) kept;
        small = x.small;
      }
