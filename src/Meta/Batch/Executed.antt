-- ===== src/Meta/Batch/Executed.antt =====
-- What a batch has executed when it returns.
use ancestor.Common.{
  List, [], ◌∷◌, Option, none, some, ◌++◌, ◌≡◌, ◌⊎◌, inl, inr, refl, arith, append_assoc,
  append-nil, ◌∙◌, ap, sym,
}
use ancestor.Meta.Message.{Error, bad_request}
use ancestor.Meta.Exec.{Exec, ok, err, panic}
use ancestor.Meta.Batch.{Reply, execute_from, execute_batch, Result}

module _ {S R P : Type 0} (execute : R → Exec S P) where
  -- The requests were executed one after the other, with these responses.
  pub data Runs : List (Option R) → List P → S → S → Type 0 where
    finished : {s : S} → Runs [] [] s s
    one :
        {r : R} {rs : List (Option R)} {p : P} {ps : List P} {s s₁ s₂ : S}
        → execute r s ≡ (ok p, s₁)
        → Runs rs ps s₁ s₂
        → Runs (some r ∷ rs) (p ∷ ps) s s₂

  -- How the requests that were not executed begin, with the error and the last state.
  pub data Stops : List (Option R) → Option Error → S → S → Type 0 where
    at_end : {s : S} → Stops [] none s s
    at_nil :
        {rs : List (Option R)} {s : S} → Stops (none ∷ rs) (some (Error.failure bad_request)) s s
    at_error :
        {r : R} {rs : List (Option R)} {e : Error} {s s₁ : S}
        → execute r s ≡ (err e, s₁)
        → Stops (some r ∷ rs) (some e) s s₁

  -- What is left to say of a batch from some point on.
  abbrev Ended : List P → List (Option R) → S → Reply P → S → Type 0
  Ended acc rs s r s' =
      (front : List (Option R)) × (rest : List (Option R)) × (ps : List P) × (s₁ : S) × (rs
        ≡ front ++ rest)
      × (r.resp ≡ acc ++ ps)
      × Runs front ps s s₁
      × Stops rest r.error s₁ s'

  result-cases :
      (x : Result P × S)
      → ((p : P) × (x ≡ (ok p, x.1))) ⊎ (((e : Error) × (x ≡ (err e, x.1))) ⊎ (x ≡ (panic, x.1)))
  result-cases (ok p, s) = inl (p, refl)
  result-cases (err e, s) = inr (inl (e, refl))
  result-cases (panic, s) = inr (inr refl)

  execute_from-ok :
      (acc : List P) (r : R) (rs : List (Option R)) (p : P) (s s₁ : S)
      → execute r s ≡ (ok p, s₁)
      → execute_from execute acc (some r ∷ rs) s ≡ execute_from execute (acc ++ p ∷ []) rs s₁
  unfolding execute_from
  execute_from-ok acc r rs p s s₁ h = rw (execute_from, ap (λ q. q.0) h, ap (λ q. q.1) h) refl

  execute_from-err :
      (acc : List P) (r : R) (rs : List (Option R)) (e : Error) (s s₁ : S)
      → execute r s ≡ (err e, s₁)
      → execute_from execute acc (some r ∷ rs) s ≡ (ok (record { resp = acc; error = some e }), s₁)
  unfolding execute_from
  execute_from-err acc r rs e s s₁ h = rw (execute_from, ap (λ q. q.0) h, ap (λ q. q.1) h) refl

  execute_from-panic :
      (acc : List P) (r : R) (rs : List (Option R)) (s s₁ : S)
      → execute r s ≡ (panic, s₁)
      → execute_from execute acc (some r ∷ rs) s ≡ (panic, s₁)
  unfolding execute_from
  execute_from-panic acc r rs s s₁ h = rw (execute_from, ap (λ q. q.0) h, ap (λ q. q.1) h) refl

  execute_from-Ended :
      (acc : List P) (rs : List (Option R)) (s s' : S) (r : Reply P)
      → execute_from execute acc rs s ≡ (ok r, s')
      → Ended acc rs s r s'
  unfolding execute_from
  execute_from-Ended acc [] s s' r h =
      let state : s ≡ s' = ap (λ q. q.1) h in
      let reply : record { resp = acc; error = none } ≡ r = ground (arith, h) in
      rw (← reply, ← state) ([], [], [], s, refl, sym (append-nil acc), finished, at_end)
  execute_from-Ended acc (none ∷ rs) s s' r h =
      let state : s ≡ s' = ap (λ q. q.1) h in
      let reply : record { resp = acc; error = some (Error.failure bad_request) } ≡ r =
        ground (arith, h) in
      rw (← reply, ← state) ([], none ∷ rs, [], s, refl, sym (append-nil acc), finished, at_nil)
  execute_from-Ended acc (some q ∷ rs) s s' r h = elim (result-cases (execute q s)) [
    | inl (p, e) ↦
        let s₁ = (execute q s).1 in
        let next = sym (execute_from-ok acc q rs p s s₁ e) ∙ h in
        let (front, rest, ps, s₂, split, resp, runs, stops) =
          execute_from-Ended (acc ++ p ∷ []) rs s₁ s' r next in
        (
          some q ∷ front,
          rest,
          p ∷ ps,
          s₂,
          ap (λ l. some q ∷ l) split,
          resp ∙ append_assoc acc (p ∷ []) ps,
          one e runs,
          stops,
        )
    | inr (inl (e, f)) ↦
        let same = sym (execute_from-err acc q rs e s (execute q s).1 f) ∙ h in
        let state : (execute q s).1 ≡ s' = ap (λ q. q.1) same in
        let reply : record { resp = acc; error = some e } ≡ r = ground (arith, same) in
        rw (← reply, ← state)
          ([], some q ∷ rs, [], s, refl, sym (append-nil acc), finished, at_error f)
    | inr (inr f) ↦ absurd (cc (execute_from-panic acc q rs s (execute q s).1 f, h))
  ]

  -- A batch that returns has executed its requests from the first on, in order; there is a response for
  -- each of them and for no other, and the error tells how the next request failed, or is nil when
  -- every request was executed.
  pub execute_batch-Runs :
      (rs : List (Option R)) (s s' : S) (r : Reply P)
      → execute_batch execute rs s ≡ (ok r, s')
      → (front : List (Option R)) × (rest : List (Option R)) × (s₁ : S) × (rs ≡ front ++ rest)
        × Runs front r.resp s s₁
        × Stops rest r.error s₁ s'
  unfolding execute_batch
  execute_batch-Runs rs s s' r h =
      let (front, rest, ps, s₁, split, resp, runs, stops) = execute_from-Ended [] rs s s' r h in
      (front, rest, s₁, split, rw resp runs, stops)
