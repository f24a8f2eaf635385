-- ===== src/Store/Send/Answered.antt =====
-- Which requests of a batch have been answered when Send returns.
use ancestor.Common.{
  ℕ, zero, suc, List, [], ◌∷◌, ◌++◌, Option, none, some, length, drop, ◌≡◌, ◌⊎◌, inl, inr, refl, ap,
  ◌∙◌, sym, arith, Option-cases, append_assoc,
}
use ancestor.Meta.Message.{Error, Transaction}
use ancestor.Meta.Batch.{Reply, execute_batch}
use ancestor.Meta.Batch.Executed.{
  Runs, finished, one, Stops, at_end, at_nil, at_error, execute_batch-Runs,
}
use ancestor.Meta.Exec.{Exec, ok, ◌>>=◌, >>=-eq-ok, attempt, Tried, worked, refused}
use ancestor.Store.Send.{send_pushed, send_rest, WriteIntent, write_intent_of, send_loop}

module _ {R P : Type 0} (Answers : Option R → P → Type 0) where
  -- A response for each request, in order.
  pub data Matches : List (Option R) → List P → Type 0 where
    no_requests : Matches [] []
    and_one :
        {r : Option R} {p : P} {rs : List (Option R)} {ps : List P}
        → Answers r p
        → Matches rs ps
        → Matches (r ∷ rs) (p ∷ ps)

  pub length-Matches : (rs : List (Option R)) (ps : List P) → Matches rs ps → length ps ≡ length rs
  length-Matches _ _ no_requests = refl
  length-Matches _ _ (and_one a m) = ap suc (length-Matches _ _ m)

  append-Matches :
      (rs rs' : List (Option R)) (ps ps' : List P)
      → Matches rs ps
      → Matches rs' ps'
      → Matches (rs ++ rs') (ps ++ ps')
  append-Matches _ rs' _ ps' no_requests m' = m'
  append-Matches _ rs' _ ps' (and_one a m) m' = and_one a (append-Matches _ rs' _ ps' m m')

  -- The responses answer the first requests, all of them if there is no error.
  abbrev pub Answered : List (Option R) → List P → Option Error → Type 0
  Answered reqs ps e =
      (front : List (Option R)) × (rest : List (Option R)) × (reqs ≡ front ++ rest)
      × Matches front ps
      × (e ≡ none → rest ≡ [])

drop-append : {A : Type 0} (xs ys : List A) → drop (length xs) (xs ++ ys) ≡ ys
drop-append [] ys = refl
drop-append (x ∷ xs) ys = drop-append xs ys

module _ {S R P : Type 0} (Answers : Option R → P → Type 0)
    (replica_send : List (Option R) → List Transaction → Exec S (Reply P))
    (process : WriteIntent → Exec S Transaction) where
  -- What the replica does with a batch.
  abbrev pub Serves : Type 0
  Serves =
      (reqs : List (Option R)) (pushees : List Transaction) (s s' : S) (r : Reply P)
      → replica_send reqs pushees s ≡ (ok r, s')
      → Answered Answers reqs r.resp r.error

  module _ (again : Transaction → Exec S (Option (Reply P))) (resp : List P) (s s' : S)
      (r : Reply P) where
    abbrev Ended : Option Error → Type 0
    Ended e =
        ((r.resp ≡ resp) × (r.error ≡ none → e ≡ none))
        ⊎ ((p : Transaction) × (t : S) × (again p t ≡ (ok (some r), s')))

    send_pushed-Ended :
        (x : Tried Transaction) (e : Error)
        → send_pushed replica_send process again resp x s ≡ (ok (some r), s')
        → Ended (some e)
    unfolding send_pushed
    send_pushed-Ended (refused e') e h =
        let same : record { resp = resp; error = some e' } ≡ r = ground (arith, h) in
        rw (← same) (inl (refl, λ q. absurd (cc q)))
    send_pushed-Ended (worked p) e h = inr (p, s, h)

  send_rest-Ended :
      (again : Transaction → Exec S (Option (Reply P))) (resp : List P) (s s' : S) (r : Reply P)
      (e : Option Error)
      → send_rest replica_send process again resp e s ≡ (ok (some r), s')
      → Ended again resp s' s' r e
  unfolding send_rest
  send_rest-Ended again resp s s' r none h =
      let same : record { resp = resp; error = none } ≡ r = ground (arith, h) in
      rw (← same) (inl (refl, λ q. refl))
  send_rest-Ended again resp s s' r (some e) h = elim (Option-cases (write_intent_of e)) [
    | inl w ↦
        let stop : send_rest replica_send process again resp (some e) s
            ≡ (ok (some (record { resp = resp; error = some e })), s) =
          rw (send_rest, w) refl in
        let same : record { resp = resp; error = some e } ≡ r = ground (arith, h, stop) in
        rw (← same) (inl (refl, λ q. absurd (cc q)))
    | inr (wi, w) ↦
        let go : send_rest replica_send process again resp (some e) s
            ≡ (attempt (process wi) >>= send_pushed replica_send process again resp) s =
          rw (send_rest, w) refl in
        let (x, s₁, _, after) =
          >>=-eq-ok (attempt (process wi)) (send_pushed replica_send process again resp) (some r) s
            s' (sym go ∙ h) in
        send_pushed-Ended again resp s₁ s' r x e after
  ]

  send_loop-first :
      (n : ℕ) (resp : List P) (reqs : List (Option R)) (pushees : List Transaction) (s s' : S)
      (r : Reply P)
      → send_loop replica_send process (suc n) resp reqs pushees s ≡ (ok (some r), s')
      → (q : Reply P) × (s₁ : S) × (replica_send reqs pushees s ≡ (ok q, s₁))
        × Ended
            (λ p.
              send_loop replica_send process n
                (resp ++ q.resp)
                (drop (length q.resp) reqs)
                (pushees ++ p ∷ []))
            (resp ++ q.resp)
            s₁
            s'
            r
            q.error
  unfolding send_loop
  send_loop-first n resp reqs pushees s s' r h =
      let next : Reply P → Transaction → Exec S (Option (Reply P)) = λ q p.
        send_loop replica_send process n (resp ++ q.resp) (drop (length q.resp) reqs)
          (pushees ++ p ∷ []) in
      let (q, s₁, sent, rest) =
        >>=-eq-ok (replica_send reqs pushees)
          (λ q. send_rest replica_send process (next q) (resp ++ q.resp) q.error) (some r) s s' h in
      (q, s₁, sent, send_rest-Ended (next q) (resp ++ q.resp) s₁ s' r q.error rest)

  -- When the loop of Send returns, with responses so far and requests that are left, the responses
  -- that it has added answer the first of these requests in order, each request once, whatever rounds
  -- it took, and all of them if its error is nil. The replica's Send is asked to do so for each batch.
  send_loop-Answered :
      Serves
      → (n : ℕ) (resp : List P) (reqs : List (Option R)) (pushees : List Transaction) (s s' : S)
        (r : Reply P)
      → send_loop replica_send process n resp reqs pushees s ≡ (ok (some r), s')
      → (ps : List P) × (r.resp ≡ resp ++ ps) × Answered Answers reqs ps r.error
  unfolding send_loop
  send_loop-Answered serves zero resp reqs pushees s s' r h = absurd (cc h)
  send_loop-Answered serves (suc n) resp reqs pushees s s' r h =
      let (q, s₁, sent, ended) = send_loop-first n resp reqs pushees s s' r h in
      let (front, rest, split, matches, all) = serves reqs pushees s s₁ q sent in
      elim ended [
        | inl (same, error) ↦ (q.resp, same, (front, rest, split, matches, λ e. all (error e)))
        | inr (p, t, more) ↦
            let left : drop (length q.resp) reqs ≡ rest =
              rw (split, length-Matches Answers front q.resp matches) (drop-append front rest) in
            let (ps, same, (front', rest', split', matches', all')) =
              send_loop-Answered serves n (resp ++ q.resp) (drop (length q.resp) reqs)
                (pushees ++ p ∷ []) t s' r more in
            (
              q.resp ++ ps,
              same ∙ append_assoc resp q.resp ps,
              (
                front ++ front',
                rest',
                split
                    ∙ (ap (λ l. front ++ l) (sym left ∙ split')
                        ∙ sym (append_assoc front front' rest')),
                append-Matches Answers front front' q.resp ps matches matches',
                all',
              ),
            )
      ]

-- A response is what the execution of the request gave in some state.
abbrev Executes : {S R P : Type 0} → (R → Exec S P) → Option R → P → Type 0
Executes {S} {R} execute q p =
    (r : R) × (s : S) × (t : S) × (q ≡ some r) × (execute r s ≡ (ok p, t))

-- The same in a round with some pushees.
abbrev pub ExecutesIn : {S R P : Type 0} → (List Transaction → R → Exec S P) → Option R → P → Type 0
ExecutesIn execute q p = (pushees : List Transaction) × Executes (execute pushees) q p

module _ {S R P : Type 0} (execute : List Transaction → R → Exec S P) where
  Runs-Matches :
      (pushees : List Transaction) (rs : List (Option R)) (ps : List P) (s t : S)
      → Runs (execute pushees) rs ps s t
      → Matches (ExecutesIn execute) rs ps
  Runs-Matches pushees _ _ _ _ finished = no_requests
  Runs-Matches pushees _ _ _ _ (one e m) =
      and_one (pushees, (_, _, _, refl, e)) (Runs-Matches pushees _ _ _ _ m)

  Stops-nil :
      (pushees : List Transaction) (rs : List (Option R)) (e : Option Error) (s t : S)
      → Stops (execute pushees) rs e s t
      → e ≡ none
      → rs ≡ []
  Stops-nil pushees _ _ _ _ at_end h = refl
  Stops-nil pushees _ _ _ _ at_nil h = absurd (cc h)
  Stops-nil pushees _ _ _ _ (at_error f) h = absurd (cc h)

  -- What a replica does with the batch of a round.
  abbrev pub serve : List (Option R) → List Transaction → Exec S (Reply P)
  serve rs pushees = execute_batch (execute pushees) rs

  pub serve-Serves :
      (process : WriteIntent → Exec S Transaction) → Serves (ExecutesIn execute) serve process
  serve-Serves process rs pushees s s' r h =
      let (front, rest, s₁, split, runs, stops) =
        execute_batch-Runs (execute pushees) rs s s' r h in
      (
        front,
        rest,
        split,
        Runs-Matches pushees front r.resp s s₁ runs,
        Stops-nil pushees rest r.error s₁ s' stops,
      )

  -- Where a replica executes the batch of each round with Execute of the batch, and the loop of Send
  -- returns, its responses after those that it began with are what the execution of the first of its
  -- requests returned, each request once over all rounds and in order, and of all of them if its
  -- error is nil.
  pub send_loop-ExecutesIn :
      (process : WriteIntent → Exec S Transaction) (n : ℕ) (resp : List P) (reqs : List (Option R))
      (pushees : List Transaction) (s s' : S) (r : Reply P)
      → send_loop serve process n resp reqs pushees s ≡ (ok (some r), s')
      → (ps : List P) × (r.resp ≡ resp ++ ps) × Answered (ExecutesIn execute) reqs ps r.error
  send_loop-ExecutesIn process n resp reqs pushees s s' r h =
      send_loop-Answered (ExecutesIn execute) serve process (serve-Serves process) n resp reqs
        pushees s s' r h
