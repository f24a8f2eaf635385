-- ===== src/Raft/Ready/Persisted.antt =====
-- Nothing is sent before it is persisted.
use ancestor.Common.{
  Bytes, Bool, true, false, List, [], ◌∷◌, ◌++◌, Option, none, ◌≡◌, ◌≢◌, ◌⊎◌, inl, inr, refl, ap,
  ◌∙◌, sym, append_assoc, append-nil, Option-cases, Bool-cases, length, ◌==◌, if◌then◌else◌,
}
use ancestor.Engine.{Engine}
use ancestor.Meta.Message.{Error}
use ancestor.Meta.Exec.{>>=-ok, >>=-err, >>=-panic, Exec, Result, ok, err, panic, ◌>>◌}
use ancestor.Raft.State.{Raft, RaftCodec}
use ancestor.Raft.Ready.Written.{Written, persist-Written}
use ancestor.Raft.Ready.{
  Ready, Loop, Committed, normal, conf_change, on_raft, persist, commit_engine, send_messages,
  set_applied, apply_committed, advance, handle_raft_ready,
}

result-cases :
    {S : Type 0} (x : Result (Unit {0}) × S)
    → (x ≡ (ok tt, x.1)) ⊎ (((e : Error) × (x ≡ (err e, x.1))) ⊎ (x ≡ (panic, x.1)))
result-cases (ok p, s) = inl refl
result-cases (err e, s) = inr (inl (e, refl))
result-cases (panic, s) = inr (inr refl)

module _ (E : Engine) (C : RaftCodec) {M : Type 0} (is_command is_change : Bytes → Bool)
    (commit : E.Db → Option Error) (execute : Bytes → Raft E → Raft E) where
  send_messages-sent :
      (ms : List M) (s : Loop E M)
      → send_messages E C is_command is_change commit execute ms s
        ≡ (ok tt, record s { sent = s.sent ++ ms })
  unfolding send_messages
  send_messages-sent [] s =
      ap (λ (l : List M). (ok tt, record s { sent = l })) (sym (append-nil s.sent))
  send_messages-sent (m ∷ ms) s =
      send_messages-sent ms (record s { sent = s.sent ++ m ∷ [] })
      ∙ ap (λ (l : List M). (ok tt, record s { sent = l })) (append_assoc s.sent (m ∷ []) ms)

  if-sent :
      (a b : Bool) (s t : Loop E M)
      → t.sent ≡ s.sent
      → (if a then s else if b then t else s).sent ≡ s.sent
  if-sent true b s t h = refl
  if-sent false true s t h = h
  if-sent false false s t h = refl

  -- The committed entries change nothing that is sent.
  apply_committed-sent :
      (es : List Committed) (s : Loop E M)
      → (apply_committed E C is_command is_change commit execute es s).1.sent ≡ s.sent
  unfolding apply_committed set_applied
  apply_committed-sent [] s = refl
  apply_committed-sent (normal index content ∷ es) s =
      apply_committed-sent es (
        if length content == 0
        then s
        else if is_command content
        then set_applied E C is_command is_change commit execute index
            (record s { raft = execute content s.raft })
        else s)
      ∙ if-sent (length content == 0) (is_command content) s
          (set_applied E C is_command is_change commit execute index
            (record s { raft = execute content s.raft }))
          refl
  apply_committed-sent (conf_change index content ∷ es) s = elim (Bool-cases (is_change content)) [
    | inl e ↦
        rw (apply_committed, e)
          (apply_committed-sent es (
            set_applied E C is_command is_change commit execute index
              (record s { members = content ∷ s.members })))
    | inr e ↦ rw (apply_committed, e) refl
  ]

  abbrev continued : Result (Unit {0}) × Loop E M → Result (Unit {0}) × Loop E M
  continued x = elim x.0 [
    | ok _ ↦ advance E C is_command is_change commit execute x.1
    | err e ↦ (err e, x.1)
    | panic ↦ (panic, x.1)
  ]

  continue-sent : (x : Result (Unit {0}) × Loop E M) → (continued x).1.sent ≡ x.1.sent
  unfolding advance
  continue-sent (ok p, s) = refl
  continue-sent (err e, s) = refl
  continue-sent (panic, s) = refl

  -- What is sent once the messages are: nothing more.
  rest-sent :
      (rd : Ready M) (s : Loop E M)
      → ((apply_committed E C is_command is_change commit execute rd.committed
            >> advance E C is_command is_change commit execute)
          s).1.sent
        ≡ s.sent
  unfolding advance
  rest-sent rd s =
      continue-sent (apply_committed E C is_command is_change commit execute rd.committed s)
      ∙ apply_committed-sent rd.committed s

  abbrev handle : Ready M → Exec (Loop E M) Unit
  handle = handle_raft_ready E C is_command is_change commit execute

  -- A round of the raft loop hands over messages, all of its own in order, only when it has applied
  -- the snapshot, appended the entries and stored the hard state, those that there are, without an
  -- error, the bytes of the hard state stand at its key, and the engine has committed without an
  -- error; if any of this fails, the round fails and hands over none.
  pub handle_raft_ready-sent :
      (rd : Ready M) (s : Loop E M)
      → (((handle rd s).1.sent ≡ s.sent) × ((handle rd s).0 ≢ ok tt))
        ⊎ ((r : Raft E) × (persist E C is_command is_change commit execute rd s.raft ≡ (ok tt, r))
            × Written E C rd s.raft r
            × (commit r.db ≡ none)
            × ((handle rd s).1.sent ≡ s.sent ++ rd.messages))
  unfolding handle_raft_ready commit_engine
  handle_raft_ready-sent rd s =
      let written = persist E C {M = M} is_command is_change commit execute rd in
      let first : Exec (Loop E M) Unit = on_raft E C is_command is_change commit execute written in
      let s₁ : Loop E M = record s { raft = (written s.raft).1 } in
      let last : Exec (Loop E M) Unit =
        apply_committed E C is_command is_change commit execute rd.committed
        >> advance E C is_command is_change commit execute in
      let messages : Exec (Loop E M) Unit =
        send_messages E C is_command is_change commit execute rd.messages >> last in
      let engine : Exec (Loop E M) Unit = commit_engine E C is_command is_change commit execute in
      elim (result-cases (written s.raft)) [
        | inr (inl (e, h)) ↦ inl (
            rw (>>=-err first (λ _. engine >> messages) e s s₁ (ap (λ q. (q.0, s₁)) h))
              (refl, λ p. cc p))
        | inr (inr h) ↦ inl (
            rw (>>=-panic first (λ _. engine >> messages) s s₁ (ap (λ q. (q.0, s₁)) h))
              (refl, λ p. cc p))
        | inl h ↦
            let start = >>=-ok first (λ _. engine >> messages) tt s s₁ (ap (λ q. (q.0, s₁)) h) in
            elim (Option-cases (commit s₁.raft.db)) [
              | inr (e, c) ↦ inl (
                  rw (start, >>=-err engine (λ _. messages) e s₁ s₁ (rw (commit_engine, c) refl))
                    (refl, λ p. cc p))
              | inl c ↦
                  let s₂ : Loop E M = record s₁ { sent = s.sent ++ rd.messages } in
                  let go = >>=-ok engine (λ _. messages) tt s₁ s₁ (rw (commit_engine, c) refl) in
                  let then_sent =
                    >>=-ok (send_messages E C is_command is_change commit execute rd.messages)
                      (λ _. last) tt s₁ s₂ (send_messages-sent rd.messages s₁) in
                  inr (
                    (written s.raft).1,
                    h,
                    persist-Written E C is_command is_change commit execute rd s.raft
                        (written s.raft).1 h,
                    c,
                    ap (λ q. q.1.sent) (start ∙ (go ∙ then_sent)) ∙ rest-sent rd s₂,
                  )
            ]
      ]
