-- ===== src/Raft/Ready/Written.antt =====
-- What handleRaftReady has written before its commit.
use ancestor.Common.{
  Option, none, some, ◌≡◌, ◌⊎◌, inl, inr, refl, sym, ◌∙◌, Bytes, arith, Option-cases, subst, Bool,
  bytes_equal_refl,
}
use ancestor.Engine.{Engine, done}
use ancestor.Meta.Exec.{ok, >>=-eq-ok, ◌>>◌, Exec, pure}
use ancestor.Meta.Message.{Error}
use ancestor.Raft.State.{Raft, RaftCodec, HardState, put_db-done}
use ancestor.Raft.Index.{set_hard_state}
use ancestor.Raft.Log.{append}
use ancestor.Raft.Keys.{raft_hard_state_key}
use ancestor.Raft.Snapshot.{apply_snapshot, Snapshot}
use ancestor.Raft.Ready.{Ready, persist}

module _ (E : Engine) (C : RaftCodec) where
  -- The bytes of a hard state stand at its key.
  abbrev pub IsStored : HardState → Raft E → Type 0
  IsStored hs r =
      (b : Bytes) × (C.marshal_hard_state hs ≡ some b)
      × (E.get r.db (raft_hard_state_key r.range_id) ≡ done (some b))

  set_hard_state-IsStored :
      (hs : HardState) (s r : Raft E) → set_hard_state E C hs s ≡ (ok tt, r) → IsStored hs r
  unfolding set_hard_state
  set_hard_state-IsStored hs s r h = elim (Option-cases (C.marshal_hard_state hs)) [
    | inl m ↦ absurd (ground (arith, h, m))
    | inr (b, m) ↦
        let (db, p, same) =
          put_db-done E (raft_hard_state_key s.range_id) b s r (ground (arith, h, m)) in
        (
          b,
          m,
          subst (λ (q : Raft E). E.get q.db (raft_hard_state_key q.range_id) ≡ done (some b))
              (sym same)
              (E.get-put s.db db (raft_hard_state_key s.range_id) (raft_hard_state_key s.range_id) b
                  p
                ∙ rw (bytes_equal_refl (raft_hard_state_key s.range_id)) refl),
        )
  ]

  -- A snapshot is applied, then the entries are appended, then the hard state is stored.
  pub record Written {M : Type 0} (rd : Ready M) (s r : Raft E) : Type 0 where
    pub after_snapshot : Raft E
    pub after_append : Raft E
    pub applied :
        ((rd.snapshot ≡ none) × (after_snapshot ≡ s))
        ⊎ ((snap : Snapshot) × (rd.snapshot ≡ some snap)
            × (apply_snapshot E C snap s ≡ (ok tt, after_snapshot)))
    pub appended : append E C rd.entries after_snapshot ≡ (ok tt, after_append)
    pub stored :
        ((rd.hard_state ≡ none) × (r ≡ after_append))
        ⊎ ((hs : HardState) × (rd.hard_state ≡ some hs) × IsStored hs r)

module _ (E : Engine) (C : RaftCodec) {M : Type 0} (is_command is_change : Bytes → Bool)
    (commit : E.Db → Option Error) (execute : Bytes → Raft E → Raft E) where
  pub persist-Written :
      (rd : Ready M) (s r : Raft E)
      → persist E C is_command is_change commit execute rd s ≡ (ok tt, r)
      → Written E C rd s r
  unfolding persist
  persist-Written rd s r h =
      let last : Exec (Raft E) Unit = elim rd.hard_state [
        | none ↦ pure tt
        | some hs ↦ set_hard_state E C hs
      ] in
      let (u, s₁, e, k) =
        >>=-eq-ok
          (elim rd.snapshot as (λ _. Exec (Raft E) Unit) [
            | none ↦ pure tt
            | some snap ↦ apply_snapshot E C snap
          ])
          (λ _. append E C rd.entries >> last) tt s r h in
      let (v, s₂, f, g) = >>=-eq-ok (append E C rd.entries) (λ _. last) tt s₁ r k in
      record {
        after_snapshot = s₁;
        after_append = s₂;
        applied = elim (Option-cases rd.snapshot) [
          | inl n ↦ inl (n, ground (arith, e, n))
          | inr (snap, n) ↦ inr (
            snap,
            n,
            subst
                (λ (o : Option Snapshot).
                  (elim o as (λ _. Exec (Raft E) Unit) [
                    | none ↦ pure tt
                    | some snap ↦ apply_snapshot E C snap
                  ])
                    s
                  ≡ (ok tt, s₁))
                n e,
          )
        ];
        appended = f;
        stored = elim (Option-cases rd.hard_state) [
          | inl n ↦ inl (n, ground (arith, g, n))
          | inr (hs, n) ↦ inr (
            hs,
            n,
            set_hard_state-IsStored E C hs s₂ r (
                subst
                  (λ (o : Option HardState).
                    (elim o as (λ _. Exec (Raft E) Unit) [
                      | none ↦ pure tt
                      | some hs ↦ set_hard_state E C hs
                    ])
                      s₂
                    ≡ (ok tt, r))
                  n g),
          )
        ];
      }
