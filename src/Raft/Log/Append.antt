-- ===== src/Raft/Log/Append.antt =====
-- append, against a log that is a function of the index.
use ancestor.Common.{
  Bytes, ℕ, List, [], ◌∷◌, Option, none, some, ◌≡◌, ◌<◌, ◌^◌, ◌+◌, ◌-◌, arith, All, if◌then◌else◌,
  ◌==◌, leb, suc, ◌∙◌, ◌≤◌, ap, zero, refl, Option-cases, inl, inr, Bool-cases,
}
use ancestor.Engine.{Engine, done, Outcome-cases}
use ancestor.Meta.Exec.{ok, >>=-eq-ok, gets}
use ancestor.Raft.Keys.Order.{index_keys_differ}
use ancestor.Raft.State.{put_db, clear_db, Raft, RaftCodec, Entry}
use ancestor.Raft.Index.{set_last_index}
use ancestor.Raft.Index.Stored.{set_last_index-done}
use ancestor.Meta.Exec.{◌>>=◌, ◌>>◌}
use ancestor.Raft.Log.{
  put_entries, clear_entries, last_of, append, put_db, clear_db, set_last_index, raft_log_key,
  raft_last_index_key,
}
use ancestor.Raft.Log.Stored.{stored, stored-put, stored-clear, stored-put_other}

-- The entry of an index when the entries `es` are written over `o`, the last one winning.
abbrev pub latest : List Entry → ℕ → Option Entry → Option Entry
latest [] i o = o
latest (e ∷ es) i o = latest es i (if e.index == i then some e else o)

module _ (E : Engine) (C : RaftCodec) where
  -- The first round of each loop.
  put_entries-first :
      (e : Entry) (es : List Entry) (s s' : Raft E)
      → put_entries E C (e ∷ es) s ≡ (ok tt, s')
      → (b : Bytes) × (db : E.Db) × (C.marshal_entry e ≡ some b)
        × (E.put s.db (raft_log_key s.range_id e.index) b ≡ done db)
        × (put_entries E C es (record s { db = db }) ≡ (ok tt, s'))
  unfolding put_entries put_db
  put_entries-first e es s s' h = elim (Option-cases (C.marshal_entry e)) [
    | inl m ↦ absurd (ground (arith, h, m))
    | inr (b, m) ↦ elim (Outcome-cases (E.put s.db (raft_log_key s.range_id e.index) b)) [
      | inl p ↦ absurd (ground (arith, h, m, p))
      | inr (db, p) ↦ (b, db, m, p, ground (arith, h, m, p))
    ]
  ]

  clear_entries-first :
      (n j : ℕ) (s s' : Raft E)
      → clear_entries E C (suc n) j s ≡ (ok tt, s')
      → (db : E.Db) × (E.clear s.db (raft_log_key s.range_id j) ≡ done db)
        × (clear_entries E C n (j + 1) (record s { db = db }) ≡ (ok tt, s'))
  unfolding clear_entries clear_db
  clear_entries-first n j s s' h = elim (Outcome-cases (E.clear s.db (raft_log_key s.range_id j))) [
    | inl p ↦ absurd (ground (arith, h, p))
    | inr (db, p) ↦ (db, p, ground (arith, h, p))
  ]

  -- The three parts of append.
  append-parts :
      (e : Entry) (es : List Entry) (s s' : Raft E)
      → append E C (e ∷ es) s ≡ (ok tt, s')
      → (s₁ : Raft E) × (s₂ : Raft E) × (put_entries E C (e ∷ es) s ≡ (ok tt, s₁))
        × (clear_entries E C (s₁.last_index - last_of e es) (last_of e es + 1) s₁ ≡ (ok tt, s₂))
        × (set_last_index E C (last_of e es) s₂ ≡ (ok tt, s'))
  unfolding append
  append-parts e es s s' h =
      let n = last_of e es in
      let (_, s₁, put_ok, rest) =
        >>=-eq-ok (put_entries E C (e ∷ es))
          (λ _. gets (λ s. s.last_index - n) >>= λ m.
            clear_entries E C m (n + 1) >> set_last_index E C n)
          tt s s' h in
      let (_, s₂, clear_ok, set_ok) =
        >>=-eq-ok (clear_entries E C (s₁.last_index - n) (n + 1)) (λ _. set_last_index E C n) tt s₁
          s' rest in
      (s₁, s₂, put_ok, clear_ok, set_ok)

module _ (E : Engine) (C : RaftCodec) (i : ℕ) (small : i < 10 ^ 16) where
  put_entries-effect :
      (es : List Entry) (s s' : Raft E)
      → All (λ e. e.index < 10 ^ 16) es
      → put_entries E C es s ≡ (ok tt, s')
      → (s' ≡ record s { db = s'.db })
        × (stored E C s'.db s.range_id i ≡ latest es i (stored E C s.db s.range_id i))
  unfolding put_entries
  put_entries-effect [] s s' all h = let e : s ≡ s' = ap (λ q. q.1) h in rw (← e) (refl, refl)
  put_entries-effect (e ∷ es) s s' (le, all) h =
      let (b, db, m, p, rest) = put_entries-first E C e es s s' h in
      let (same, after) = put_entries-effect es (record s { db = db }) s' all rest in
      let here =
        stored-put E C s.db db s.range_id i e.index b e small le p (C.entry_round_trip e b m) in
      (same, after ∙ ap (latest es i) here)

  clear_entries-effect :
      (n j : ℕ) (s s' : Raft E)
      → j + n ≤ 10 ^ 16
      → i < j
      → clear_entries E C n j s ≡ (ok tt, s')
      → (s' ≡ record s { db = s'.db })
        × (stored E C s'.db s.range_id i ≡ stored E C s.db s.range_id i)
  unfolding clear_entries
  clear_entries-effect zero j s s' le lt h =
      let e : s ≡ s' = ap (λ q. q.1) h in rw (← e) (refl, refl)
  clear_entries-effect (suc n) j s s' le lt h =
      let (db, p, rest) = clear_entries-first E C n j s s' h in
      let (same, after) =
        clear_entries-effect n (j + 1) (record s { db = db }) s' (omega arith) (omega arith) rest in
      let here = stored-clear E C s.db db s.range_id i j small (omega arith) lt p in
      (same, after ∙ here)

last_of-small :
    (e : Entry) (es : List Entry) → All (λ e. e.index < 10 ^ 16) (e ∷ es) → last_of e es < 10 ^ 16
unfolding last_of
last_of-small e [] all = all.0
last_of-small e (e' ∷ es) all = last_of-small e' es all.1

-- The log that a replica has: what stands past its last index is not in it.
abbrev pub log_of : (E : Engine) (C : RaftCodec) → Raft E → ℕ → Option Entry
log_of E C s i = if leb i s.last_index then stored E C s.db s.range_id i else none

-- append, when it succeeds on indices below 10 ^ 16, makes of the log what stands in the engine up
-- to the index of its last entry, overwritten with its entries, and nothing past that one. It makes
-- that one the last index, and keeps every other field but the engine's contents.
pub append-refines :
    (E : Engine) (C : RaftCodec) (e : Entry) (es : List Entry) (s s' : Raft E)
    → All (λ e. e.index < 10 ^ 16) (e ∷ es)
    → s.last_index < 10 ^ 16
    → append E C (e ∷ es) s ≡ (ok tt, s')
    → (s' ≡ record s { db = s'.db; last_index = last_of e es })
      × ((i : ℕ)
          → log_of E C s' i ≡ (
              if leb i (last_of e es)
              then latest (e ∷ es) i (stored E C s.db s.range_id i)
              else none))
append-refines E C e es s s' all small h =
    let (s₁, s₂, put_ok, clear_ok, set_ok) = append-parts E C e es s s' h in
    let n = last_of e es in
    let n_small = last_of-small e es all in
    let (same₁, _) = put_entries-effect E C 0 (omega arith) (e ∷ es) s s₁ all put_ok in
    let old : s₁.last_index ≡ s.last_index = ap (λ q. q.last_index) same₁ in
    let bound : n + 1 + (s₁.last_index - n) ≤ 10 ^ 16 = ground (arith, old, small, n_small) in
    let (same₂, _) =
      clear_entries-effect E C 0 (omega arith) (s₁.last_index - n) (n + 1) s₁ s₂ bound (omega arith)
        clear_ok in
    let (same₃, b, put_last, _) = set_last_index-done E C n s₂ s' set_ok in
    let id₁ : s₁.range_id ≡ s.range_id = ap (λ q. q.range_id) same₁ in
    let id₂ : s₂.range_id ≡ s.range_id = ap (λ q. q.range_id) same₂ ∙ id₁ in
    let whole : s' ≡ record s { db = s'.db; last_index = n } =
      same₃
      ∙ (ap (λ (q : Raft E). record q { db = s'.db; last_index = n }) same₂
          ∙ ap (λ (q : Raft E). record q { db = s'.db; last_index = n }) same₁) in
    (
      whole,
      λ i. elim (Bool-cases (leb i n)) [
        | inr past ↦ ground (arith, past, ap (λ (q : Raft E). q.last_index) whole)
        | inl up_to ↦
            let hi : i < 10 ^ 16 = ground (arith, up_to, n_small) in
            let (_, first) = put_entries-effect E C i hi (e ∷ es) s s₁ all put_ok in
            let (_, second) =
              clear_entries-effect E C i hi (s₁.last_index - n) (n + 1) s₁ s₂ bound
                (ground (arith, up_to)) clear_ok in
            let third =
              stored-put_other E C s₂.db s'.db s.range_id i (raft_last_index_key s₂.range_id) b
                (rw id₂ (index_keys_differ s.range_id i).0) put_last in
            let last : s'.last_index ≡ n = ap (λ (q : Raft E). q.last_index) whole in
            let id : s'.range_id ≡ s.range_id = ap (λ (q : Raft E). q.range_id) whole in
            ground (arith, first, second, third, id₁, id, last, up_to)
      ],
    )
