-- ===== src/Raft/Snapshot/Restore.antt =====
-- applySnapshot gives the range what data took from another engine.
use ancestor.Common.{
  Bytes, List, [], ◌∷◌, some, ◌≡◌, ◌≢◌, ◌⊎◌, bytes_less, bytes_equal, true, false, arith, refl, ap,
  ◌∙◌, inl, inr, bytes_less→not_equal, bytes_less_not_less, Option-cases, none, sym,
}
use ancestor.Common.Int.{pos}
use ancestor.Engine.{Engine, done}
use ancestor.Meta.Exec.{ok}
use ancestor.Raft.State.{Raft, RaftCodec}
use ancestor.Raft.Index.{set_last_index, set_applied_index}
use ancestor.Meta.Stats.{RangeStats}
use ancestor.Raft.Keys.{raft_last_index_key, raft_applied_index_key}
use ancestor.Raft.Index.Stored.{set_last_index-done, set_applied_index-done}
use ancestor.Raft.Snapshot.{write_keys, Snapshot, visited, data_of, apply_snapshot, clear_keys}
use ancestor.Raft.Snapshot.Visit.{
  written, written-Without, written-cases, visited-Without, visited-past, forward-Without,
  visited-get,
}
use ancestor.Raft.Snapshot.Apply.{apply_snapshot-parts, write_keys-effect, clear_keys-effect}

module _ (E : Engine) (C : RaftCodec) (snap : Snapshot) (l : List (Bytes × Bytes)) where
  -- The fields that applySnapshot leaves, around an engine and statistics.
  abbrev restored : Raft E → E.Db → RangeStats → Raft E
  restored s db stats = record s {
    db = db;
    stats = stats;
    last_index = snap.index;
    applied_index = snap.index;
    truncate_index = snap.index;
    truncate_term = snap.term;
  }

  abbrev reset : Raft E → Raft E
  reset s = record s { stats = record s.stats { total_bytes = pos 0; total_count = pos 0 } }

  -- Each key of the engine after the parts of applySnapshot, from what the loop of clear leaves.
  parts-get :
      (s s₁ s₂ s₃ s₄ s' : Raft E)
      → s₁ ≡ record s { db = s₁.db }
      → write_keys E C l (reset s₁) ≡ (ok tt, s₂)
      → set_last_index E C snap.index s₂ ≡ (ok tt, s₃)
      → set_applied_index E C snap.index s₃ ≡ (ok tt, s₄)
      → s' ≡ record s₄ { truncate_index = snap.index; truncate_term = snap.term }
      → ((j : Bytes)
          → bytes_equal (raft_last_index_key s.range_id) j ≡ false
          → bytes_equal (raft_applied_index_key s.range_id) j ≡ false
          → E.get s'.db j ≡ written l j (E.get s₁.db j))
        × (s' ≡ restored s s'.db s'.stats)
  parts-get s s₁ s₂ s₃ s₄ s' same₁ wrote last applied end =
      let (same₂, get₂) = write_keys-effect E C l (reset s₁) s₂ wrote in
      let (same₃, b, put₃, _) = set_last_index-done E C snap.index s₂ s₃ last in
      let (same₄, c, put₄, _) = set_applied_index-done E C snap.index s₃ s₄ applied in
      let db' : s'.db ≡ s₄.db = ap (λ q. q.db) end in
      let id₂ : s₂.range_id ≡ s.range_id =
        ap (λ q. q.range_id) same₂ ∙ ap (λ q. q.range_id) same₁ in
      let id₃ : s₃.range_id ≡ s.range_id = ap (λ q. q.range_id) same₃ ∙ id₂ in
      (
        λ j ne_last ne_applied.
            ap (λ (d : E.Db). E.get d j) db'
            ∙ (E.get-put s₃.db s₄.db (raft_applied_index_key s₃.range_id) j c put₄
                ∙ rw (id₃, ne_applied)
                    (E.get-put s₂.db s₃.db (raft_last_index_key s₂.range_id) j b put₃
                      ∙ rw (id₂, ne_last) (get₂ j))),
        ap (λ (q : Raft E). record q { db = s'.db; stats = s'.stats }) end
            ∙ (ap
                  (λ (q : Raft E). record q {
                    db = s'.db;
                    stats = s'.stats;
                    truncate_index = snap.index;
                    truncate_term = snap.term;
                  })
                  same₄
                ∙ (ap
                      (λ (q : Raft E). record q {
                        db = s'.db;
                        stats = s'.stats;
                        truncate_index = snap.index;
                        truncate_term = snap.term;
                        applied_index = snap.index;
                      })
                      same₃
                    ∙ (ap (λ (q : Raft E). restored q s'.db s'.stats) same₂
                        ∙ ap (λ (q : Raft E). restored q s'.db s'.stats) same₁))),
      )

  -- Inside the range a key stands as in the source, or is not in the source and has been left.
  range-get :
      (source : E.Db) (s s₁ : Raft E) (j : Bytes)
      → l ≡ visited s.end_key (E.forward source s.start_key)
      → s.start_key ≢ []
      → clear_keys E C s.end_key (E.forward s.db s.start_key) s ≡ (ok tt, s₁)
      → bytes_less j s.start_key ≡ false
      → bytes_less j s.end_key ≡ true
      → (written l j (E.get s₁.db j) ≡ E.get source j)
        ⊎ ((E.get source j ≡ done none) × (written l j (E.get s₁.db j) ≡ E.get s.db j))
  range-get source s s₁ j e ne cleared ge lt =
      let there : written l j (done none) ≡ E.get source j = rw e (
        visited-get E source s.end_key j s.start_key (E.forward source s.start_key) refl ne ge
          lt) in
      elim (written-cases j l) [
        | inl sets ↦ inl (sets (E.get s₁.db j) (done none) ∙ there)
        | inr leaves ↦
            elim (clear_keys-effect E C s.end_key j (E.forward s.db s.start_key) s s₁ cleared).1 [
              | inl left ↦ inr (sym there ∙ leaves (done none), leaves (E.get s₁.db j) ∙ left)
              | inr gone ↦ inl (ap (written l j) gone ∙ there)
            ]
      ]

  outside-get :
      (source : E.Db) (s s₁ : Raft E) (j : Bytes)
      → l ≡ visited s.end_key (E.forward source s.start_key)
      → clear_keys E C s.end_key (E.forward s.db s.start_key) s ≡ (ok tt, s₁)
      → (bytes_less j s.start_key ≡ true) ⊎ (bytes_less j s.end_key ≡ false)
      → written l j (E.get s₁.db j) ≡ E.get s.db j
  outside-get source s s₁ j e cleared (inl below) =
      rw e (
        written-Without j (visited s.end_key (E.forward source s.start_key)) (E.get s₁.db j) (
          visited-Without s.end_key j (E.forward source s.start_key)
            (forward-Without E source j s.start_key (E.forward source s.start_key) refl below)))
      ∙ (clear_keys-effect E C s.end_key j (E.forward s.db s.start_key) s s₁ cleared).2
          (inl (forward-Without E s.db j s.start_key (E.forward s.db s.start_key) refl below))
  outside-get source s s₁ j e cleared (inr past) =
      rw e (
        written-Without j (visited s.end_key (E.forward source s.start_key)) (E.get s₁.db j)
          (visited-past s.end_key j (E.forward source s.start_key) past))
      ∙ (clear_keys-effect E C s.end_key j (E.forward s.db s.start_key) s s₁ cleared).2 (inr past)

less→ne_nil : (a b : Bytes) → bytes_less a b ≡ true → b ≢ []
unfolding bytes_less
less→ne_nil [] b h e = cc (h, e)
less→ne_nil (x ∷ a) [] h e = cc h
less→ne_nil (x ∷ a) (y ∷ b) h e = cc e

module _ (E : Engine) (C : RaftCodec) where
  data-read :
      (snap : Snapshot) (r r' s : Raft E)
      → data_of E C r ≡ (ok snap.content, r')
      → r.start_key ≡ s.start_key
      → r.end_key ≡ s.end_key
      → C.unmarshal_key_values snap.content ≡ some (visited s.end_key (E.forward r.db s.start_key))
  unfolding data_of
  data-read snap r r' s h start end =
      let l = visited r.end_key (E.forward r.db r.start_key) in
      elim (Option-cases (C.marshal_key_values l)) [
        | inl m ↦ absurd (ground (arith, h, m))
        | inr (b, m) ↦
            let same : b ≡ snap.content = ground (arith, h, m) in
            rw (← start, ← end, ← same) (C.key_values_round_trip l b m)
      ]

-- When a replica applies a snapshot whose data another replica of the same range took from its
-- engine, and the application succeeds, every key of the range stands as in that engine, unless it
-- is not there and stands as before; every key outside the range but those of the two indices stands
-- as before; and the last, applied and truncate indices are the snapshot's. The range starts behind
-- the raft keys.
pub apply-data :
    (E : Engine) (C : RaftCodec) (snap : Snapshot) (r r' s s' : Raft E)
    → data_of E C r ≡ (ok snap.content, r')
    → r.start_key ≡ s.start_key
    → r.end_key ≡ s.end_key
    → bytes_less (raft_last_index_key s.range_id) s.start_key ≡ true
    → bytes_less (raft_applied_index_key s.range_id) s.start_key ≡ true
    → apply_snapshot E C snap s ≡ (ok tt, s')
    → ((j : Bytes)
        → bytes_less j s.start_key ≡ false
        → bytes_less j s.end_key ≡ true
        → (E.get s'.db j ≡ E.get r.db j)
          ⊎ ((E.get r.db j ≡ done none) × (E.get s'.db j ≡ E.get s.db j)))
      × ((j : Bytes)
          → (bytes_less j s.start_key ≡ true) ⊎ (bytes_less j s.end_key ≡ false)
          → bytes_equal (raft_last_index_key s.range_id) j ≡ false
          → bytes_equal (raft_applied_index_key s.range_id) j ≡ false
          → E.get s'.db j ≡ E.get s.db j)
      × (s'.last_index ≡ snap.index)
      × (s'.applied_index ≡ snap.index)
      × (s'.truncate_index ≡ snap.index)
      × (s'.truncate_term ≡ snap.term)
apply-data E C snap r r' s s' took start end last_below applied_below h =
    let l = visited s.end_key (E.forward r.db s.start_key) in
    let read : C.unmarshal_key_values snap.content ≡ some l =
      data-read E C snap r r' s took start end in
    let (s₁, s₂, s₃, s₄, cleared, wrote, last, applied, final) =
      apply_snapshot-parts E C snap l s s' read h in
    let same₁ = (clear_keys-effect E C s.end_key [] (E.forward s.db s.start_key) s s₁ cleared).0 in
    let (get, same) = parts-get E C snap l s s₁ s₂ s₃ s₄ s' same₁ wrote last applied final in
    let ne = less→ne_nil (raft_last_index_key s.range_id) s.start_key last_below in
    (
      λ j ge lt.
          let after =
            get j
              (bytes_less→not_equal (raft_last_index_key s.range_id) j
                (bytes_less_not_less (raft_last_index_key s.range_id) s.start_key j last_below ge))
              (bytes_less→not_equal (raft_applied_index_key s.range_id) j (
                bytes_less_not_less (raft_applied_index_key s.range_id) s.start_key j applied_below
                  ge)) in
          elim (range-get E C snap l r.db s s₁ j refl ne cleared ge lt) [
            | inl same ↦ inl (after ∙ same)
            | inr left ↦ inr (left.0, after ∙ left.1)
          ],
      λ j out ne_last ne_applied.
          get j ne_last ne_applied ∙ outside-get E C snap l r.db s s₁ j refl cleared out,
      ap (λ q. q.last_index) same,
      ap (λ q. q.applied_index) same,
      ap (λ q. q.truncate_index) same,
      ap (λ q. q.truncate_term) same,
    )
