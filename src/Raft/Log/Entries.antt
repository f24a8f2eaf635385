-- ===== src/Raft/Log/Entries.antt =====
-- Entries and Term read the log.
use ancestor.Common.{
  ℕ, zero, suc, List, some, ◌≡◌, arith, ◌<◌, ◌+◌, ◌-◌, ◌≤◌, ◌^◌, refl, ◌∙◌, ap, length, ◌%◌, subst,
}
use ancestor.Engine.{Engine}
use ancestor.Meta.Exec.{ok, >>=-ok}
use ancestor.Raft.State.{Raft, RaftCodec, Entry}
use ancestor.Raft.Keys.{raft_log_key}
use ancestor.Raft.Log.{collect_entries, check_entries, entries, term, term_of}
use ancestor.Raft.Log.Stored.{stored, OnlyEntries}
use ancestor.Raft.Log.Collect.{range, Begins-here, collect-range}

-- The length of a range.
length-range : (n lo : ℕ) (g : ℕ → Entry) → length (range n lo g) ≡ n
length-range zero lo g = refl
length-range (suc n) lo g = ap suc (length-range n (suc lo) g)

module _ (E : Engine) (C : RaftCodec) where
  check_entries-full :
      (lo hi : ℕ) (es : List Entry) (s : Raft E)
      → length es ≡ hi - lo
      → check_entries E lo hi es s ≡ (ok es, s)
  unfolding check_entries
  check_entries-full lo hi es s h = ground (arith, h)

  entries-read :
      (lo hi : ℕ) (es : List Entry) (s : Raft E)
      → lo < hi
      → s.offset_index ≤ lo
      → collect_entries C
          (raft_log_key s.range_id (hi - 1))
          (E.forward s.db (raft_log_key s.range_id lo))
        ≡ some es
      → entries E C lo hi s ≡ check_entries E lo hi es s
  unfolding entries
  entries-read lo hi es s lt off h = ground (arith, h)

  -- Entries returns the entries from `lo` to below `hi`, when the bounds are in order, below
  -- 10 ^ 16, not below the offset of the log, an entry is stored at each index between them, and
  -- no other keys stand among those of the log.
  pub entries-stored :
      (lo hi : ℕ) (g : ℕ → Entry) (s : Raft E)
      → OnlyEntries E s.db s.range_id
      → s.offset_index ≤ lo
      → lo < hi
      → hi ≤ 10 ^ 16
      → ((i : ℕ) → lo ≤ i → i < hi → stored E C s.db s.range_id i ≡ some (g i))
      → entries E C lo hi s ≡ (ok (range (hi - lo) lo g), s)
  entries-stored lo hi g s only off lt small all =
      let read =
        collect-range E C s.range_id s.db (hi - lo - 1) lo (hi - 1) (raft_log_key s.range_id lo) g
          only (omega arith) (omega arith) (Begins-here E C s.range_id s.db lo)
          (λ i h h'. all i h (omega arith)) in
      let count : suc (hi - lo - 1) ≡ hi - lo = omega arith in
      let es = range (suc (hi - lo - 1)) lo g in
      entries-read lo hi es s lt off read
      ∙ check_entries-full lo hi es s (length-range (suc (hi - lo - 1)) lo g ∙ count)
      ∙ ap (λ (n : ℕ). (ok (range n lo g), s)) count

  -- Term returns the term of the entry that is stored at an index not below the offset of the log
  -- and below 10 ^ 16, when no other keys stand among those of the log.
  pub term-stored :
      (i : ℕ) (e : Entry) (s : Raft E)
      → OnlyEntries E s.db s.range_id
      → s.offset_index ≤ i
      → i < 10 ^ 16
      → stored E C s.db s.range_id i ≡ some e
      → term E C i s ≡ (ok e.term, s)
  unfolding term term_of
  term-stored i e s only off small here =
      let same : (j : ℕ) → i ≤ j → j < i + 1 → i ≡ j = λ j h h'. omega arith in
      let read =
        entries-stored i (i + 1) (λ _. e) s only off (omega arith) (omega arith)
          (λ j h h'. subst (λ n. stored E C s.db s.range_id n ≡ some e) (same j h h') here) in
      let one : i + 1 - i ≡ 1 = omega arith in
      let wrap : (i + 1) % 2 ^ 64 ≡ i + 1 = omega arith in
      >>=-ok (entries E C i ((i + 1) % 2 ^ 64)) (term_of E C i) (range (i + 1 - i) i (λ _. e)) s s
        (rw wrap read)
      ∙ rw one refl
