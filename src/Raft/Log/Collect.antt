-- ===== src/Raft/Log/Collect.antt =====
-- The loop of Entries over the entries of a log.
use ancestor.Raft.Keys.Next.{less-bytes_next, bytes_next_ne_nil, not_between, log_key_ne_nil}
use ancestor.Common.{
  Bytes, ℕ, zero, suc, List, [], ◌∷◌, some, ◌≡◌, arith, ◌<◌, ◌+◌, ◌≤◌, bytes_less, ◌≢◌,
  bytes_less_irrefl, ◌^◌, refl, false, ◌∙◌, ap, true, Bool-cases, inl, inr, bytes_less_asym,
  List-cases, bytes_less_total,
}
use ancestor.Engine.{Engine, done}
use ancestor.Meta.Key.{bytes_next}
use ancestor.Raft.State.{RaftCodec, Entry}
use ancestor.Raft.Keys.{raft_log_key}
use ancestor.Raft.Keys.Order.{log_key_order}
use ancestor.Raft.Log.{collect_entries}
use ancestor.Raft.Log.Stored.{stored, stored-some, OnlyEntries}

-- `n` values of `g` from `lo` on.
abbrev pub range : ℕ → ℕ → (ℕ → Entry) → List Entry
range zero lo g = []
range (suc n) lo g = g lo ∷ range n (suc lo) g

module _ (C : RaftCodec) where
  collect-nil : (end : Bytes) → collect_entries C end [] ≡ some []
  unfolding collect_entries
  collect-nil end = refl

  collect-stop :
      (end k v : Bytes) (rest : List (Bytes × Bytes))
      → bytes_less end k ≡ true
      → collect_entries C end ((k, v) ∷ rest) ≡ some []
  unfolding collect_entries
  collect-stop end k v rest h = ground (arith, h)

  collect-step :
      (end k v : Bytes) (rest : List (Bytes × Bytes)) (e : Entry) (es : List Entry)
      → bytes_less end k ≡ false
      → C.unmarshal_entry v ≡ some e
      → collect_entries C end rest ≡ some es
      → collect_entries C end ((k, v) ∷ rest) ≡ some (e ∷ es)
  unfolding collect_entries
  collect-step end k v rest e es h d r = rw (collect_entries, h, d, r) refl

module _ (E : Engine) (C : RaftCodec) (id : ℕ) (db : E.Db) where
  -- What the iterator finds from `k` on begins with the entry `lo`.
  pub record Begins (k : Bytes) (lo : ℕ) : Type 0 where
    some_key : k ≢ []
    below : bytes_less (raft_log_key id lo) k ≡ false
    no_other :
        (j v : Bytes)
        → E.get db j ≡ done (some v)
        → bytes_less j k ≡ false
        → bytes_less j (raft_log_key id lo) ≡ false

  pub Begins-here : (lo : ℕ) → Begins (raft_log_key id lo) lo
  Begins-here lo = record {
    some_key = log_key_ne_nil id lo;
    below = bytes_less_irrefl (raft_log_key id lo);
    no_other = λ j v there h. h;
  }

  other :
      OnlyEntries E db id
      → (lo : ℕ) → suc lo < 10 ^ 16
      → (j v : Bytes) → E.get db j ≡ done (some v)
      → bytes_less j (bytes_next (raft_log_key id lo)) ≡ false
      → bytes_less j (raft_log_key id (suc lo)) ≡ false
  other only lo small j v there h = elim (Bool-cases (bytes_less j (raft_log_key id (suc lo)))) [
    | inr e ↦ e
    | inl e ↦
        let past : bytes_less (raft_log_key id lo) j ≡ true =
          ground (arith, less-bytes_next j (raft_log_key id lo)) in
        let zero_le = log_key_order id lo 0 (omega arith) (omega arith) ∙ ground arith in
        let (i, hi, same) =
          only j v (suc lo) small there
            (not_between (raft_log_key id lo) j (raft_log_key id 0) zero_le past)
            (bytes_less_asym j (raft_log_key id (suc lo)) e) in
        absurd (
          ground (
            arith,
            log_key_order id lo i (omega arith) hi,
            log_key_order id i (suc lo) hi small,
            ap (bytes_less (raft_log_key id lo)) same,
            ap (λ q. bytes_less q (raft_log_key id (suc lo))) same,
          ))
  ]

  Begins-next :
      OnlyEntries E db id
      → (lo : ℕ) → suc lo < 10 ^ 16
      → Begins (bytes_next (raft_log_key id lo)) (suc lo)
  Begins-next only lo small = record {
    some_key = bytes_next_ne_nil (raft_log_key id lo);
    below =
        less-bytes_next (raft_log_key id (suc lo)) (raft_log_key id lo)
        ∙ rw (log_key_order id lo (suc lo) (omega arith) small) (ground arith);
    no_other = λ j v there h. other only lo small j v there h;
  }

  -- The first step of the loop, from where the entry `lo` begins.
  first_entry :
      (k v : Bytes) (lo : ℕ)
      → Begins k lo
      → E.get db (raft_log_key id lo) ≡ done (some v)
      → E.forward db k ≡ (raft_log_key id lo, v) ∷ E.forward db (bytes_next (raft_log_key id lo))
  first_entry k v lo b there = elim (List-cases (E.forward db k)) [
    | inl e ↦ absurd (cc (there, E.forward-nil db k (raft_log_key id lo) e b.below b.some_key))
    | inr ((j, w), rest, e) ↦
        let (found, from, more) = E.forward-cons db k j w rest e in
        elim (bytes_less_total j (raft_log_key id lo)) [
          | inl h ↦ absurd (cc (h, b.no_other j w found from))
          | inr (inl h) ↦ e ∙ ground (arith, h, found, there, more)
          | inr (inr h) ↦ absurd (
              cc (there, E.forward-first db k (raft_log_key id lo) j w rest e b.below h b.some_key))
        ]
  ]

  -- Behind the entry `lo` the loop ends at its key.
  collect-past :
      (lo : ℕ)
      → collect_entries C (raft_log_key id lo) (E.forward db (bytes_next (raft_log_key id lo)))
        ≡ some []
  collect-past lo = elim (List-cases (E.forward db (bytes_next (raft_log_key id lo)))) [
    | inl e ↦ rw e (collect-nil C (raft_log_key id lo))
    | inr ((j, w), rest, e) ↦
        let (found, from, more) = E.forward-cons db (bytes_next (raft_log_key id lo)) j w rest e in
        let past : bytes_less (raft_log_key id lo) j ≡ true =
          ground (arith, less-bytes_next j (raft_log_key id lo)) in
        rw e (collect-stop C (raft_log_key id lo) j w rest past)
  ]

  -- One round of the loop, when the rest of it is known.
  collect-more :
      (lo hi : ℕ) (k : Bytes) (g : ℕ → Entry) (es : List Entry)
      → lo ≤ hi
      → hi < 10 ^ 16
      → Begins k lo
      → stored E C db id lo ≡ some (g lo)
      → collect_entries C (raft_log_key id hi) (E.forward db (bytes_next (raft_log_key id lo)))
        ≡ some es
      → collect_entries C (raft_log_key id hi) (E.forward db k) ≡ some (g lo ∷ es)
  collect-more lo hi k g es le small b all r =
      let (v, there, decoded) = stored-some E C db id lo (g lo) all in
      let not_past : bytes_less (raft_log_key id hi) (raft_log_key id lo) ≡ false =
        log_key_order id hi lo small (omega arith) ∙ ground arith in
      rw (first_entry k v lo b there) (
        collect-step C (raft_log_key id hi) (raft_log_key id lo) v
          (E.forward db (bytes_next (raft_log_key id lo))) (g lo) es not_past decoded r)

  pub collect-range :
      (n lo hi : ℕ) (k : Bytes) (g : ℕ → Entry)
      → OnlyEntries E db id
      → hi ≡ lo + n
      → hi < 10 ^ 16
      → Begins k lo
      → ((i : ℕ) → lo ≤ i → i ≤ hi → stored E C db id i ≡ some (g i))
      → collect_entries C (raft_log_key id hi) (E.forward db k) ≡ some (range (suc n) lo g)
  collect-range zero lo hi k g only e small b all =
      let same : hi ≡ lo = omega arith in
      collect-more lo hi k g [] (omega arith) small b (all lo (omega arith) (omega arith))
        (rw same (collect-past lo))
  collect-range (suc n) lo hi k g only e small b all =
      let rest =
        collect-range n (suc lo) hi (bytes_next (raft_log_key id lo)) g only (omega arith) small
          (Begins-next only lo (omega arith)) (λ i h h'. all i (omega arith) h') in
      collect-more lo hi k g (range (suc n) (suc lo) g) (omega arith) small b
        (all lo (omega arith) (omega arith)) rest
