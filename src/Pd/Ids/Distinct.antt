-- ===== src/Pd/Ids/Distinct.antt =====
-- The ids of newID descend from the latest to the first.
use ancestor.Common.{
  Bytes, ℕ, true, Option, none, some, List, [], ◌∷◌, ◌≡◌, All, Bool-cases, ap, subst, ◌^◌, arith,
  inl, bytes_equal_iff, sym, refl, ◌-◌, inr, Option-cases, suc, ◌<◌, ◌+◌, zero,
}
use ancestor.Common.Int.{
  ℤ, pos, ltb_ℤ, int64, uint64, ◌+ℤ◌, add_int64, IsInt64, negsuc, int64-IsInt64, int64-uint64,
  +ℤ_parts,
}
use ancestor.Pd.Ids.{
  Decimals, Put, System, is_current, move, candidate, take_put, Step, begins, reads, puts_id,
  is_refused, fails, Reachable, starts, goes_on, given_ids,
}

-- Not the greatest int64, after which the next one is negative.
abbrev pub IsBounded : Put → Type 0
IsBounded x = ltb_ℤ x.id (pos (2 ^ 63 - 1)) ≡ true

abbrev Above : ℤ → List ℤ → Type 0
Above i l = All (λ j. ltb_ℤ j i ≡ true) l

-- Each is greater than all after it.
abbrev pub Descending : List ℤ → Type 0
Descending [] = Unit
Descending (i ∷ l) = Above i l × Descending l

abbrev ids : List Put → List ℤ
ids [] = []
ids (x ∷ l) = x.id ∷ ids l

Above-next : (i j : ℤ) (l : List ℤ) → ltb_ℤ i j ≡ true → Above i l → Above j l
Above-next i j [] h a = tt
Above-next i j (k ∷ l) h a = (ground (arith, h, a.0), Above-next i j l h a.1)

next-IsInt64 : (i : ℤ) → ltb_ℤ i (pos (2 ^ 63 - 1)) ≡ true → IsInt64 i → IsInt64 (i +ℤ pos 1)
unfolding ◌+ℤ◌
next-IsInt64 (pos n) f h =
    let sum : pos n +ℤ pos 1 ≡ pos (n + 1) = ground arith in
    let less : n + 1 < 2 ^ 63 = ground (arith, f) in subst IsInt64 (sym sum) less
next-IsInt64 (negsuc zero) f h = omega arith
next-IsInt64 (negsuc (suc n)) f h =
    let sum : negsuc (suc n) +ℤ pos 1 ≡ negsuc n = ground arith in
    let less : n < 2 ^ 63 = omega (arith, h) in subst IsInt64 (sym sum) less

less-add_int64 :
    (i : ℤ) → IsInt64 i → ltb_ℤ i (pos (2 ^ 63 - 1)) ≡ true → ltb_ℤ i (add_int64 i (pos 1)) ≡ true
less-add_int64 i h f =
    subst (λ z. ltb_ℤ i z ≡ true) (sym (int64-uint64 (i +ℤ pos 1) (next-IsInt64 i f h)))
      (ground (arith, +ℤ_parts i (pos 1)))

Above-given_ids : (i : ℤ) (l : List Put) → Above i (ids l) → Above i (given_ids l)
unfolding given_ids
Above-given_ids i [] h = tt
Above-given_ids i (x ∷ l) h = elim (Bool-cases x.is_given) [
  | inl e ↦ rw e (h.0, Above-given_ids i l h.1)
  | inr e ↦ rw e (Above-given_ids i l h.1)
]

Descending-given_ids : (l : List Put) → Descending (ids l) → Descending (given_ids l)
unfolding given_ids
Descending-given_ids [] h = tt
Descending-given_ids (x ∷ l) h = elim (Bool-cases x.is_given) [
  | inl e ↦ rw e (Above-given_ids x.id l h.0, Descending-given_ids l h.1)
  | inr e ↦ rw e (Descending-given_ids l h.1)
]

module _ (D : Decimals) where
  -- The key holds the latest id that etcd has taken.
  abbrev IsLatest : Option Bytes → List Put → Type 0
  IsLatest v [] = v ≡ none
  IsLatest v (x ∷ l) = (v ≡ some (D.format_int x.id)) × ((n : ℕ) × (x.id ≡ int64 n))

  candidate-eq-int64 :
      (id i : ℤ) (v : Option Bytes) → candidate D id v ≡ some i → (n : ℕ) × (i ≡ int64 n)
  unfolding candidate
  candidate-eq-int64 id i none h = (uint64 (id +ℤ pos 1), ground (arith, h))
  candidate-eq-int64 id i (some b) h = elim (Option-cases (D.parse_int b)) [
    | inl e ↦ absurd (ground (arith, h, e))
    | inr (n, e) ↦ (uint64 (n +ℤ pos 1), ground (arith, h, e))
  ]

  is_current-eq : (v w : Option Bytes) → is_current v w ≡ true → v ≡ w
  unfolding is_current
  is_current-eq none none h = refl
  is_current-eq none (some b) h = absurd (cc h)
  is_current-eq (some a) none h = absurd (cc h)
  is_current-eq (some a) (some b) h = ap some ((bytes_equal_iff a b).0 h)

  next_id :
      (id i : ℤ) (v : Option Bytes) (j : ℤ)
      → candidate D id v ≡ some i
      → v ≡ some (D.format_int j)
      → D.parse_int (D.format_int j) ≡ some j
      → i ≡ add_int64 j (pos 1)
  unfolding candidate
  next_id id i none j h e f = absurd (cc e)
  next_id id i (some b) j h e f =
      let same : D.parse_int b ≡ some j = ground (arith, e, f) in ground (arith, same, h)

  -- The next id is greater than those before it.
  candidate-Above :
      (id i : ℤ) (v : Option Bytes) (l : List Put)
      → candidate D id v ≡ some i
      → IsLatest v l
      → All IsBounded l
      → Descending (ids l)
      → Above i (ids l)
  unfolding candidate
  candidate-Above id i v [] h e b d = tt
  candidate-Above id i v (x ∷ l) h (e, (n, f)) b d =
      let parsed : D.parse_int (D.format_int x.id) ≡ some x.id =
        subst (λ z. D.parse_int (D.format_int z) ≡ some z) (sym f) (D.parse-format n) in
      let next : i ≡ add_int64 x.id (pos 1) = next_id id i v x.id h e parsed in
      let less : ltb_ℤ x.id i ≡ true =
        subst (λ z. ltb_ℤ x.id z ≡ true) (sym next)
          (less-add_int64 x.id (subst IsInt64 (sym f) (int64-IsInt64 n)) b.0) in
      (less, Above-next x.id i (ids l) less d.0)

  -- What holds in each state that is reached.
  record Holds (s : System) : Type 0 where
    latest : IsLatest s.stored s.puts
    descending : All IsBounded s.puts → Descending (ids s.puts)

  Step-Holds : (s t : System) → Step D s t → Holds s → Holds t
  unfolding move take_put
  Step-Holds s t (begins p s' h) k = record { latest = k.latest; descending = k.descending }
  Step-Holds s t (reads p id s' h) k = record { latest = k.latest; descending = k.descending }
  Step-Holds s t (puts_id p id i kvs b s' h f g) k = record {
    latest = (refl, candidate-eq-int64 id i kvs f);
    descending = λ a.
        let d = k.descending a.1 in
        (
          candidate-Above id i kvs s.puts f
              (subst (λ v. IsLatest v s.puts) (sym (is_current-eq kvs s.stored g)) k.latest) a.1 d,
          d,
        );
  }
  Step-Holds s t (is_refused p id i kvs s' h f g) k = record {
    latest = k.latest;
    descending = k.descending;
  }
  Step-Holds s t (fails p s') k = record { latest = k.latest; descending = k.descending }

  Reachable-Holds : (s : System) → Reachable D s → Holds s
  Reachable-Holds s starts = record { latest = refl; descending = λ a. tt }
  Reachable-Holds t (goes_on s t' r x) = Step-Holds s t x (Reachable-Holds s r)

  -- Whatever way the requests of servers interleave and whatever answers are lost, each id that
  -- newID returns is greater than those it returned for puts that etcd took before, as long as none
  -- that etcd has taken is the greatest int64.
  pub given_ids-Descending :
      (s : System) → Reachable D s → All IsBounded s.puts → Descending (given_ids s.puts)
  given_ids-Descending s r b = Descending-given_ids s.puts ((Reachable-Holds s r).descending b)
