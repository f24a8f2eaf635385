-- ===== src/Raft/Snapshot/Visit.antt =====
-- What data collects from the iterator.
use ancestor.Common.{
  ◌⊎◌, Bytes, List, [], ◌∷◌, Option, none, some, ◌≡◌, ◌≢◌, bytes_less, bytes_equal, true, false,
  if◌then◌else◌, arith, refl, ◌∙◌, sym, inl, inr, Bool-cases, All, bytes_equal_iff,
  bytes_less_trans, bytes_less→not_equal, bytes_less→not_equal_flip, bytes_equal_refl,
  bytes_less_total, bytes_less_not_less, bytes_less_asym, bytes_less_irrefl,
}
use ancestor.Engine.{Engine, Outcome, done}
use ancestor.Meta.Key.{bytes_next}
use ancestor.Raft.Keys.Next.{less-bytes_next, bytes_next_ne_nil}
use ancestor.Raft.Snapshot.{visited}

-- What stands at a key when the pairs are written over `x`.
abbrev pub written : List (Bytes × Bytes) → Bytes → Outcome (Option Bytes) → Outcome (Option Bytes)
written [] j x = x
written ((k, v) ∷ rest) j x = written rest j (if bytes_equal k j then done (some v) else x)

-- None of the pairs has the key.
abbrev pub Without : Bytes → List (Bytes × Bytes) → Type 0
Without j l = All (λ kv. bytes_equal kv.0 j ≡ false) l

pub written-Without :
    (j : Bytes) (l : List (Bytes × Bytes)) (x : Outcome (Option Bytes))
    → Without j l
    → written l j x ≡ x
written-Without j [] x all = refl
written-Without j ((k, v) ∷ rest) x (ne, all) = rw ne (written-Without j rest x all)

-- The pairs set the key, or leave it.
pub written-cases :
    (j : Bytes) (l : List (Bytes × Bytes))
    → ((x y : Outcome (Option Bytes)) → written l j x ≡ written l j y)
      ⊎ ((x : Outcome (Option Bytes)) → written l j x ≡ x)
written-cases j [] = inr (λ x. refl)
written-cases j ((k, v) ∷ rest) = elim (written-cases j rest) [
  | inl sets ↦ inl (λ x y. sets _ _)
  | inr leaves ↦ elim (Bool-cases (bytes_equal k j)) [
    | inl e ↦ inl (λ x y. rw e refl)
    | inr e ↦ inr (λ x. rw e (leaves x))
  ]
]

pub visited-Without :
    (end j : Bytes) (l : List (Bytes × Bytes)) → Without j l → Without j (visited end l)
unfolding visited
visited-Without end j [] all = tt
visited-Without end j ((k, v) ∷ rest) (ne, all) = elim (Bool-cases (bytes_less k end)) [
  | inl e ↦ rw e (ne, visited-Without end j rest all)
  | inr e ↦ rw e tt
]

pub visited-past :
    (end j : Bytes) (l : List (Bytes × Bytes))
    → bytes_less j end ≡ false
    → Without j (visited end l)
unfolding visited
visited-past end j [] past = tt
visited-past end j ((k, v) ∷ rest) past = elim (Bool-cases (bytes_less k end)) [
  | inl e ↦ rw e (ground (arith, bytes_equal_iff k j, e, past), visited-past end j rest past)
  | inr e ↦ rw e tt
]

visited-inside :
    (end k v : Bytes) (rest : List (Bytes × Bytes))
    → bytes_less k end ≡ true
    → visited end ((k, v) ∷ rest) ≡ (k, v) ∷ visited end rest
unfolding visited
visited-inside end k v rest h = rw h refl

module _ (E : Engine) (db : E.Db) where
  -- The iterator visits no key below the one from which it runs.
  pub forward-Without :
      (j k : Bytes) (l : List (Bytes × Bytes))
      → E.forward db k ≡ l
      → bytes_less j k ≡ true
      → Without j l
  forward-Without j k [] from below = tt
  forward-Without j k ((i, v) ∷ rest) from below =
      let (found, ge, next) = E.forward-cons db k i v rest from in
      let less : bytes_less j i ≡ true = bytes_less_not_less j k i below ge in
      (
        bytes_less→not_equal_flip j i less,
        forward-Without j (bytes_next i) rest (sym next)
            (less-bytes_next j i ∙ rw (bytes_less_asym j i less) refl),
      )

  -- What data collects holds every key of the range.
  pub visited-get :
      (end j k : Bytes) (l : List (Bytes × Bytes))
      → E.forward db k ≡ l
      → k ≢ []
      → bytes_less j k ≡ false
      → bytes_less j end ≡ true
      → written (visited end l) j (done none) ≡ E.get db j
  unfolding visited
  visited-get end j k [] from ne ge lt = sym (E.forward-nil db k j from ge ne)
  visited-get end j k ((i, v) ∷ rest) from ne ge lt =
      let (found, ge_i, next) = E.forward-cons db k i v rest from in
      elim (bytes_less_total j i) [
        | inl less ↦
            let gone = E.forward-first db k j i v rest from ge less ne in
            let later : Without j rest =
              forward-Without j (bytes_next i) rest (sym next)
                (less-bytes_next j i ∙ rw (bytes_less_asym j i less) refl) in
            written-Without j (visited end ((i, v) ∷ rest)) (done none)
              (visited-Without end j ((i, v) ∷ rest) (bytes_less→not_equal_flip j i less, later))
            ∙ sym gone
        | inr (inl same) ↦
            let inside : bytes_less i end ≡ true = rw (← same) lt in
            let equal : bytes_equal i j ≡ true = rw same (bytes_equal_refl i) in
            let later : Without j rest =
              forward-Without j (bytes_next i) rest (sym next)
                (less-bytes_next j i ∙ rw (same, bytes_less_irrefl i) refl) in
            rw (visited-inside end i v rest inside) (
              rw (written, equal)
                (written-Without j (visited end rest) (done (some v))
                    (visited-Without end j rest later)
                  ∙ sym (rw same found)))
        | inr (inr more) ↦ rw (visited-inside end i v rest (bytes_less_trans i j end more lt)) (
            rw (written, bytes_less→not_equal i j more)
              (visited-get end j (bytes_next i) rest (sym next) (bytes_next_ne_nil i)
                (less-bytes_next j i ∙ rw more refl) lt))
      ]
