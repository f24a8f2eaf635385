-- ===== src/Engine/Memory.antt =====
-- An engine over a sorted list, which shows that the laws can hold.
use ancestor.Common.{
  ◌⊎◌, [], ◌∷◌, inl, inr, List, Bytes, bytes_less, Option, if◌then◌else◌, All, ◌≡◌, arith,
  bytes_less_total, none, bytes_equal, true, false, refl, some, bytes_equal_iff, bytes_less_trans,
  Bool-cases, not_less_nil, bytes_less→not_equal, ap, bytes_equal→eq, subst, sym, bytes_less_append,
  bytes_less_irrefl, ◌∙◌, ◌++◌,
}
use ancestor.Engine.{Engine, Outcome, done, failed}
use ancestor.Meta.Key.{bytes_next}

abbrev pub Table : Type 0
Table = List (Bytes × Bytes)

unfoldable pub lookup : Bytes → Table → Option Bytes
lookup k [] = none
lookup k ((j, v) ∷ l) = if bytes_equal j k then some v else lookup k l

unfoldable pub insert : Bytes → Bytes → Table → Table
insert k v [] = (k, v) ∷ []
insert k v ((j, w) ∷ l) =
    let more = insert k v l in
    if bytes_equal j k
    then (k, v) ∷ l
    else if bytes_less k j
    then (k, v) ∷ (j, w) ∷ l
    else (j, w) ∷ more

unfoldable pub erase : Bytes → Table → Table
erase k [] = []
erase k ((j, w) ∷ l) = let more = erase k l in if bytes_equal j k then more else (j, w) ∷ more

unfoldable pub from : Bytes → Table → Table
from k [] = []
from k ((j, v) ∷ l) = let more = from k l in if bytes_less j k then more else (j, v) ∷ l

abbrev pub Above : Bytes → Table → Type 0
Above k = All (λ (e : Bytes × Bytes). bytes_less k e.0 ≡ true)

abbrev pub IsSorted : Table → Type 0
IsSorted [] = Unit
IsSorted ((k, v) ∷ l) = Above k l × IsSorted l

lookup-insert :
    (k i v : Bytes) (l : Table)
    → lookup i (insert k v l) ≡ (if bytes_equal k i then some v else lookup i l)
unfolding lookup insert
lookup-insert k i v [] = refl
lookup-insert k i v ((j, w) ∷ l) =
    ground
      (arith, lookup-insert k i v l, bytes_equal_iff j k, bytes_equal_iff k i, bytes_equal_iff j i)

lookup-erase :
    (k i : Bytes) (l : Table)
    → lookup i (erase k l) ≡ (if bytes_equal k i then none else lookup i l)
unfolding lookup erase
lookup-erase k i [] = ground arith
lookup-erase k i ((j, w) ∷ l) =
    ground
      (arith, lookup-erase k i l, bytes_equal_iff j k, bytes_equal_iff k i, bytes_equal_iff j i)

pub Above-insert :
    (j k v : Bytes) (l : Table) → bytes_less j k ≡ true → Above j l → Above j (insert k v l)
unfolding insert
Above-insert j k v [] h a = (h, tt)
Above-insert j k v ((i, w) ∷ l) h a = ground (arith, Above-insert j k v l h a.1)

pub Above-erase : (j k : Bytes) (l : Table) → Above j l → Above j (erase k l)
unfolding erase
Above-erase j k [] a = tt
Above-erase j k ((i, w) ∷ l) a = ground (arith, Above-erase j k l a.1)

pub Above-trans : (j k : Bytes) (l : Table) → bytes_less j k ≡ true → Above k l → Above j l
Above-trans j k [] h a = tt
Above-trans j k ((i, w) ∷ l) h a = (bytes_less_trans j k i h a.0, Above-trans j k l h a.1)

pub less_of_not :
    (j k : Bytes) → bytes_equal j k ≡ false → bytes_less k j ≡ false → bytes_less j k ≡ true
less_of_not j k e h = elim (bytes_less_total j k) [
  | inl p ↦ p
  | inr (inl p) ↦ absurd (cc (e, (bytes_equal_iff j k).1 p))
  | inr (inr p) ↦ cc (p, h)
]

pub insert-IsSorted : (k v : Bytes) (l : Table) → IsSorted l → IsSorted (insert k v l)
unfolding insert
insert-IsSorted k v [] s = (tt, tt)
insert-IsSorted k v ((j, w) ∷ l) s = elim (Bool-cases (bytes_equal j k)) [
  | inl e ↦ rw e (subst (λ q. Above q l) (bytes_equal→eq j k e) s.0, s.1)
  | inr e ↦ elim (Bool-cases (bytes_less k j)) [
    | inl h ↦ rw (e, h) ((h, Above-trans k j l h s.0), s)
    | inr h ↦ rw (e, h) (Above-insert j k v l (less_of_not j k e h) s.0, insert-IsSorted k v l s.1)
  ]
]

pub erase-IsSorted : (k : Bytes) (l : Table) → IsSorted l → IsSorted (erase k l)
unfolding erase
erase-IsSorted k [] s = tt
erase-IsSorted k ((j, w) ∷ l) s = ground (arith, erase-IsSorted k l s.1, Above-erase j k l s.0)

lookup-below : (i j : Bytes) (l : Table) → bytes_less i j ≡ true → Above j l → lookup i l ≡ none
unfolding lookup
lookup-below i j [] h a = refl
lookup-below i j ((k, v) ∷ l) h a = ground (
  arith,
  lookup-below i j l h a.1,
  bytes_less_trans i j k h a.0,
  bytes_equal_iff k i,
  bytes_less→not_equal i k,
)

-- A key at or after `k` is not among those before it.
not_equal_before :
    (h k j : Bytes) → bytes_less h k ≡ true → bytes_less j k ≡ false → bytes_equal h j ≡ false
not_equal_before h k j p q = elim (Bool-cases (bytes_equal h j)) [
  | inl e ↦ cc (p, q, ap (λ x. bytes_less x k) (bytes_equal→eq h j e))
  | inr e ↦ e
]

pub from-nil :
    (k j : Bytes) (l : Table) → from k l ≡ [] → bytes_less j k ≡ false → lookup j l ≡ none
unfolding lookup from
from-nil k j [] e h = refl
from-nil k j ((i, v) ∷ l) e h = ground (arith, from-nil k j l, not_equal_before i k j)

less_next : (j h : Bytes) → bytes_less j h ≡ true → bytes_less h (bytes_next j) ≡ false
unfolding bytes_less bytes_next
less_next [] [] p = cc
less_next [] (y ∷ h) p = ground (arith, not_less_nil h)
less_next (x ∷ j) [] p = cc
less_next (x ∷ j) (y ∷ h) p = ground (arith, less_next j h)

before_next :
    (i k j : Bytes)
    → bytes_less i k ≡ true
    → bytes_less j k ≡ false
    → bytes_less i (bytes_next j) ≡ true
unfolding bytes_next
before_next i k j h lo =
    let below : bytes_less i j ≡ true = elim (bytes_less_total k j) [
      | inl p ↦ bytes_less_trans i k j h p
      | inr (inl p) ↦ ap (bytes_less i) (sym p) ∙ h
      | inr (inr p) ↦ cc (p, lo)
    ] in
    bytes_less_trans i j (j ++ 0 ∷ []) below
      (bytes_less_append j (0 ∷ []) (unfold bytes_less in refl))

from-Above : (j : Bytes) (l : Table) → Above j l → from (bytes_next j) l ≡ l
unfolding from
from-Above j [] a = refl
from-Above j ((i, v) ∷ l) a = rw (less_next j i a.0)

less_self_next : (i : Bytes) → bytes_less i (bytes_next i) ≡ true
unfolding bytes_next bytes_less
less_self_next i = bytes_less_append i (0 ∷ []) refl

not_equal_above : (h i : Bytes) → bytes_less i h ≡ true → bytes_equal h i ≡ false
not_equal_above h i p = elim (Bool-cases (bytes_equal h i)) [
  | inl e ↦ cc (p, ap (bytes_less i) (bytes_equal→eq h i e), bytes_less_irrefl i)
  | inr e ↦ e
]

pub from-cons :
    (k j v : Bytes) (l rest : Table)
    → IsSorted l
    → from k l ≡ (j, v) ∷ rest
    → (lookup j l ≡ some v)
      × (bytes_less j k ≡ false)
      × (rest ≡ from (bytes_next j) l)
      × Above j rest
unfolding lookup from
from-cons k j v [] rest s e = cc
from-cons k j v ((i, w) ∷ l) rest s e = elim (Bool-cases (bytes_less i k)) [
  | inl h ↦
      let (found, lo, more, above) = from-cons k j v l rest s.1 (rw h at e) in
      (rw (not_equal_before i k j h lo) found, lo, rw (before_next i k j h lo) more, above)
  | inr h ↦
      let hit : (i, w) ∷ l ≡ (j, v) ∷ rest = rw h at e in
      let same : i ≡ j = cc hit in
      let tails : l ≡ rest = cc hit in
      (
        rw ((bytes_equal_iff i j).1 same) (cc hit),
        ap (λ q. bytes_less q k) (sym same) ∙ h,
        rw (ap (λ q. bytes_less i (bytes_next q)) (sym same) ∙ less_self_next i)
            (sym tails ∙ sym (from-Above i l s.0) ∙ ap (λ q. from (bytes_next q) l) same),
        subst (λ q. Above q rest) same (subst (Above i) tails s.0),
      )
]

pub from-first :
    (k i j v : Bytes) (l rest : Table)
    → IsSorted l
    → from k l ≡ (j, v) ∷ rest
    → bytes_less i k ≡ false
    → bytes_less i j ≡ true
    → lookup i l ≡ none
unfolding lookup from
from-first k i j v [] rest s e lo hi = refl
from-first k i j v ((h, w) ∷ l) rest s e lo hi = elim (Bool-cases (bytes_less h k)) [
  | inl p ↦ rw (not_equal_before h k i p lo) (from-first k i j v l rest s.1 (rw p at e) lo hi)
  | inr p ↦
      let hit : (h, w) ∷ l ≡ (j, v) ∷ rest = rw p at e in
      let below : bytes_less i h ≡ true = ap (bytes_less i) (cc hit) ∙ hi in
      rw (not_equal_above h i below) (lookup-below i h l below s.0)
]

lookup-law :
    (k i v : Bytes) (l : Table)
    → done (lookup i (insert k v l))
      ≡ (if bytes_equal k i then done (some v) else done (lookup i l))
lookup-law k i v l = rw (lookup-insert k i v l) (ground arith)

erase-law :
    (k i : Bytes) (l : Table)
    → done (lookup i (erase k l)) ≡ (if bytes_equal k i then done none else done (lookup i l))
erase-law k i l = rw (lookup-erase k i l) (ground arith)

abbrev pub SortedTable : Type 0
SortedTable = (l : Table) × IsSorted l

unfoldable pub memory_put : SortedTable → Bytes → Bytes → Outcome SortedTable
memory_put (l, s) k v = done (insert k v l, insert-IsSorted k v l s)

unfoldable pub memory_clear : SortedTable → Bytes → Outcome SortedTable
memory_clear (l, s) k = done (erase k l, erase-IsSorted k l s)

stored_table : Outcome SortedTable → Table
stored_table (done (l, _)) = l
stored_table failed = []

pub memory_get-put :
    (db db' : SortedTable) (k j v : Bytes)
    → memory_put db k v ≡ done db'
    → done (lookup j db'.0) ≡ (if bytes_equal k j then done (some v) else done (lookup j db.0))
unfolding memory_put stored_table
memory_get-put (l, s) db' k j v e =
    sym (ap (λ o. done (lookup j (stored_table o))) e) ∙ lookup-law k j v l

pub memory_get-clear :
    (db db' : SortedTable) (k j : Bytes)
    → memory_clear db k ≡ done db'
    → done (lookup j db'.0) ≡ (if bytes_equal k j then done none else done (lookup j db.0))
unfolding memory_clear stored_table
memory_get-clear (l, s) db' k j e =
    sym (ap (λ o. done (lookup j (stored_table o))) e) ∙ erase-law k j l

pub memory_get-clear_or :
    (db db' : SortedTable) (k j : Bytes)
    → memory_clear db k ≡ done db'
    → (done (lookup j db'.0) ≡ done (lookup j db.0))
      ⊎ ((bytes_equal k j ≡ true) × (done (lookup j db'.0) ≡ done none))
memory_get-clear_or db db' k j e = elim (Bool-cases (bytes_equal k j)) [
  | inl f ↦ inr (f, ground (arith, f, memory_get-clear db db' k j e))
  | inr f ↦ inl (ground (arith, f, memory_get-clear db db' k j e))
]

unfoldable pub memory : Engine
unfolding memory_put memory_clear lookup insert erase from
memory = record {
  Db = SortedTable;
  get = λ db k. done (lookup k db.0);
  put = memory_put;
  clear = memory_clear;
  clear_in_batch = memory_clear;
  forward = λ db k. from k db.0;
  get-put = memory_get-put;
  get-clear = memory_get-clear_or;
  get-clear_in_batch = memory_get-clear;
  forward-nil = λ db k j e h ne. ap done (from-nil k j db.0 e h);
  forward-cons = λ db k j v rest e.
      let (found, lo, more, above) = from-cons k j v db.0 rest db.1 e in (ap done found, lo, more);
  forward-first = λ db k i j v rest e lo hi ne. ap done (from-first k i j v db.0 rest db.1 e lo hi);
}
