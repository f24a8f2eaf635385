-- ===== src/Common/ByteStrings.antt =====
-- Byte strings, Go's []byte, as lists of numbers below 256, with the order of bytes.Compare.
use Prim.Native.Nat.{ℕ, ◌<◌}
use mathlib.Core.Path.{◌≡◌, refl}
use mathlib.Core.Logic.{◌↔◌, ◌⊎◌, inl, inr}
use mathlib.Core.Bool.{Bool, true, false}
use mathlib.Core.List.{List, [], ◌∷◌, ◌++◌}
use native.Mathlib.Omega.{arith}
use ancestor.Common.Lists.{All}
use ancestor.Common.Tests.{lt_or_eq_or_gt, ltb, ◌==◌, if◌then◌else◌, Bool-cases}

abbrev pub Bytes : Type 0
Bytes = List ℕ

abbrev pub IsBytes : Bytes → Type 0
IsBytes b = All (λ x. x < 256) b

-- bytes.Compare(a, b) < 0
unfoldable pub bytes_less : Bytes → Bytes → Bool
bytes_less [] [] = false
bytes_less [] (y ∷ ys) = true
bytes_less (x ∷ xs) [] = false
bytes_less (x ∷ xs) (y ∷ ys) = if x == y then bytes_less xs ys else ltb x y

-- bytes.Equal(a, b), that is bytes.Compare(a, b) == 0
unfoldable pub bytes_equal : Bytes → Bytes → Bool
bytes_equal [] [] = true
bytes_equal [] (y ∷ ys) = false
bytes_equal (x ∷ xs) [] = false
bytes_equal (x ∷ xs) (y ∷ ys) = if x == y then bytes_equal xs ys else false

pub bytes_equal_refl : (a : Bytes) → bytes_equal a a ≡ true
unfolding bytes_equal
bytes_equal_refl [] = refl
bytes_equal_refl (x ∷ a) = ground (arith, bytes_equal_refl a)

pub bytes_equal→eq : (a b : Bytes) → bytes_equal a b ≡ true → a ≡ b
unfolding bytes_equal
bytes_equal→eq [] [] h = refl
bytes_equal→eq [] (y ∷ b) h = cc
bytes_equal→eq (x ∷ a) [] h = cc
bytes_equal→eq (x ∷ a) (y ∷ b) h = ground (arith, bytes_equal→eq a b)

-- What the tactics are given at each pair that is compared.
pub bytes_equal_iff : (a b : Bytes) → (bytes_equal a b ≡ true) ↔ (a ≡ b)
bytes_equal_iff a b = (bytes_equal→eq a b, λ e. rw (← e) (bytes_equal_refl a))

pub bytes_less_irrefl : (a : Bytes) → bytes_less a a ≡ false
unfolding bytes_less
bytes_less_irrefl [] = refl
bytes_less_irrefl (x ∷ a) = ground (arith, bytes_less_irrefl a)

pub bytes_less_trans :
    (a b c : Bytes) → bytes_less a b ≡ true → bytes_less b c ≡ true → bytes_less a c ≡ true
unfolding bytes_less
bytes_less_trans [] [] c p q = cc
bytes_less_trans [] (y ∷ b) [] p q = cc
bytes_less_trans [] (y ∷ b) (z ∷ c) p q = refl
bytes_less_trans (x ∷ a) [] c p q = cc
bytes_less_trans (x ∷ a) (y ∷ b) [] p q = cc
bytes_less_trans (x ∷ a) (y ∷ b) (z ∷ c) p q = ground (arith, bytes_less_trans a b c)

-- Two strings that are not equal are ordered.
pub bytes_less_total : (a b : Bytes) → (bytes_less a b ≡ true) ⊎ ((a ≡ b) ⊎ (bytes_less b a ≡ true))
unfolding bytes_less
bytes_less_total [] [] = inr (inl refl)
bytes_less_total [] (y ∷ b) = inl refl
bytes_less_total (x ∷ a) [] = inr (inr refl)
bytes_less_total (x ∷ a) (y ∷ b) = ground (arith, bytes_less_total a b)

-- A common prefix does not matter.
pub bytes_less_prefix : (p a b : Bytes) → bytes_less (p ++ a) (p ++ b) ≡ bytes_less a b
unfolding bytes_less
bytes_less_prefix [] a b = refl
bytes_less_prefix (x ∷ p) a b = ground (arith, bytes_less_prefix p a b)

pub bytes_less→not_equal : (a b : Bytes) → bytes_less a b ≡ true → bytes_equal a b ≡ false
unfolding bytes_less bytes_equal
bytes_less→not_equal [] [] h = cc
bytes_less→not_equal [] (y ∷ b) h = refl
bytes_less→not_equal (x ∷ a) [] h = refl
bytes_less→not_equal (x ∷ a) (y ∷ b) h = ground (arith, bytes_less→not_equal a b)

-- A string stands before its proper extensions.
pub bytes_less_append : (a b : Bytes) → bytes_less [] b ≡ true → bytes_less a (a ++ b) ≡ true
unfolding bytes_less
bytes_less_append [] b h = h
bytes_less_append (x ∷ a) b h = ground (arith, bytes_less_append a b h)

-- What lies between two extensions of a string extends it too.
pub bytes_between :
    (p a b j : Bytes)
    → bytes_less j (p ++ a) ≡ false
    → bytes_less (p ++ b) j ≡ false
    → (c : Bytes) × (j ≡ p ++ c)
unfolding bytes_less
bytes_between [] a b j lo hi = (j, refl)
bytes_between (x ∷ p) a b [] lo hi = cc
bytes_between (x ∷ p) a b (y ∷ j) lo hi = elim (lt_or_eq_or_gt x y) [
  | inl h ↦ absurd (ground arith)
  | inr (inl h) ↦
      let (c, e) = bytes_between p a b j (ground arith) (ground arith) in (c, ground arith)
  | inr (inr h) ↦ absurd (ground arith)
]

pub not_less_nil : (a : Bytes) → bytes_less a [] ≡ false
unfolding bytes_less
not_less_nil [] = refl
not_less_nil (x ∷ a) = refl

pub bytes_less→not_equal_flip : (a b : Bytes) → bytes_less a b ≡ true → bytes_equal b a ≡ false
bytes_less→not_equal_flip a b h = elim (Bool-cases (bytes_equal b a)) [
  | inl e ↦ absurd (cc (h, bytes_equal→eq b a e, bytes_less_irrefl a))
  | inr e ↦ e
]

pub bytes_less_asym : (a b : Bytes) → bytes_less a b ≡ true → bytes_less b a ≡ false
bytes_less_asym a b h = elim (Bool-cases (bytes_less b a)) [
  | inl e ↦ absurd (cc (bytes_less_trans a b a h e, bytes_less_irrefl a))
  | inr e ↦ e
]

pub bytes_less_not_less :
    (a b c : Bytes) → bytes_less a b ≡ true → bytes_less c b ≡ false → bytes_less a c ≡ true
bytes_less_not_less a b c h k = elim (bytes_less_total a c) [
  | inl e ↦ e
  | inr (inl e) ↦ absurd (cc (h, k, e))
  | inr (inr e) ↦ absurd (cc (k, bytes_less_trans c a b e h))
]
