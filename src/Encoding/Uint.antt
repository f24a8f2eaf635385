-- ===== src/Encoding/Uint.antt =====
-- The integers of util/encoding/encoding.go: round trips, and the order of the encodings.
use ancestor.Common.{
  ℕ, ◌+◌, ◌-◌, ◌*◌, ◌/◌, ◌%◌, ◌^◌, ◌<◌, ◌≡◌, refl, Bool, true, [], ◌++◌, arith, Bytes, bytes_less,
  length, ltb, ◌==◌, if◌then◌else◌, false, lt_or_eq_or_gt, ap, ◌∙◌, inl, sym, inr,
}
use mathlib.Core.Path.{ap₂}
use ancestor.Encoding.{
  ok, encode_uint32, encode_uint32_decreasing, decode_uint32, decode_uint32_decreasing,
  encode_uint64, encode_uint64_decreasing, decode_uint64, decode_uint64_decreasing,
}

pub decode-encode_uint32 :
    (v : ℕ) (rest : Bytes) → v < 2 ^ 32 → decode_uint32 (encode_uint32 [] v ++ rest) ≡ ok (rest, v)
unfolding decode_uint32 encode_uint32
decode-encode_uint32 v rest h = ground arith

pub decode-encode_uint64 :
    (v : ℕ) (rest : Bytes) → v < 2 ^ 64 → decode_uint64 (encode_uint64 [] v ++ rest) ≡ ok (rest, v)
unfolding decode_uint64 encode_uint64
decode-encode_uint64 v rest h = ground arith

-- The order of a string by its first place, `r` being the order of the rest.
abbrev lex : ℕ → ℕ → Bool → Bool
lex a b r = if a == b then r else ltb a b

lex-eq : (a b : ℕ) (r : Bool) → a ≡ b → lex a b r ≡ r
lex-eq a b r h = ground arith

lex-lt : (a b : ℕ) (r : Bool) → a < b → lex a b r ≡ true
lex-lt a b r h = ground arith

lex-gt : (a b : ℕ) (r : Bool) → b < a → lex a b r ≡ false
lex-gt a b r h = ground arith

-- Two places are one place of a larger base.
lex_join :
    (p x y u v : ℕ) (r : Bool) → u < p → v < p → lex x y (lex u v r) ≡ lex (x * p + u) (y * p + v) r
lex_join p x y u v r hu hv = elim (lt_or_eq_or_gt x y) [
  | inl h ↦ lex-lt x y (lex u v r) h ∙ sym (lex-lt (x * p + u) (y * p + v) r (grind arith))
  | inr (inl h) ↦ elim (lt_or_eq_or_gt u v) [
    | inl k ↦
        lex-eq x y (lex u v r) h
        ∙ lex-lt u v r k
        ∙ sym (lex-lt (x * p + u) (y * p + v) r (rw h (omega arith)))
    | inr (inl k) ↦
        lex-eq x y (lex u v r) h
        ∙ lex-eq u v r k
        ∙ sym (lex-eq (x * p + u) (y * p + v) r (rw (h, k)))
    | inr (inr k) ↦
        lex-eq x y (lex u v r) h
        ∙ lex-gt u v r k
        ∙ sym (lex-gt (x * p + u) (y * p + v) r (rw h (omega arith)))
  ]
  | inr (inr h) ↦ lex-gt x y (lex u v r) h ∙ sym (lex-gt (x * p + u) (y * p + v) r (grind arith))
]

lex_cong : (a b a' b' : ℕ) (r : Bool) → a ≡ a' → b ≡ b' → lex a b r ≡ lex a' b' r
lex_cong a b a' b' r h k = rw (h, k)

pub less-encode_uint32 :
    (a b : ℕ) (s t : Bytes)
    → a < 2 ^ 32
    → b < 2 ^ 32
    → bytes_less (encode_uint32 [] a ++ s) (encode_uint32 [] b ++ t)
      ≡ (if a == b then bytes_less s t else ltb a b)
unfolding bytes_less encode_uint32
less-encode_uint32 a b s t ha hb =
    let r = bytes_less s t in
    ap (λ q. lex (a / 2 ^ 24 % 256) (b / 2 ^ 24 % 256) q)
      (lex_join 256 (a / 2 ^ 16 % 256) (b / 2 ^ 16 % 256) (a / 2 ^ 8 % 256) (b / 2 ^ 8 % 256)
          (lex (a % 256) (b % 256) r) (omega arith) (omega arith)
        ∙ lex_join 256 (a / 2 ^ 16 % 256 * 256 + a / 2 ^ 8 % 256)
            (b / 2 ^ 16 % 256 * 256 + b / 2 ^ 8 % 256) (a % 256) (b % 256) r (omega arith)
            (omega arith))
    ∙ lex_join (2 ^ 24) (a / 2 ^ 24 % 256) (b / 2 ^ 24 % 256)
        ((a / 2 ^ 16 % 256 * 256 + a / 2 ^ 8 % 256) * 256 + a % 256)
        ((b / 2 ^ 16 % 256 * 256 + b / 2 ^ 8 % 256) * 256 + b % 256) r (omega arith) (omega arith)
    ∙ lex_cong
        (a / 2 ^ 24 % 256 * 2 ^ 24 + ((a / 2 ^ 16 % 256 * 256 + a / 2 ^ 8 % 256) * 256 + a % 256))
        (b / 2 ^ 24 % 256 * 2 ^ 24 + ((b / 2 ^ 16 % 256 * 256 + b / 2 ^ 8 % 256) * 256 + b % 256)) a
        b r (omega arith) (omega arith)

encode_uint64_halves :
    (v : ℕ) (s : Bytes)
    → encode_uint64 [] v ++ s
      ≡ encode_uint32 [] (v / 2 ^ 32 % 2 ^ 32) ++ (encode_uint32 [] (v % 2 ^ 32) ++ s)
unfolding encode_uint64 encode_uint32
encode_uint64_halves v s = ground arith

pub less-encode_uint64 :
    (a b : ℕ) (s t : Bytes)
    → a < 2 ^ 64
    → b < 2 ^ 64
    → bytes_less (encode_uint64 [] a ++ s) (encode_uint64 [] b ++ t)
      ≡ (if a == b then bytes_less s t else ltb a b)
less-encode_uint64 a b s t ha hb =
    ap₂ bytes_less (encode_uint64_halves a s) (encode_uint64_halves b t)
    ∙ less-encode_uint32 (a / 2 ^ 32 % 2 ^ 32) (b / 2 ^ 32 % 2 ^ 32)
        (encode_uint32 [] (a % 2 ^ 32) ++ s) (encode_uint32 [] (b % 2 ^ 32) ++ t) (omega arith)
        (omega arith)
    ∙ ap (lex (a / 2 ^ 32 % 2 ^ 32) (b / 2 ^ 32 % 2 ^ 32))
        (less-encode_uint32 (a % 2 ^ 32) (b % 2 ^ 32) s t (omega arith) (omega arith))
    ∙ lex_join (2 ^ 32) (a / 2 ^ 32 % 2 ^ 32) (b / 2 ^ 32 % 2 ^ 32) (a % 2 ^ 32) (b % 2 ^ 32)
        (bytes_less s t) (omega arith) (omega arith)
    ∙ lex_cong (a / 2 ^ 32 % 2 ^ 32 * 2 ^ 32 + a % 2 ^ 32)
        (b / 2 ^ 32 % 2 ^ 32 * 2 ^ 32 + b % 2 ^ 32) a b (bytes_less s t) (omega arith) (omega arith)

-- From largest to smallest: of numbers below 2^64, the encoding of `a` with what follows sorts before
-- that of `b` exactly when `b < a`, and what follows decides where they are equal.
pub less-encode_uint64_decreasing :
    (a b : ℕ) (s t : Bytes)
    → a < 2 ^ 64
    → b < 2 ^ 64
    → bytes_less (encode_uint64_decreasing [] a ++ s) (encode_uint64_decreasing [] b ++ t)
      ≡ (if a == b then bytes_less s t else ltb b a)
unfolding encode_uint64_decreasing
less-encode_uint64_decreasing a b s t ha hb =
    ground (arith, less-encode_uint64 (2 ^ 64 - 1 - a) (2 ^ 64 - 1 - b) s t)

pub less-encode_uint32_decreasing :
    (a b : ℕ) (s t : Bytes)
    → a < 2 ^ 32
    → b < 2 ^ 32
    → bytes_less (encode_uint32_decreasing [] a ++ s) (encode_uint32_decreasing [] b ++ t)
      ≡ (if a == b then bytes_less s t else ltb b a)
unfolding encode_uint32_decreasing
less-encode_uint32_decreasing a b s t ha hb =
    ground (arith, less-encode_uint32 (2 ^ 32 - 1 - a) (2 ^ 32 - 1 - b) s t)

pub decode-encode_uint32_decreasing :
    (v : ℕ) (rest : Bytes)
    → v < 2 ^ 32
    → decode_uint32_decreasing (encode_uint32_decreasing [] v ++ rest) ≡ ok (rest, v)
unfolding decode_uint32_decreasing encode_uint32_decreasing
decode-encode_uint32_decreasing v rest h =
    rw (decode-encode_uint32 (2 ^ 32 - 1 - v) rest (omega arith)) (ground arith)

-- Decoding the decreasing encoding of a number below 2^64 gives the number, and what follows.
pub decode-encode_uint64_decreasing :
    (v : ℕ) (rest : Bytes)
    → v < 2 ^ 64
    → decode_uint64_decreasing (encode_uint64_decreasing [] v ++ rest) ≡ ok (rest, v)
unfolding decode_uint64_decreasing encode_uint64_decreasing
decode-encode_uint64_decreasing v rest h =
    rw (decode-encode_uint64 (2 ^ 64 - 1 - v) rest (omega arith)) (ground arith)

-- The length of an encoding, and that the buffer in front is kept.
pub encode_uint32-eq-append : (b : Bytes) (v : ℕ) → encode_uint32 b v ≡ b ++ encode_uint32 [] v
unfolding encode_uint32
encode_uint32-eq-append b v = refl

pub encode_uint64-eq-append : (b : Bytes) (v : ℕ) → encode_uint64 b v ≡ b ++ encode_uint64 [] v
unfolding encode_uint64
encode_uint64-eq-append b v = refl

pub length-encode_uint32 : (v : ℕ) → length (encode_uint32 [] v) ≡ 4
unfolding encode_uint32
length-encode_uint32 v = refl

pub length-encode_uint64 : (v : ℕ) → length (encode_uint64 [] v) ≡ 8
unfolding encode_uint64
length-encode_uint64 v = refl
