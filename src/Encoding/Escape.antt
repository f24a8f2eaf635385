-- ===== src/Encoding/Escape.antt =====
-- The escaped byte strings of util/encoding/encoding.go: EncodeBytes against a plain recursion,
-- its round trip with DecodeBytes, and the order of the encodings.
use ancestor.Common.{
  ◌≡◌, if◌then◌else◌, none, some, ◌<◌, ◌++◌, ◌==◌, arith, [], suc, ◌+◌, Option-cases, append_assoc,
  refl, inl, inr, zero, bytes_less, bytes_equal, ◌≤◌, Bool-cases, length-append, ◌∙◌, ap,
}
use ancestor.Encoding.{
  ok, split_byte, encode_bytes_loop, encode_bytes, decode_bytes_loop, decode_bytes,
  ascending_escapes, Bytes, ℕ, ◌∷◌, length,
}

-- Every zero byte as \x00\xff.
abbrev pub escape_all : Bytes → Bytes
escape_all [] = []
escape_all (x ∷ xs) = if x == 0 then 0x00 ∷ 0xff ∷ escape_all xs else x ∷ escape_all xs

-- What a search for a zero byte finds: the parts of the string, the first with no zero byte.
split_byte-none : (b : Bytes) → split_byte b 0 ≡ none → escape_all b ≡ b
unfolding split_byte
split_byte-none [] h = refl
split_byte-none (x ∷ b) h = ground (arith, split_byte-none b)

split_byte-some :
    (b pre post : Bytes)
    → split_byte b 0 ≡ some (pre, post)
    → (split_byte pre 0 ≡ none)
      × (escape_all b ≡ pre ++ 0x00 ∷ 0xff ∷ escape_all post)
      × (length post < length b)
      × (b ≡ pre ++ 0x00 ∷ post)
unfolding split_byte
split_byte-some [] pre post h = cc
split_byte-some (x ∷ b) [] post h = ground arith
split_byte-some (x ∷ b) (y ∷ pre) post h = ground (arith, split_byte-some b pre post)

split_byte-append :
    (pre w : Bytes) → split_byte pre 0 ≡ none → split_byte (pre ++ 0x00 ∷ w) 0 ≡ some (pre, w)
unfolding split_byte
split_byte-append [] w h = refl
split_byte-append (x ∷ pre) w h = ground (arith, split_byte-append pre w)

encode_bytes_loop-eq :
    (fuel : ℕ) (b src : Bytes)
    → length src < fuel
    → encode_bytes_loop fuel b src ≡ b ++ escape_all src
unfolding encode_bytes_loop
encode_bytes_loop-eq zero b src h = absurd (omega arith)
encode_bytes_loop-eq (suc fuel) b src h = elim (Option-cases (split_byte src 0)) [
  | inl e ↦ rw (e, encode_bytes_loop) (rw (split_byte-none src e))
  | inr ((pre, post), e) ↦
      let (clear, same, shorter, parts) = split_byte-some src pre post e in
      rw (e, encode_bytes_loop)
        (rw (encode_bytes_loop-eq fuel ((b ++ pre) ++ 0x00 ∷ 0xff ∷ []) post (omega arith), same)
          (simp append_assoc))
]

-- The buffer, the escaped data and the terminator.
pub encode_bytes-eq :
    (b src : Bytes) → encode_bytes b src ≡ b ++ (escape_all src ++ 0x00 ∷ 0x01 ∷ [])
unfolding encode_bytes
encode_bytes-eq b src =
    rw (encode_bytes_loop-eq (length src + 1) b src (omega arith)) (simp append_assoc)

escape_all-append :
    (src pre post w : Bytes)
    → escape_all src ≡ pre ++ 0x00 ∷ 0xff ∷ escape_all post
    → escape_all src ++ w ≡ pre ++ 0x00 ∷ 0xff ∷ (escape_all post ++ w)
escape_all-append src pre post w h = rw h (append_assoc pre (0x00 ∷ 0xff ∷ escape_all post) w)

decode_bytes_loop-escape_all :
    (fuel : ℕ) (src rest r : Bytes)
    → length src < fuel
    → decode_bytes_loop fuel (escape_all src ++ 0x00 ∷ 0x01 ∷ rest) r ascending_escapes
      ≡ ok (rest, r ++ src)
unfolding decode_bytes_loop
decode_bytes_loop-escape_all zero src rest r h = absurd (omega arith)
decode_bytes_loop-escape_all (suc fuel) src rest r h = elim (Option-cases (split_byte src 0)) [
  | inl e ↦
      rw (split_byte-none src e)
        (rw (split_byte-append src (0x01 ∷ rest) e, decode_bytes_loop) refl)
  | inr ((pre, post), e) ↦
      let (clear, same, shorter, parts) = split_byte-some src pre post e in
      rw (escape_all-append src pre post (0x00 ∷ 0x01 ∷ rest) same) (
        rw
          (
            split_byte-append pre (0xff ∷ (escape_all post ++ 0x00 ∷ 0x01 ∷ rest)) clear,
            decode_bytes_loop,
          )
          (rw (decode_bytes_loop-escape_all fuel post rest ((r ++ pre) ++ 0x00 ∷ []) (omega arith))
            (rw parts (simp append_assoc))))
]

length-escape_all : (src w : Bytes) → length src ≤ length (escape_all src ++ w)
length-escape_all [] w = omega arith
length-escape_all (x ∷ src) w = ground (arith, length-escape_all src w)

decode_bytes-eq :
    (src w r : Bytes)
    → decode_bytes (escape_all src ++ 0x00 ∷ w) r
      ≡ decode_bytes_loop
          (length (escape_all src ++ 0x00 ∷ w))
          (escape_all src ++ 0x00 ∷ w)
          r
          ascending_escapes
unfolding decode_bytes
decode_bytes-eq [] w r = refl
decode_bytes-eq (x ∷ src) w r = elim (Bool-cases (x == 0)) [ inl e ↦ rw e | inr e ↦ rw e ]

length-lt : (src w : Bytes) → length src < length (escape_all src ++ 0x00 ∷ w)
length-lt src w = omega (
  arith,
  length-append {0} (escape_all src) (0x00 ∷ w),
  length-append {0} (escape_all src) [],
  length-escape_all src [],
)

pub encode_bytes-append :
    (src rest : Bytes) → encode_bytes [] src ++ rest ≡ escape_all src ++ 0x00 ∷ 0x01 ∷ rest
encode_bytes-append src rest =
    ap (λ (q : Bytes). q ++ rest) (encode_bytes-eq [] src)
    ∙ append_assoc (escape_all src) (0x00 ∷ 0x01 ∷ []) rest

-- Decoding what EncodeBytes wrote gives the data and leaves what follows, after what `r` held.
pub decode_bytes-encode_bytes :
    (src rest r : Bytes) → decode_bytes (encode_bytes [] src ++ rest) r ≡ ok (rest, r ++ src)
decode_bytes-encode_bytes src rest r = rw (encode_bytes-append src rest) (
    decode_bytes-eq src (0x01 ∷ rest) r
    ∙ decode_bytes_loop-escape_all _ src rest r (length-lt src (0x01 ∷ rest)))

-- The same for the escaped data with its terminator.
pub less-escape_all :
    (a b s t : Bytes)
    → bytes_less (escape_all a ++ 0x00 ∷ 0x01 ∷ s) (escape_all b ++ 0x00 ∷ 0x01 ∷ t)
      ≡ (if bytes_equal a b then bytes_less s t else bytes_less a b)
unfolding bytes_less bytes_equal
less-escape_all [] [] s t = refl
less-escape_all [] (y ∷ b) s t = ground arith
less-escape_all (x ∷ a) [] s t = ground arith
less-escape_all (x ∷ a) (y ∷ b) s t = ground (arith, less-escape_all a b s t)

-- The order of two encodings with what follows them is the order of the data, and the order of
-- what follows where the data are equal.
pub less-encode_bytes :
    (a b s t : Bytes)
    → bytes_less (encode_bytes [] a ++ s) (encode_bytes [] b ++ t)
      ≡ (if bytes_equal a b then bytes_less s t else bytes_less a b)
less-encode_bytes a b s t =
    rw (encode_bytes-append a s, encode_bytes-append b t) (less-escape_all a b s t)
