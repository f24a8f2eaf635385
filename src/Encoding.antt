-- ===== src/Encoding.antt =====
-- util/encoding/encoding.go: big-endian integers of four and eight bytes, their complements, which
-- sort from largest to smallest, and byte strings with escapes. The bits that `|` joins in the
-- decoders do not overlap, so it is written as a sum. The text of an error is left out.
pub mod Uint
pub mod Escape
use ancestor.Common.{
  ℕ, zero, suc, ◌+◌, ◌-◌, ◌*◌, ◌/◌, ◌%◌, ◌^◌, Option, none, some, [], ◌∷◌, ◌++◌, Bytes, length,
  ◌==◌, if◌then◌else◌,
}

-- The errors of the decoders.
pub data DecodeError : Type 0 where
  insufficient_bytes no_terminator malformed_escape unknown_escape : DecodeError

pub data Decoded (A : Type 0) : Type 0 where
  ok : A → Decoded A
  err : DecodeError → Decoded A

-- append(b, byte(v>>24), byte(v>>16), byte(v>>8), byte(v))
unfoldable pub encode_uint32 : Bytes → ℕ → Bytes
encode_uint32 b v =
    b ++ (v / 2 ^ 24 % 256) ∷ (v / 2 ^ 16 % 256) ∷ (v / 2 ^ 8 % 256) ∷ (v % 256) ∷ []

unfoldable pub encode_uint32_decreasing : Bytes → ℕ → Bytes
encode_uint32_decreasing b v = encode_uint32 b (2 ^ 32 - 1 - v)

unfoldable pub decode_uint32 : Bytes → Decoded (Bytes × ℕ)
decode_uint32 (b0 ∷ b1 ∷ b2 ∷ b3 ∷ rest) = ok (rest, b0 * 2 ^ 24 + b1 * 2 ^ 16 + b2 * 2 ^ 8 + b3)
decode_uint32 _ = err DecodeError.insufficient_bytes

-- `leftover, ^v, err`
abbrev pub complement : ℕ → Decoded (Bytes × ℕ) → Decoded (Bytes × ℕ)
complement w (ok (rest, v)) = ok (rest, 2 ^ w - 1 - v)
complement w (err e) = err e

unfoldable pub decode_uint32_decreasing : Bytes → Decoded (Bytes × ℕ)
unfolding decode_uint32
decode_uint32_decreasing b = complement 32 (decode_uint32 b)

unfoldable pub encode_uint64 : Bytes → ℕ → Bytes
encode_uint64 b v =
    b
    ++ (v / 2 ^ 56 % 256)
      ∷ (v / 2 ^ 48 % 256)
      ∷ (v / 2 ^ 40 % 256)
      ∷ (v / 2 ^ 32 % 256)
      ∷ (v / 2 ^ 24 % 256)
      ∷ (v / 2 ^ 16 % 256)
      ∷ (v / 2 ^ 8 % 256)
      ∷ (v % 256)
      ∷ []

unfoldable pub encode_uint64_decreasing : Bytes → ℕ → Bytes
encode_uint64_decreasing b v = encode_uint64 b (2 ^ 64 - 1 - v)

unfoldable pub decode_uint64 : Bytes → Decoded (Bytes × ℕ)
decode_uint64 (b0 ∷ b1 ∷ b2 ∷ b3 ∷ b4 ∷ b5 ∷ b6 ∷ b7 ∷ rest) = ok (
  rest,
  b0 * 2 ^ 56
      + b1 * 2 ^ 48
      + b2 * 2 ^ 40
      + b3 * 2 ^ 32
      + b4 * 2 ^ 24
      + b5 * 2 ^ 16
      + b6 * 2 ^ 8
      + b7,
)
decode_uint64 _ = err DecodeError.insufficient_bytes

unfoldable pub decode_uint64_decreasing : Bytes → Decoded (Bytes × ℕ)
unfolding decode_uint64
decode_uint64_decreasing b = complement 64 (decode_uint64 b)

-- type escapes struct
pub record Escapes : Type 0 where
  pub escape : ℕ
  pub escaped_term : ℕ
  pub escaped00 : ℕ
  pub escaped_ff : ℕ

abbrev pub ascending_escapes : Escapes
ascending_escapes = record {
  escape = 0x00;
  escaped_term = 0x01;
  escaped00 = 0xff;
  escaped_ff = 0x00;
}

-- bytes.IndexByte(data, c), with what stands before and after the byte that is found.
unfoldable pub split_byte : Bytes → ℕ → Option (Bytes × Bytes)
split_byte [] c = none
split_byte (x ∷ xs) c =
    if x == c
    then some ([], xs)
    else elim (split_byte xs c) [ none ↦ none | some (pre, post) ↦ some (x ∷ pre, post) ]

-- The loop of EncodeBytes. A round takes the data up to an escape, so one round more than the data
-- has bytes is enough.
unfoldable pub encode_bytes_loop : ℕ → Bytes → Bytes → Bytes
unfolding split_byte
encode_bytes_loop zero b src = b ++ src
encode_bytes_loop (suc fuel) b src = elim (split_byte src 0x00) [
  | none ↦ b ++ src
  | some (pre, post) ↦ encode_bytes_loop fuel ((b ++ pre) ++ 0x00 ∷ 0xff ∷ []) post
]

unfoldable pub encode_bytes : Bytes → Bytes → Bytes
unfolding encode_bytes_loop
encode_bytes b src = encode_bytes_loop (length src + 1) b src ++ 0x00 ∷ 0x01 ∷ []

-- What a round of the loop of decodeBytes does with the byte behind the escape.
unfoldable pub decode_bytes_loop : ℕ → Bytes → Bytes → Escapes → Decoded (Bytes × Bytes)
unfolding split_byte
decode_bytes_loop zero b r e = err DecodeError.no_terminator
decode_bytes_loop (suc fuel) b r e = elim (split_byte b e.escape) [
  | none ↦ err DecodeError.no_terminator
  | some (pre, []) ↦ err DecodeError.malformed_escape
  | some (pre, v ∷ post) ↦
      let more = decode_bytes_loop fuel post ((r ++ pre) ++ e.escaped_ff ∷ []) e in
      if v == e.escaped_term
      then ok (post, r ++ pre)
      else if v == e.escaped00
      then more
      else err DecodeError.unknown_escape
]

-- decodeBytes: an empty input is no error, and gives an empty result.
unfoldable pub decode_bytes_with : Bytes → Bytes → Escapes → Decoded (Bytes × Bytes)
unfolding decode_bytes_loop
decode_bytes_with [] r e = ok ([], [])
decode_bytes_with (x ∷ b) r e = decode_bytes_loop (length (x ∷ b)) (x ∷ b) r e

unfoldable pub decode_bytes : Bytes → Bytes → Decoded (Bytes × Bytes)
unfolding decode_bytes_with
decode_bytes b r = decode_bytes_with b r ascending_escapes
