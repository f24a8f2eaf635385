-- ===== src/Meta/Key.antt =====
-- meta/data.go: keys, their encoded forms and the way back.
pub mod Parts
pub mod Order
pub mod Decode
use ancestor.Common.{
  ℕ, [], Bytes, false, ◌++◌, Bool, none, some, if◌then◌else◌, ◌∷◌, Option, true, length, ◌==◌,
}
use ancestor.Common.Int.{ℤ, int64, int32, uint64, uint32}
use ancestor.Encoding.{
  Decoded, DecodeError, ok, err, encode_bytes, encode_uint64_decreasing, encode_uint32_decreasing,
  decode_bytes, decode_uint64_decreasing, decode_uint32_decreasing,
}
use ancestor.Meta.Timestamp.{Timestamp, zero_timestamp}

abbrev pub encode_timestamp_size : ℕ
encode_timestamp_size = 12

-- BytesNext, Key.Next and MVCCKey.Next.
unfoldable pub bytes_next : Bytes → Bytes
bytes_next b = b ++ 0 ∷ []

-- NewMVCCKey
unfoldable pub new_mvcc_key : Bytes → Bytes
new_mvcc_key key = encode_bytes [] key

-- NewMVCCTimeKey
unfoldable pub new_mvcc_time_key : Bytes → Timestamp → Bytes
new_mvcc_time_key k ts =
    let key = encode_bytes [] k in
    let key' = encode_uint64_decreasing key (uint64 ts.wall_time) in
    encode_uint32_decreasing key' (uint32 ts.logical)

pub data KeyError : Type 0 where
  malformed : DecodeError → KeyError
  wrong_length : KeyError

-- The named results of MVCCKey.Decode; they keep what was set before an early return.
pub record DecodedKey : Type 0 where
  pub key : Bytes
  pub ts : Timestamp
  pub is_value : Bool
  pub error : Option KeyError

abbrev no_result : DecodedKey
no_result = record { key = []; ts = zero_timestamp; is_value = false; error = none }

decode_logical : Bytes → ℕ → Decoded (Bytes × ℕ) → DecodedKey
decode_logical key wt (err e) = record no_result { key = key; error = some (malformed e) }
decode_logical key wt (ok (_, lt)) = record no_result {
  key = key;
  ts = record { wall_time = int64 wt; logical = int32 lt };
  is_value = true;
}

decode_wall : Bytes → Decoded (Bytes × ℕ) → DecodedKey
unfolding decode_logical
decode_wall key (err e) = record no_result { key = key; error = some (malformed e) }
decode_wall key (ok (buf, wt)) = decode_logical key wt (decode_uint32_decreasing buf)

decode_timestamp : Bytes → Bytes → DecodedKey
unfolding decode_wall
decode_timestamp key buf =
    if length buf == 0
    then record no_result { key = key }
    else if length buf == encode_timestamp_size
    then decode_wall key (decode_uint64_decreasing buf)
    else record no_result { key = key; error = some wrong_length }

decode_rest : Decoded (Bytes × Bytes) → DecodedKey
unfolding decode_timestamp
decode_rest (err e) = record no_result { error = some (malformed e) }
decode_rest (ok (buf, key)) = decode_timestamp key buf

-- MVCCKey.Decode
unfoldable pub decode : Bytes → DecodedKey
unfolding decode_rest
decode k = decode_rest (decode_bytes k [])
