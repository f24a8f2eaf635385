-- ===== src/Tests/Encodings.antt =====
-- Encodings at fixed inputs: a byte string with a zero byte in it, the largest logical part.
use ancestor.Common.{
  Bytes, ◌≡◌, ◌∷◌, [], ◌++◌, bytes_less, bytes_equal, if◌then◌else◌, none, arith, true,
}
use ancestor.Common.Int.{negsuc}
use ancestor.Encoding.{
  ok, encode_bytes, decode_bytes, encode_uint64_decreasing, decode_uint64_decreasing,
}
use ancestor.Encoding.Escape.{decode_bytes-encode_bytes, less-encode_bytes}
use ancestor.Encoding.Uint.{decode-encode_uint64_decreasing}
use ancestor.Meta.Timestamp.{Timestamp, less}
use ancestor.Meta.Key.{new_mvcc_time_key, decode}
use ancestor.Meta.Key.Order.{less-new_mvcc_time_key}
use ancestor.Meta.Key.Decode.{decode-new_mvcc_time_key}
use ancestor.Tests.Data.{time, IsTimestamp-5, IsTimestamp-7}

abbrev with_zero : Bytes
with_zero = 1 ∷ 0 ∷ 2 ∷ []

decode_bytes-encode_bytes_example :
    decode_bytes (encode_bytes [] with_zero ++ 9 ∷ []) (7 ∷ []) ≡ ok (9 ∷ [], 7 ∷ with_zero)
decode_bytes-encode_bytes_example = decode_bytes-encode_bytes with_zero (9 ∷ []) (7 ∷ [])

less-encode_bytes_example :
    bytes_less (encode_bytes [] with_zero ++ 9 ∷ []) (encode_bytes [] (1 ∷ []) ++ []) ≡ (
      if bytes_equal with_zero (1 ∷ [])
      then bytes_less (9 ∷ []) []
      else bytes_less with_zero (1 ∷ []))
less-encode_bytes_example = less-encode_bytes with_zero (1 ∷ []) (9 ∷ []) []

decode-encode_uint64_decreasing_example :
    decode_uint64_decreasing (encode_uint64_decreasing [] 300 ++ 9 ∷ []) ≡ ok (9 ∷ [], 300)
decode-encode_uint64_decreasing_example = decode-encode_uint64_decreasing 300 (9 ∷ []) (omega arith)

less-new_mvcc_time_key_example :
    bytes_less (new_mvcc_time_key with_zero (time 7)) (new_mvcc_time_key with_zero (time 5)) ≡ (
      if bytes_equal with_zero with_zero
      then less (time 5) (time 7)
      else bytes_less with_zero with_zero)
less-new_mvcc_time_key_example =
    less-new_mvcc_time_key with_zero with_zero (time 7) (time 5) IsTimestamp-7 IsTimestamp-5

abbrev early : Timestamp
early = record { wall_time = negsuc 3; logical = negsuc 0 }

decode-new_mvcc_time_key_example :
    decode (new_mvcc_time_key with_zero early)
    ≡ record { key = with_zero; ts = early; is_value = true; error = none }
decode-new_mvcc_time_key_example =
    decode-new_mvcc_time_key with_zero early (omega arith) (omega arith)
