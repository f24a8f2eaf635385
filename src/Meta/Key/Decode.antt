-- ===== src/Meta/Key/Decode.antt =====
-- MVCCKey.Decode undoes NewMVCCKey and NewMVCCTimeKey, and refuses any other length.
use ancestor.Common.{
  ◌<◌, ◌≡◌, [], ◌^◌, true, false, ◌≢◌, refl, none, some, arith, ap, ◌∙◌, sym, append-nil, ℕ,
}
use ancestor.Common.Int.{
  uint64, uint32, int64-uint64, int32-uint32, IsInt64, IsInt32, ℤ, pos, negsuc, int64, int32,
}
use ancestor.Encoding.{
  encode_uint32_decreasing, decode_uint64_decreasing, decode_uint32_decreasing, ok,
}
use ancestor.Encoding.Uint.{decode-encode_uint64_decreasing, decode-encode_uint32_decreasing}
use ancestor.Encoding.Escape.{decode_bytes-encode_bytes}
use ancestor.Meta.Timestamp.{Timestamp, zero_timestamp}
use ancestor.Meta.Key.{
  decode, decode_timestamp, decode_wall, new_mvcc_key, new_mvcc_time_key, wrong_length, Bytes, ◌++◌,
  length,
}
use ancestor.Meta.Key.Parts.{encode_timestamp, time_key-eq-append, length-encode_timestamp}

decode-append : (k rest : Bytes) → decode (new_mvcc_key k ++ rest) ≡ decode_timestamp k rest
unfolding decode new_mvcc_key
decode-append k rest = rw (decode_bytes-encode_bytes k rest []) refl

uint64-lt : (x : ℤ) → uint64 x < 2 ^ 64
unfolding uint64
uint64-lt (pos n) = omega arith
uint64-lt (negsuc n) = omega arith

uint32-lt : (x : ℤ) → uint32 x < 2 ^ 32
unfolding uint32
uint32-lt (pos n) = omega arith
uint32-lt (negsuc n) = omega arith

decode_timestamp-twelve :
    (k buf : Bytes)
    → length buf ≡ 12
    → decode_timestamp k buf ≡ decode_wall k (decode_uint64_decreasing buf)
unfolding decode_timestamp
decode_timestamp-twelve k buf h = rw h refl

decode_logical-encode :
    (x : ℕ) → x < 2 ^ 32 → decode_uint32_decreasing (encode_uint32_decreasing [] x) ≡ ok ([], x)
decode_logical-encode x h =
    ap decode_uint32_decreasing (sym (append-nil (encode_uint32_decreasing [] x)))
    ∙ decode-encode_uint32_decreasing x [] h

decode_wall-encode_timestamp :
    (k : Bytes) (ts : Timestamp)
    → decode_wall k (decode_uint64_decreasing (encode_timestamp ts)) ≡ record {
      key = k;
      ts = record { wall_time = int64 (uint64 ts.wall_time); logical = int32 (uint32 ts.logical) };
      is_value = true;
      error = none;
    }
unfolding encode_timestamp decode_wall
decode_wall-encode_timestamp k ts =
    rw
      (decode-encode_uint64_decreasing (uint64 ts.wall_time)
        (encode_uint32_decreasing [] (uint32 ts.logical)) (uint64-lt ts.wall_time))
      (rw (decode_logical-encode (uint32 ts.logical) (uint32-lt ts.logical)) refl)

-- Decoding the key of a version gives the key and the timestamp, for every int64 and int32.
pub decode-new_mvcc_time_key :
    (k : Bytes) (ts : Timestamp)
    → IsInt64 ts.wall_time
    → IsInt32 ts.logical
    → decode (new_mvcc_time_key k ts) ≡ record { key = k; ts = ts; is_value = true; error = none }
decode-new_mvcc_time_key k ts hw hl =
    ap decode (time_key-eq-append k ts)
    ∙ decode-append k (encode_timestamp ts)
    ∙ decode_timestamp-twelve k (encode_timestamp ts) (length-encode_timestamp ts)
    ∙ decode_wall-encode_timestamp k ts
    ∙ (λ i. record {
      key = k;
      ts = record {
        wall_time = int64-uint64 ts.wall_time hw i;
        logical = int32-uint32 ts.logical hl i;
      };
      is_value = true;
      error = none;
    })

-- Decoding the key of a metadata record gives the key and no timestamp.
pub decode-new_mvcc_key :
    (k : Bytes)
    → decode (new_mvcc_key k)
      ≡ record { key = k; ts = zero_timestamp; is_value = false; error = none }
decode-new_mvcc_key k =
    ap decode (sym (append-nil (new_mvcc_key k)))
    ∙ decode-append k []
    ∙ unfold decode_timestamp in refl

-- Where neither none nor twelve bytes follow the key, decoding gives an error beside the key.
pub decode_wrong_length :
    (k rest : Bytes)
    → length rest ≢ 0
    → length rest ≢ 12
    → decode (new_mvcc_key k ++ rest)
      ≡ record { key = k; ts = zero_timestamp; is_value = false; error = some wrong_length }
decode_wrong_length k rest h0 h12 = decode-append k rest ∙ unfold decode_timestamp in ground arith
