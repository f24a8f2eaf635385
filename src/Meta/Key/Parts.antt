-- ===== src/Meta/Key/Parts.antt =====
-- An encoded key with a timestamp is the encoded key and twelve bytes of timestamp.
use ancestor.Common.{◌≡◌, [], ◌++◌, refl, append_assoc, arith}
use ancestor.Common.Int.{uint64, uint32, pos_part}
use ancestor.Encoding.{
  encode_bytes, encode_uint64_decreasing, encode_uint32_decreasing, encode_uint64, encode_uint32,
}
use ancestor.Meta.Timestamp.{Timestamp, IsTimestamp}
use ancestor.Meta.Key.{new_mvcc_key, new_mvcc_time_key, Bytes, length}

unfoldable pub encode_timestamp : Timestamp → Bytes
encode_timestamp ts =
    encode_uint64_decreasing [] (uint64 ts.wall_time)
    ++ encode_uint32_decreasing [] (uint32 ts.logical)

pub time_key-eq-append :
    (k : Bytes) (ts : Timestamp) → new_mvcc_time_key k ts ≡ new_mvcc_key k ++ encode_timestamp ts
unfolding new_mvcc_time_key new_mvcc_key encode_timestamp encode_uint64_decreasing
    encode_uint32_decreasing encode_uint64 encode_uint32
time_key-eq-append k ts = append_assoc (encode_bytes [] k) _ _

pub length-encode_timestamp : (ts : Timestamp) → length (encode_timestamp ts) ≡ 12
unfolding encode_timestamp encode_uint64_decreasing encode_uint32_decreasing encode_uint64
    encode_uint32
length-encode_timestamp ts = refl

pub uint64-wall_time : (t : Timestamp) → IsTimestamp t → uint64 t.wall_time ≡ pos_part t.wall_time
unfolding uint64
uint64-wall_time t h = ground arith

pub uint32-logical : (t : Timestamp) → IsTimestamp t → uint32 t.logical ≡ pos_part t.logical
unfolding uint32
uint32-logical t h = ground arith
