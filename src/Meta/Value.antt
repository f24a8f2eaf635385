-- ===== src/Meta/Value.antt =====
-- The tagged values of meta/data.go: what SetBytes and SetInt write and GetBytes and GetInt read.
use ancestor.Common.{
  Bytes, ◌≡◌, if◌then◌else◌, none, length, ◌==◌, not, [], arith, Bool, ◌<◌, append-nil, true, ◌^◌,
  false, refl,
}
use ancestor.Common.Int.{ℤ, uint64, int64, IsInt64, int64-uint64, pos, negsuc}
use ancestor.Encoding.{Decoded, encode_uint64, decode_uint64}
use ancestor.Encoding.Uint.{decode-encode_uint64, length-encode_uint64}
use ancestor.Meta.Message.{Value, ValueType, Failure, bad_tag, bad_length, bad_number}

-- A value or the error of a getter.
pub data Got (A : Type 0) : Type 0 where
  got : A → Got A
  refused : Failure → Got A

abbrev same_tag : ValueType → ValueType → Bool
same_tag ValueType.int ValueType.int = true
same_tag ValueType.bytes ValueType.bytes = true
same_tag _ _ = false

-- Value.SetBytes
unfoldable pub set_bytes : Bytes → Value → Value
set_bytes b v = record v { bytes = b; tag = ValueType.bytes }

-- Value.SetInt
unfoldable pub set_int : ℤ → Value → Value
set_int i v = record v { bytes = encode_uint64 [] (uint64 i); tag = ValueType.int }

-- Value.GetBytes
unfoldable pub get_bytes : Value → Got Bytes
get_bytes v = if not (same_tag v.tag ValueType.bytes) then refused bad_tag else got v.bytes

-- Value.GetInt
unfoldable pub get_int : Value → Got ℤ
get_int v =
    if not (same_tag v.tag ValueType.int)
    then refused bad_tag
    else if not (length v.bytes == 8)
    then refused bad_length
    else elim (decode_uint64 v.bytes) [
      | Decoded.err _ ↦ refused bad_number
      | Decoded.ok (_, u) ↦ got (int64 u)
    ]

-- The zero Value.
abbrev pub no_value : Value
no_value = record { bytes = []; checksum = 0; timestamp = none; tag = ValueType.unknown }

uint64-below : (i : ℤ) → uint64 i < 2 ^ 64
unfolding uint64
uint64-below (pos n) = omega arith
uint64-below (negsuc n) = omega arith

-- A value reads back what was set last, every int64 and every byte string, and each getter refuses
-- what the other setter wrote.
pub get-set :
    (i : ℤ) (b : Bytes) (v : Value)
    → IsInt64 i
    → (get_int (set_int i v) ≡ got i)
      × (get_bytes (set_bytes b v) ≡ got b)
      × (get_int (set_bytes b v) ≡ refused bad_tag)
      × (get_bytes (set_int i v) ≡ refused bad_tag)
unfolding get_int set_int get_bytes set_bytes
get-set i b v h = (
  ground (
    arith,
    length-encode_uint64 (uint64 i),
    append-nil (encode_uint64 [] (uint64 i)),
    decode-encode_uint64 (uint64 i) [] (uint64-below i),
    int64-uint64 i h,
  ),
  refl,
  refl,
  refl,
)
