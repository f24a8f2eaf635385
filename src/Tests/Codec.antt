-- ===== src/Tests/Codec.antt =====
-- A codec that stands for the generated one in the tests: fields one after the other, the byte
-- strings escaped.
use ancestor.Common.{
  Bytes, ℕ, Option, ◌≡◌, some, none, ◌∷◌, [], ◌++◌, if◌then◌else◌, refl, not, arith, ◌==◌,
  Option-cases, inl, inr,
}
use ancestor.Common.Int.{ℤ, pos, negsuc}
use ancestor.Encoding.{encode_bytes, decode_bytes, ok, err}
use ancestor.Encoding.Escape.{decode_bytes-encode_bytes}
use ancestor.Meta.Timestamp.{Timestamp}
use ancestor.Meta.Message.{
  Transaction, TransactionStatus, Value, ValueType, MvccMetadata, MvccValue, pending, committed,
  aborted,
}
use ancestor.Mvcc.Protobuf.{Codec}

abbrev sign : ℤ → ℕ
sign (pos n) = 0
sign (negsuc n) = 1

abbrev magnitude : ℤ → ℕ
magnitude (pos n) = n
magnitude (negsuc n) = n

abbrev int : ℕ → ℕ → ℤ
int s n = if s == 0 then pos n else negsuc n

int-sign : (z : ℤ) → int (sign z) (magnitude z) ≡ z
int-sign (pos n) = refl
int-sign (negsuc n) = refl

abbrev status_number : TransactionStatus → ℕ
status_number pending = 0
status_number committed = 1
status_number aborted = 2

abbrev status_of : ℕ → TransactionStatus
status_of n = if n == 0 then pending else if n == 1 then committed else aborted

status_of-number : (s : TransactionStatus) → status_of (status_number s) ≡ s
status_of-number pending = refl
status_of-number committed = refl
status_of-number aborted = refl

abbrev tag_number : ValueType → ℕ
tag_number ValueType.unknown = 0
tag_number ValueType.int = 1
tag_number ValueType.float = 2
tag_number ValueType.bytes = 3
tag_number ValueType.time = 4
tag_number ValueType.timeseries = 5
tag_number ValueType.metadata = 6
tag_number ValueType.transaction = 7
tag_number ValueType.mvcc_value = 8

abbrev tag_of : ℕ → ValueType
tag_of n =
    if n == 0
    then ValueType.unknown
    else if n == 1
    then ValueType.int
    else if n == 2
    then ValueType.float
    else if n == 3
    then ValueType.bytes
    else if n == 4
    then ValueType.time
    else if n == 5
    then ValueType.timeseries
    else if n == 6
    then ValueType.metadata
    else if n == 7
    then ValueType.transaction
    else ValueType.mvcc_value

tag_of-number : (t : ValueType) → tag_of (tag_number t) ≡ t
tag_of-number ValueType.unknown = refl
tag_of-number ValueType.int = refl
tag_of-number ValueType.float = refl
tag_of-number ValueType.bytes = refl
tag_of-number ValueType.time = refl
tag_of-number ValueType.timeseries = refl
tag_of-number ValueType.metadata = refl
tag_of-number ValueType.transaction = refl
tag_of-number ValueType.mvcc_value = refl

abbrev stamp : Timestamp → Bytes → Bytes
stamp t l = sign t.wall_time ∷ magnitude t.wall_time ∷ sign t.logical ∷ magnitude t.logical ∷ l

abbrev write_metadata : MvccMetadata → Bytes
write_metadata m =
    encode_bytes [] m.transaction_id ++ stamp m.timestamp ((if m.deleted then 1 else 0) ∷ [])

abbrev read_metadata_fields : Bytes → Bytes → Option MvccMetadata
read_metadata_fields id (s ∷ w ∷ t ∷ l ∷ d ∷ []) = some (record {
  transaction_id = id;
  timestamp = record { wall_time = int s w; logical = int t l };
  deleted = not (d == 0);
})
read_metadata_fields id _ = none

abbrev read_metadata : Bytes → Option MvccMetadata
read_metadata b = elim (decode_bytes b []) [
  | ok (rest, id) ↦ read_metadata_fields id rest
  | err _ ↦ none
]

int_pair :
    (t : Timestamp)
    → record {
      wall_time = int (sign t.wall_time) (magnitude t.wall_time);
      logical = int (sign t.logical) (magnitude t.logical);
    }
      ≡ t
int_pair t = ground (arith, int-sign t.wall_time, int-sign t.logical)

read-write_metadata : (m : MvccMetadata) → read_metadata (write_metadata m) ≡ some m
read-write_metadata m =
    rw
      (
        read_metadata,
        decode_bytes-encode_bytes m.transaction_id
            (stamp m.timestamp ((if m.deleted then 1 else 0) ∷ [])) [],
      )
      (ground (arith, int-sign m.timestamp.wall_time, int-sign m.timestamp.logical))

abbrev stamp_option : Option Timestamp → Bytes
stamp_option none = []
stamp_option (some t) = stamp t []

abbrev write_value_fields : Value → Bytes
write_value_fields v =
    encode_bytes [] v.bytes ++ v.checksum ∷ tag_number v.tag ∷ stamp_option v.timestamp

abbrev write_value : MvccValue → Bytes
write_value m = elim m.value [ none ↦ 0 ∷ [] | some v ↦ 1 ∷ write_value_fields v ]

abbrev read_stamp : Bytes → Option Timestamp
read_stamp (s ∷ w ∷ t ∷ l ∷ _) = some (record { wall_time = int s w; logical = int t l })
read_stamp _ = none

abbrev read_value_fields : Bytes → Bytes → Option MvccValue
read_value_fields b (c ∷ n ∷ rest) = some (record {
  value = some (record { bytes = b; checksum = c; timestamp = read_stamp rest; tag = tag_of n });
})
read_value_fields b _ = none

abbrev read_value_after : Bytes → Option MvccValue
read_value_after b = elim (decode_bytes b []) [
  | ok (rest, bs) ↦ read_value_fields bs rest
  | err _ ↦ none
]

abbrev read_value : Bytes → Option MvccValue
read_value [] = none
read_value (x ∷ b) = if x == 0 then some (record { value = none }) else read_value_after b

read-write_stamp : (o : Option Timestamp) → read_stamp (stamp_option o) ≡ o
read-write_stamp none = refl
read-write_stamp (some t) = ground (arith, int-sign t.wall_time, int-sign t.logical)

read-write_plain :
    (v : Value)
    → read_value_fields v.bytes (v.checksum ∷ tag_number v.tag ∷ stamp_option v.timestamp)
      ≡ some (record { value = some v })
read-write_plain v = rw (tag_of-number v.tag, read-write_stamp v.timestamp) refl

read-write_fields :
    (v : Value) → read_value_after (write_value_fields v) ≡ some (record { value = some v })
read-write_fields v =
    rw
      (
        read_value_after,
        decode_bytes-encode_bytes v.bytes (v.checksum ∷ tag_number v.tag ∷ stamp_option v.timestamp)
            [],
      )
      (read-write_plain v)

read-write_value : (m : MvccValue) → read_value (write_value m) ≡ some m
read-write_value m = elim (Option-cases m.value) [
  | inl e ↦ ground (arith, e)
  | inr (v, e) ↦ ground (arith, e, read-write_fields v)
]

abbrev after_id : Transaction → Bytes
after_id t =
    sign t.priority
    ∷ magnitude t.priority
    ∷ status_number t.status
    ∷ sign t.last_heartbeat
    ∷ magnitude t.last_heartbeat
    ∷ t.sequence
    ∷ stamp t.timestamp []

abbrev write_txn : Transaction → Bytes
write_txn t = encode_bytes [] t.name ++ (encode_bytes [] t.id ++ after_id t)

abbrev read_txn_fields : Bytes → Bytes → Bytes → Option Transaction
read_txn_fields name id (p ∷ q ∷ st ∷ h ∷ i ∷ n ∷ s ∷ w ∷ t ∷ l ∷ []) = some (record {
  name = name;
  id = id;
  priority = int p q;
  status = status_of st;
  last_heartbeat = int h i;
  timestamp = record { wall_time = int s w; logical = int t l };
  sequence = n;
})
read_txn_fields name id _ = none

abbrev read_txn_id : Bytes → Bytes → Option Transaction
read_txn_id name b = elim (decode_bytes b []) [
  | ok (rest, id) ↦ read_txn_fields name id rest
  | err _ ↦ none
]

abbrev read_txn : Bytes → Option Transaction
read_txn b = elim (decode_bytes b []) [ ok (rest, name) ↦ read_txn_id name rest | err _ ↦ none ]

read-write_txn : (t : Transaction) → read_txn (write_txn t) ≡ some t
read-write_txn t =
    rw
      (
        read_txn,
        decode_bytes-encode_bytes t.name (encode_bytes [] t.id ++ after_id t) [],
        read_txn_id,
        decode_bytes-encode_bytes t.id (after_id t) [],
      )
      (ground (
        arith,
        int-sign t.priority,
        int-sign t.last_heartbeat,
        int-sign t.timestamp.wall_time,
        int-sign t.timestamp.logical,
        status_of-number t.status,
      ))

pub metadata_law :
    (m : MvccMetadata) (b : Bytes) → some (write_metadata m) ≡ some b → read_metadata b ≡ some m
metadata_law m b h = ground (arith, read-write_metadata m, h)

pub value_law : (v : MvccValue) (b : Bytes) → some (write_value v) ≡ some b → read_value b ≡ some v
value_law v b h = ground (arith, read-write_value v, h)

pub txn_law : (t : Transaction) (b : Bytes) → some (write_txn t) ≡ some b → read_txn b ≡ some t
txn_law t b h = ground (arith, read-write_txn t, h)

unfoldable pub codec : Codec
codec = record {
  marshal_metadata = λ m. some (write_metadata m);
  unmarshal_metadata = read_metadata;
  marshal_value = λ v. some (write_value v);
  unmarshal_value = read_value;
  marshal_txn = λ t. some (write_txn t);
  unmarshal_txn = read_txn;
  metadata_round_trip = metadata_law;
  value_round_trip = value_law;
  txn_round_trip = txn_law;
}
