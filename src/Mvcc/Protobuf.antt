-- ===== src/Mvcc/Protobuf.antt =====
-- The generated protobuf code of meta/data.pb.go and storage/engine/mvcc.pb.go: what is marshalled is
-- unmarshalled again.
use ancestor.Common.{Option, Bytes, ◌≡◌, some}
use ancestor.Meta.Message.{Transaction, MvccMetadata, MvccValue}

pub record Codec : Type 0 where
  pub marshal_metadata : MvccMetadata → Option Bytes
  pub unmarshal_metadata : Bytes → Option MvccMetadata
  pub marshal_value : MvccValue → Option Bytes
  pub unmarshal_value : Bytes → Option MvccValue
  pub marshal_txn : Transaction → Option Bytes
  pub unmarshal_txn : Bytes → Option Transaction
  pub metadata_round_trip :
      (m : MvccMetadata) (b : Bytes) → marshal_metadata m ≡ some b → unmarshal_metadata b ≡ some m
  pub value_round_trip :
      (v : MvccValue) (b : Bytes) → marshal_value v ≡ some b → unmarshal_value b ≡ some v
  pub txn_round_trip :
      (t : Transaction) (b : Bytes) → marshal_txn t ≡ some b → unmarshal_txn b ≡ some t
