-- ===== src/Client/State.antt =====
-- The state of a transaction of client/txn.go, its requests and what it meets outside.
use ancestor.Common.{
  Bytes, ℕ, Bool, false, Option, none, some, List, [], ◌∷◌, ◌++◌, ◌≡◌, if◌then◌else◌, bytes_equal,
  ◌&&◌, ◌||◌,
}
use ancestor.Common.Int.{ℤ, eq_ℤ}
use ancestor.Meta.Timestamp.{Timestamp}
use ancestor.Meta.Message.{Error, TransactionStatus, need_retry}
use ancestor.Meta.Exec.{Result}

-- The ordered cache of the buffer: a nil value is a deletion.
pub record Buffer : Type 1 where
  pub Cache : Type 0
  pub get : Bytes → Cache → Option (Option Bytes)
  pub add : Bytes → Option Bytes → Cache → Cache
  pub empty : Cache
  -- Clear, which removes entries as it walks over them; that it leaves none is not relied on.
  pub clear : Cache → Cache
  -- What Walk visits.
  pub entries : Cache → List (Bytes × Option Bytes)
  pub get-add :
      (k j : Bytes) (v : Option Bytes) (c : Cache)
      → get j (add k v c) ≡ (if bytes_equal k j then some v else get j c)

-- A PutRequest: the key and the bytes of the value.
pub record PutRequest : Type 0 where
  pub key : Bytes
  pub value : Bytes

-- The requests of a transaction, through doNodeRequest.
pub data Call : Type 0 where
  begin_call : Call
  put_call : (range_id : ℤ) (reqs : List PutRequest) → Call
  end_call : (commit : Bool) (timestamp : Timestamp) → Call

-- dbTxn, with the requests sent so far, the first one first. `pool` is what resolveSender collects, a
-- nil map once it is sent, and `resolving` what it has sent; `beating` is whether the heartbeat has
-- the transaction.
pub record Txn (C : Type 0) : Type 0 where
  pub dirty : Bool
  pub has_begin : Bool
  pub status : TransactionStatus
  pub timestamp : Timestamp
  pub cache : C
  pub pool : Option (List (ℤ × Bytes))
  pub beating : Bool
  pub resolving : List (ℤ × Bytes)
  pub sent : List Call
  pub readings : ℕ

pub record World : Type 0 where
  -- getRangeDescFromCache: the id of the range of a key.
  pub range_of : Bytes → Option ℤ
  -- The error of a request, at the number of requests before it.
  pub respond : ℕ → Call → Option Error
  -- Whether that error carries no trace: doNodeRequest traces what a node returns, and not its own.
  pub is_bare : ℕ → Bool
  pub timestamps : ℕ → Option Timestamp
  pub snapshot_get : Bytes → Result Bytes

abbrev pub Batches : Type 0
Batches = List (ℤ × List PutRequest)

abbrev pub max_batch_put_size : ℕ
max_batch_put_size = 1000

-- meta.NewKey(util.UserPrefix, k)
abbrev pub user_key : Bytes → Bytes
user_key k = 2 ∷ k

-- base.addPut to the batch of a range, which is made if it is not there.
unfoldable pub add_put : ℤ → PutRequest → Batches → Batches
add_put r p [] = (r, p ∷ []) ∷ []
add_put r p ((q, l) ∷ rest) =
    let others = add_put r p rest in if eq_ℤ q r then (q, l ++ p ∷ []) ∷ rest else (q, l) ∷ others

abbrev pub put_of : Bytes × Option Bytes → PutRequest
put_of e = record { key = e.0; value = elim e.1 [ none ↦ [] | some b ↦ b ] }

-- The error that doPutData returns for one of a batch.
unfoldable pub put_error : Error → Error
put_error (Error.transaction_aborted _) = Error.failure need_retry
put_error e = e

unfoldable pub is_pooled : ℤ × Bytes → List (ℤ × Bytes) → Bool
is_pooled i [] = false
is_pooled i (j ∷ l) = (eq_ℤ i.0 j.0 && bytes_equal i.1 j.1) || is_pooled i l
