-- ===== src/Tests/Transactions.antt =====
-- Runs of the commands on transaction records.
use ancestor.Encoding.{encode_bytes, decode_bytes}
use ancestor.Common.{Bytes, ◌≡◌, some, ◌∷◌, [], refl, arith, bytes_equal, false, bytes_less}
use ancestor.Common.Int.{pos, int64, ◌+ℤ◌, uint64, ◌-ℤ◌}
use ancestor.Engine.Memory.{memory}
use ancestor.Meta.Timestamp.{less, large, next}
use ancestor.Meta.Key.{new_mvcc_key}
use ancestor.Meta.Message.{Transaction, push_timestamp, pending}
use ancestor.Meta.Exec.{ok}
use ancestor.Mvcc.Store.{State}
use ancestor.Mvcc.Txn.{mvcc_put_txn, ChangeType, local_txn, update, write_txn, mvcc_get_txn}
use ancestor.Mvcc.Txn.Record.{stored_txn, Advances, put_txn-Advances}
use ancestor.Replica.{
  process_push_transaction, begin_transaction, push_pending, push_with, is_push_timestamp,
}
use ancestor.Replica.Push.{Pushed, push-Pushed}
use ancestor.Tests.Codec.{codec}
use ancestor.Tests.Data.{start, time, client, IsTimestamp-6}

abbrev after_begin : State memory
after_begin = (begin_transaction memory codec (client 1 5) start).1

begun : stored_txn memory codec after_begin.db (1 ∷ []) ≡ some (client 1 5)
unfolding memory begin_transaction mvcc_put_txn local_txn update less write_txn codec start
    bytes_equal new_mvcc_key encode_bytes decode_bytes mvcc_get_txn bytes_less
begun = refl

abbrev after_push : State memory
after_push =
    (process_push_transaction memory codec (1 ∷ []) (time 6) push_timestamp (client 2 6)
      after_begin).1

pushed :
    process_push_transaction memory codec (1 ∷ []) (time 6) push_timestamp (client 2 6) after_begin
    ≡ (
      ok (record (client 1 5) { timestamp = record { wall_time = pos 6; logical = pos 1 } }),
      after_push,
    )
unfolding process_push_transaction push_pending push_with is_push_timestamp large next int64 uint64
    ◌-ℤ◌ ◌+ℤ◌ memory begin_transaction mvcc_put_txn local_txn update less write_txn codec start
    bytes_equal new_mvcc_key encode_bytes decode_bytes mvcc_get_txn bytes_less
pushed = refl

push-Pushed_example :
    (t' : Transaction) × (stored_txn memory codec after_push.db (1 ∷ []) ≡ some t')
    × Pushed push_timestamp (client 2 6) t'
push-Pushed_example =
    push-Pushed memory codec (time 6) push_timestamp (client 2 6) (client 1 5)
      (record (client 1 5) { timestamp = record { wall_time = pos 6; logical = pos 1 } })
      after_begin after_push (omega arith) IsTimestamp-6 begun refl pushed

abbrev heartbeat : Transaction
heartbeat = record (client 1 7) { last_heartbeat = pos 7 }

abbrev after_heartbeat : State memory
after_heartbeat = (mvcc_put_txn memory codec heartbeat ChangeType.heartbeat after_begin).1

heartbeat_succeeds :
    mvcc_put_txn memory codec heartbeat ChangeType.heartbeat after_begin ≡ (ok tt, after_heartbeat)
unfolding memory begin_transaction mvcc_put_txn local_txn update less write_txn codec start
    bytes_equal new_mvcc_key encode_bytes decode_bytes mvcc_get_txn bytes_less
heartbeat_succeeds = refl

put_txn-Advances_example :
    ((client 1 5).status ≡ pending)
    × (t' : Transaction) × (stored_txn memory codec after_heartbeat.db (1 ∷ []) ≡ some t')
    × Advances ChangeType.heartbeat heartbeat (client 1 5) t'
    × ((j : Bytes)
        → bytes_equal (new_mvcc_key (1 ∷ [])) j ≡ false
        → memory.get after_heartbeat.db j ≡ memory.get after_begin.db j)
put_txn-Advances_example =
    put_txn-Advances memory codec heartbeat (client 1 5) ChangeType.heartbeat after_begin
      after_heartbeat (omega arith) refl begun heartbeat_succeeds
