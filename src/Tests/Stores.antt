-- ===== src/Tests/Stores.antt =====
-- A store with one range in the tests, and a batch that meets a write intent.
use ancestor.Encoding.{encode_bytes, decode_bytes}
use ancestor.Replica.{validate_key_range}
use ancestor.Common.{
  Bytes, Bool, ℕ, suc, zero, List, [], ◌∷◌, ◌++◌, Option, some, none, ◌≡◌, ◌≢◌, refl, true, false,
  arith, ◌||◌, ◌&&◌, if◌then◌else◌, bytes_less,
}
use ancestor.Common.Int.{ℤ, pos, eq_ℤ, add_int64, int64, uint64, ◌+ℤ◌}
use ancestor.Meta.Exec.{ok, err, panic, Exec}
use ancestor.Meta.Message.{Error, Transaction, push_abort}
use ancestor.Meta.Stats.{RangeStats}
use ancestor.Meta.Batch.{Reply, execute_batch, execute_from}
use ancestor.Meta.Batch.Executed.{execute_batch-Runs, Runs, Stops}
use ancestor.Engine.Memory.{memory, SortedTable}
use ancestor.Meta.Key.{new_mvcc_key, decode}
use ancestor.Store.{
  Store, Replica, RangeDescriptor, remove_replica_request, execute_root_cmd, create_replica,
  new_replica, add_range_stats, add_replica, set_at,
}
use ancestor.Store.Registered.{Registered, execute_root_cmd-Registered}
use ancestor.Store.Split.{
  split, SplitRequest, get_split_key, split_valid, make_range_desc, fill_range_stats, change_stats,
  set_range_stats, split_key_loop,
}
use ancestor.Store.Split.Parts.{holds}
use ancestor.Store.Split.Halves.{split-halves}
use ancestor.Store.Split.Key.{get_split_key-Found, Found}
use ancestor.Store.Stats.{new_node_stats}
use ancestor.Store.Stats.Totals.{Totals, new_node_stats-Totals}
use ancestor.Store.Send.{
  write_intent_of, send_loop, WriteIntent, send_rest, write_intent_of, send_pushed,
}
use ancestor.Store.Send.Answered.{send_loop-ExecutesIn, Answered, ExecutesIn, serve}
use ancestor.Engine.Memory.{from}
use ancestor.Tests.Data.{no_stats, client}

abbrev desc : RangeDescriptor
desc = record {
  range_id = pos 1;
  start_key = 3 ∷ [];
  end_key = 9 ∷ [];
  replicas = (record { node_id = pos 1; replica_id = pos 1 }) ∷ [];
}

abbrev replica : Replica
replica = record { range_id = pos 1; range_desc = desc }

abbrev sizes : RangeStats
sizes = record no_stats { total_bytes = pos 100; total_count = pos 10 }

abbrev replica_at : ℤ → Option Replica
replica_at id = if eq_ℤ id (pos 1) then some replica else none

abbrev store : Store
store = record {
  node_id = pos 1;
  replicas = replica_at;
  range_stats = λ id. if eq_ℤ id (pos 1) then some sizes else none;
  active_raft_snapshot = false;
  stopped = [];
  uploaded = [];
}

abbrev starts : RangeDescriptor → Bool → Option Error
starts rd need_load = none

store-Registered : Registered store
store-Registered id r h =
    let same : replica ≡ r = ground (arith, h) in
    rw (← same) (ground (arith, h), sizes, ground (arith, h), refl)

execute_root_cmd-Registered_example :
    Registered (execute_root_cmd starts (remove_replica_request (pos 1) (pos 1)) store).1
    × ((execute_root_cmd starts (remove_replica_request (pos 1) (pos 1)) store).0 ≢ panic)
execute_root_cmd-Registered_example =
    execute_root_cmd-Registered starts (remove_replica_request (pos 1) (pos 1)) store
      store-Registered

abbrev request : SplitRequest
request = record {
  range_id = pos 1;
  new_range_id = pos 2;
  split_key = 5 ∷ [];
  new_range_bytes = pos 40;
  new_range_count = pos 4;
}

abbrev halves : List RangeDescriptor
halves =
    record desc { range_id = pos 2; end_key = 5 ∷ [] } ∷ record desc { start_key = 5 ∷ [] } ∷ []

abbrev after_split : Store
after_split = (split starts replica request store).1

split_succeeds : split starts replica request store ≡ (ok halves, after_split)
unfolding split validate_key_range bytes_less split_valid create_replica make_range_desc new_replica
    add_range_stats add_replica fill_range_stats change_stats set_at set_range_stats
split_succeeds = refl

above : bytes_less (3 ∷ []) (5 ∷ []) ≡ true
unfolding bytes_less
above = refl

split-halves_example :
    (prev : RangeDescriptor) × (post : RangeDescriptor) × (new : RangeStats) × (old : RangeStats)
    × (halves ≡ prev ∷ post ∷ [])
    × ((key : Bytes)
        → (holds desc key ≡ (holds prev key || holds post key))
          × ((holds prev key && holds post key) ≡ false))
    × (after_split.replicas (pos 2) ≡ some (record { range_id = pos 2; range_desc = prev }))
    × (after_split.range_stats (pos 2) ≡ some new)
    × (after_split.range_stats (pos 1) ≡ some old)
    × (add_int64 old.total_bytes new.total_bytes ≡ pos 100)
    × (add_int64 old.total_count new.total_count ≡ pos 10)
split-halves_example =
    split-halves starts replica request sizes store after_split halves refl refl (omega arith)
      (omega arith) (omega arith) (omega arith) above split_succeeds

-- The keys 4 and 6, encoded.
in_order : bytes_less (new_mvcc_key (4 ∷ [])) (new_mvcc_key (6 ∷ [])) ≡ true
unfolding bytes_less new_mvcc_key encode_bytes
in_order = refl

abbrev range_db : SortedTable
range_db = (
  (new_mvcc_key (4 ∷ []), 97 ∷ []) ∷ (new_mvcc_key (6 ∷ []), 98 ∷ []) ∷ [],
  ((in_order, tt), (tt, tt)),
)

abbrev found : Bytes × ℤ × ℤ
found = (6 ∷ [], pos 8, pos 2)

unfoldable the_db : memory.Db
unfolding memory
the_db = range_db

finds : get_split_key memory replica (pos 6) the_db ≡ ok found
unfolding get_split_key memory the_db from split_key_loop bytes_less decode new_mvcc_key
    encode_bytes int64 uint64 ◌+ℤ◌ decode_bytes
finds = refl

get_split_key-Found_example :
    Found
      (3 ∷ [])
      (new_mvcc_key (9 ∷ []))
      (pos 6)
      (pos 0)
      (pos 0)
      (memory.forward the_db (new_mvcc_key (3 ∷ [])))
      found
get_split_key-Found_example = get_split_key-Found memory replica (pos 6) the_db found finds

new_node_stats-Totals_example :
    Totals (λ r. true) store.replicas (new_node_stats (λ r. true) (pos 1 ∷ []) store).0
new_node_stats-Totals_example = new_node_stats-Totals (λ r. true) (pos 1 ∷ []) store

-- Requests are numbers, answered by themselves; while the state is not zero, they meet an intent.
abbrev answer : ℕ → Exec ℕ ℕ
answer r zero = (ok r, zero)
answer r (suc s) = (err (Error.write_intent (client 1 5) push_abort (2 ∷ []) (7 ∷ [])), suc s)

abbrev answer_in : List Transaction → ℕ → Exec ℕ ℕ
answer_in pushees r = answer r

abbrev process : WriteIntent → Exec ℕ Transaction
process wi s = (ok (client 2 5), zero)

abbrev batch : List (Option ℕ)
batch = some 7 ∷ some 8 ∷ []

abbrev reply : Reply ℕ
reply = record { resp = 7 ∷ 8 ∷ []; error = none }

executes : execute_batch answer batch 0 ≡ (ok reply, 0)
unfolding execute_batch execute_from
executes = refl

execute_batch-Runs_example :
    (front : List (Option ℕ)) × (rest : List (Option ℕ)) × (s₁ : ℕ) × (batch ≡ front ++ rest)
    × Runs answer front (7 ∷ 8 ∷ []) 0 s₁
    × Stops answer rest none s₁ 0
execute_batch-Runs_example = execute_batch-Runs answer batch 0 0 reply executes

sends : send_loop (serve answer_in) process 4 [] batch [] 1 ≡ (ok (some reply), 0)
unfolding send_loop execute_batch execute_from send_rest write_intent_of send_pushed
sends = refl

send_loop-ExecutesIn_example :
    (ps : List ℕ) × (7 ∷ 8 ∷ [] ≡ [] ++ ps) × Answered (ExecutesIn answer_in) batch ps none
send_loop-ExecutesIn_example = send_loop-ExecutesIn answer_in process 4 [] batch [] 1 0 reply sends
