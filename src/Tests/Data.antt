-- ===== src/Tests/Data.antt =====
-- Transactions, values and states of the tests.
use ancestor.Common.{ℕ, some, none, ◌∷◌, [], true, false, ◌<◌, arith, ◌^◌, refl}
use ancestor.Common.Int.{pos}
use ancestor.Engine.Memory.{memory}
use ancestor.Meta.Timestamp.{Timestamp, IsTimestamp}
use ancestor.Meta.Message.{Transaction, Value, ValueType, pending}
use ancestor.Meta.Stats.{RangeStats}
use ancestor.Mvcc.Store.{State}

abbrev pub no_stats : RangeStats
no_stats = record {
  node_id = pos 1;
  range_id = pos 1;
  total_bytes = pos 0;
  total_count = pos 0;
  is_raft_leader = true;
  is_removed = false;
}

unfoldable pub start : State memory
unfolding memory
start = record { db = ([], tt); stats = some no_stats }

abbrev pub time : ℕ → Timestamp
time n = record { wall_time = pos n; logical = pos 0 }

abbrev pub client : ℕ → ℕ → Transaction
client id n = record {
  name = [];
  id = id ∷ [];
  priority = pos 1;
  status = pending;
  last_heartbeat = pos n;
  timestamp = time n;
  sequence = 0;
}

abbrev pub letter : ℕ → Value
letter c = record { bytes = c ∷ []; checksum = 0; timestamp = none; tag = ValueType.bytes }

time-IsTimestamp : (n : ℕ) → n < 2 ^ 63 → IsTimestamp (time n)
time-IsTimestamp n h = record {
  wall_nonneg = refl;
  wall_fits = h;
  logical_nonneg = refl;
  logical_fits = omega arith;
}

pub IsTimestamp-5 : IsTimestamp (time 5)
IsTimestamp-5 = time-IsTimestamp 5 (omega arith)

pub IsTimestamp-6 : IsTimestamp (time 6)
IsTimestamp-6 = time-IsTimestamp 6 (omega arith)

pub IsTimestamp-7 : IsTimestamp (time 7)
IsTimestamp-7 = time-IsTimestamp 7 (omega arith)
