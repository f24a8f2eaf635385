-- ===== src/Tests/Oracles.antt =====
-- A server that saves, gives out timestamps, and is followed by another.
use ancestor.Common.{◌≡◌, some, none, ◌∷◌, [], ◌*◌, arith, true, refl, ℕ, ◌+◌}
use ancestor.Common.Int.{pos}
use ancestor.Meta.Timestamp.{less}
use ancestor.Pd.Oracle.{
  Oracle, AtomicObject, load_timestamp, nanos, load_timestamp_from_db, load_timestamp_loop,
  save_timestamp_to_db, ok, Time,
}
use ancestor.Pd.Oracle.Order.{ask, update, given, given-Ascending, Ascending, position, step}
use ancestor.Pd.Oracle.Restart.{Covers, step-Covers, load-later}

-- A reading at a number of milliseconds after the server's start, when the wall clock stood at two.
abbrev at_ms : ℕ → Time
at_ms n = record { unix = 2 * nanos + n * nanos; monotonic = n * nanos }

abbrev object : AtomicObject
object = record { wall_time = at_ms 5; logical = pos 3 }

abbrev server : Oracle
server = record { ts = some object; last_saved_time = at_ms 4; saved = some (6 * nanos) }

given-Ascending_example :
    Ascending (position object) (given 3 (ask ∷ update (at_ms 9) true ∷ ask ∷ []) server)
given-Ascending_example =
    given-Ascending (2 * nanos) 3 (ask ∷ update (at_ms 9) true ∷ ask ∷ []) server object refl refl
      (tt, (refl, (tt, tt))) (refl, omega arith)

server-Covers : Covers (2 * nanos) 3 server object
server-Covers = record {
  present = refl;
  stored = refl;
  near = omega arith;
  steady = refl;
  steady_saved = refl;
}

step-Covers_example :
    (b : AtomicObject) × Covers (2 * nanos) 3 (step 3 (update (at_ms 9) true) server).1 b
step-Covers_example =
    step-Covers (2 * nanos) 3 (update (at_ms 9) true) server object refl server-Covers

abbrev successor : Oracle
successor = record { ts = none; last_saved_time = at_ms 0; saved = some (6 * nanos) }

abbrev loaded : Oracle
loaded = record {
  ts = some (record { wall_time = at_ms 12; logical = pos 0 });
  last_saved_time = at_ms 12;
  saved = some (14 * nanos);
}

load_succeeds : load_timestamp 3 true (at_ms 6 ∷ at_ms 12 ∷ []) successor ≡ (ok, loaded)
unfolding load_timestamp load_timestamp_from_db load_timestamp_loop save_timestamp_to_db
load_succeeds = refl

load-later_example :
    (b : AtomicObject) × Covers (2 * nanos) 3 loaded b
    × (less (position object) (position b) ≡ true)
load-later_example =
    load-later (2 * nanos) (2 * nanos) 3 true (at_ms 6 ∷ at_ms 12 ∷ []) server loaded successor
      object (omega arith) (refl, (refl, tt)) server-Covers refl load_succeeds
