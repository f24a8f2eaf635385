-- ===== src/Pd/Oracle.antt =====
-- pd/ts.go: the timestamps that the placement driver gives out. Times are read from the clocks by
-- the caller, in nanoseconds; whether etcd accepts a write is an argument.
pub mod Order
pub mod Restart
use ancestor.Common.{
  ℕ, Bool, Option, some, none, List, [], ◌^◌, if◌then◌else◌, ◌∷◌, suc, true, ◌-◌, ◌/◌, zero, false,
  ◌==◌, ltb, ◌*◌,
}
use ancestor.Common.Int.{ℤ, pos, ltb_ℤ, add_int32}
use ancestor.Meta.Timestamp.{Timestamp}

abbrev pub nanos : ℕ
nanos = 10 ^ 6

abbrev pub max_logical : ℤ
max_logical = pos (2 ^ 18)

-- What time.Now() reads: the wall clock, since the epoch, and the monotonic clock.
pub record Time : Type 0 where
  pub unix : ℕ
  pub monotonic : ℕ

-- Sub of two times that time.Now() has read, where it is not negative: by the monotonic clock.
abbrev pub sub_time : Time → Time → ℕ
sub_time t u = t.monotonic - u.monotonic

-- atomicObject
pub record AtomicObject : Type 0 where
  pub wall_time : Time
  pub logical : ℤ

-- The fields of Server that ts.go uses, and what etcd holds at timestampPath.
pub record Oracle : Type 0 where
  pub ts : Option AtomicObject
  pub last_saved_time : Time
  pub saved : Option ℕ

pub data Status : Type 0 where
  ok failed waiting panic : Status

-- loadTimestampFromDB
unfoldable pub load_timestamp_from_db : Oracle → ℕ
load_timestamp_from_db s = elim s.saved [ none ↦ 0 | some t ↦ t ]

-- saveTimestampToDB
unfoldable pub save_timestamp_to_db : Bool → Time → Oracle → Bool × Oracle
save_timestamp_to_db accepted now s =
    if accepted
    then (true, record s { last_saved_time = now; saved = some now.unix })
    else (false, s)

-- The loop of loadTimestamp over the readings of the clock, a sleep between two of them, and what
-- follows it.
unfoldable pub load_timestamp_loop : ℕ → Bool → ℕ → List Time → Oracle → Status × Oracle
load_timestamp_loop interval accepted last [] s = (waiting, s)
load_timestamp_loop interval accepted last (now ∷ readings) s =
    let rest = load_timestamp_loop interval accepted last readings s in
    let elapsed = (now.unix - last) / nanos in
    if elapsed == 0
    then (failed, s)
    else if ltb elapsed (2 * interval)
    then rest
    else (let (fine, s') = save_timestamp_to_db accepted now s in
        if fine
        then (ok, record s' { ts = some (record { wall_time = now; logical = pos 0 }) })
        else (failed, s'))

-- loadTimestamp
unfoldable pub load_timestamp : ℕ → Bool → List Time → Oracle → Status × Oracle
load_timestamp interval accepted readings s =
    load_timestamp_loop interval accepted (load_timestamp_from_db s) readings s

-- saveTimestamp
unfoldable pub save_timestamp : ℕ → Bool → Time → Oracle → Status × Oracle
save_timestamp interval accepted now s = elim s.ts [
  | none ↦ (panic, s)
  | some prev ↦
      if sub_time now prev.wall_time / nanos == 0
      then (ok, s)
      else (let (fine, s') =
            if ltb interval (sub_time now s.last_saved_time / nanos)
            then save_timestamp_to_db accepted now s
            else (true, s) in
          if fine
          then (ok, record s' { ts = some (record { wall_time = now; logical = pos 0 }) })
          else (failed, s'))
]

-- One round of the loop of getTimestamp: no timestamp is a sleep and another round.
unfoldable pub get_timestamp_round : Oracle → Option Timestamp × Oracle
get_timestamp_round s = elim s.ts [
  | none ↦ (none, s)
  | some cur ↦
      let logical = add_int32 cur.logical (pos 1) in
      let t : Timestamp = record {
        wall_time = pos (cur.wall_time.unix / nanos);
        logical = logical;
      } in
      (
        if ltb_ℤ logical max_logical then some t else none,
        record s { ts = some (record { wall_time = cur.wall_time; logical = logical }) },
      )
]

-- The rounds of getTimestamp, `meanwhile` being what the update of the timestamp does in a sleep.
unfoldable pub get_timestamp_loop : ℕ → (Oracle → Oracle) → Oracle → Option Timestamp × Oracle
get_timestamp_loop zero meanwhile s = (none, s)
get_timestamp_loop (suc n) meanwhile s =
    let (t, s') = get_timestamp_round s in
    let rest = get_timestamp_loop n meanwhile (meanwhile s') in
    elim t [ none ↦ rest | some u ↦ (some u, s') ]

-- getTimestamp
unfoldable pub get_timestamp : (Oracle → Oracle) → Oracle → Option Timestamp × Oracle
get_timestamp meanwhile s = get_timestamp_loop 100 meanwhile s
