-- ===== src/Meta/Timestamp.antt =====
-- meta/data.go: the timestamps of versions and transactions, and their order.
use ancestor.Common.{
  Bool, Option, ◌≡◌, ◌||◌, ◌&&◌, if◌then◌else◌, arith, false, true, some, ◌^◌, ◌-◌, none, ◌<◌,
}
use ancestor.Common.Int.{neg_part, pos_part, ℤ, pos, ◌+ℤ◌, ltb_ℤ, eq_ℤ}

pub record Timestamp : Type 0 where
  pub wall_time : ℤ
  pub logical : ℤ

abbrev pub zero_timestamp : Timestamp
zero_timestamp = record { wall_time = pos 0; logical = pos 0 }

-- The timestamps that the program makes: not negative, and in the range of int64 and int32.
pub record IsTimestamp (t : Timestamp) : Type 0 where
  pub wall_nonneg : neg_part t.wall_time ≡ 0
  pub wall_fits : pos_part t.wall_time < 2 ^ 63
  pub logical_nonneg : neg_part t.logical ≡ 0
  pub logical_fits : pos_part t.logical < 2 ^ 31

unfoldable pub less : Timestamp → Timestamp → Bool
less t s =
    ltb_ℤ t.wall_time s.wall_time || (eq_ℤ t.wall_time s.wall_time && ltb_ℤ t.logical s.logical)

unfoldable pub large : Timestamp → Timestamp → Bool
large t s =
    ltb_ℤ s.wall_time t.wall_time || (eq_ℤ t.wall_time s.wall_time && ltb_ℤ s.logical t.logical)

unfoldable pub equal : Timestamp → Timestamp → Bool
equal t s = eq_ℤ t.wall_time s.wall_time && eq_ℤ t.logical s.logical

-- Timestamp.Next; `none` is the panic at the largest timestamp.
unfoldable pub next : Timestamp → Option Timestamp
next t =
    if eq_ℤ t.logical (pos (2 ^ 31 - 1))
    then if eq_ℤ t.wall_time (pos (2 ^ 63 - 1))
      then none
      else some (record { wall_time = t.wall_time +ℤ pos 1; logical = pos 0 })
    else some (record { wall_time = t.wall_time; logical = t.logical +ℤ pos 1 })

pub large-eq-less : (t s : Timestamp) → large t s ≡ less s t
unfolding large less
large-eq-less t s = ground arith

pub less_irrefl : (t : Timestamp) → less t t ≡ false
unfolding less
less_irrefl t = ground arith

pub less_trans : (t s u : Timestamp) → less t s ≡ true → less s u ≡ true → less t u ≡ true
unfolding less
less_trans t s u h k = ground arith

-- Not below and not above is equal.
pub eq_of_not_less : (t s : Timestamp) → less t s ≡ false → less s t ≡ false → t ≡ s
unfolding less
eq_of_not_less t s h k = ground arith

pub equal→eq : (t s : Timestamp) → equal t s ≡ true → t ≡ s
unfolding equal
equal→eq t s h = ground arith

-- Next of a timestamp is above it, is a timestamp again, and no timestamp lies between the two.
pub next-is-successor :
    (t n u : Timestamp)
    → IsTimestamp t
    → IsTimestamp u
    → next t ≡ some n
    → IsTimestamp n × (less t n ≡ true) × (less t u ≡ true → less u n ≡ false)
unfolding next less ◌+ℤ◌
next-is-successor t n u ht hu h = ground arith

pub less_not_less : (t n u : Timestamp) → less t n ≡ true → less u n ≡ false → less t u ≡ true
unfolding less
less_not_less t n u h k = ground arith
