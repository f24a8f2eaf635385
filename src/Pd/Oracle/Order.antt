-- ===== src/Pd/Oracle/Order.antt =====
-- The timestamps that one server gives out ascend.
use ancestor.Common.{
  ℕ, Bool, Option, some, none, List, [], ◌≡◌, arith, ◌∷◌, ◌/◌, true, ◌+◌, suc, ◌<◌, ◌⊎◌, ◌^◌,
  Bool-cases, inl, inr, refl, ◌-◌, length, ◌==◌, subst, ltb, false, All, sym, ◌≤◌,
}
use ancestor.Common.Int.{ℤ, pos, pos_part, neg_part, int32, uint32, ◌+ℤ◌, ltb_ℤ}
use ancestor.Meta.Timestamp.{Timestamp, less, less_trans}
use ancestor.Pd.Oracle.{
  Oracle, AtomicObject, save_timestamp, save_timestamp_to_db, get_timestamp_round, nanos, Time,
  sub_time, max_logical,
}

-- A server updates its timestamp, with a reading of the clock and etcd's answer, or runs a round
-- of getTimestamp.
pub data Event : Type 0 where
  update : Time → Bool → Event
  ask : Event

unfoldable pub step : ℕ → Event → Oracle → Option Timestamp × Oracle
step interval (update now accepted) s = (none, (save_timestamp interval accepted now s).1)
step interval ask s = get_timestamp_round s

abbrev cons_some : Option Timestamp → List Timestamp → List Timestamp
cons_some none l = l
cons_some (some t) l = t ∷ l

-- The timestamps that are given out in the course of some events.
unfoldable pub given : ℕ → List Event → Oracle → List Timestamp
given interval [] s = []
given interval (e ∷ events) s =
    let (t, s') = step interval e s in cons_some t (given interval events s')

-- The last timestamp of the present object.
abbrev pub position : AtomicObject → Timestamp
position a = record { wall_time = pos (a.wall_time.unix / nanos); logical = a.logical }

abbrev pub Ascending : Timestamp → List Timestamp → Type 0
Ascending t [] = Unit
Ascending t (u ∷ l) = (less t u ≡ true) × Ascending u l

pub Ascending-trans :
    (t u : Timestamp) (l : List Timestamp) → less t u ≡ true → Ascending u l → Ascending t l
Ascending-trans t u [] h a = tt
Ascending-trans t u (v ∷ l) h a = (less_trans t u v h a.0, a.1)

-- With room for as many rounds as there are events, the logical part does not wrap around.
abbrev pub Room : AtomicObject → ℕ → Type 0
Room a n = (neg_part a.logical ≡ 0) × (pos_part a.logical + n < 2 ^ 31)

-- The wall clock was not set since the server's start, when it stood at `boot`.
abbrev pub IsSteady : ℕ → Time → Type 0
IsSteady boot t = t.unix ≡ boot + t.monotonic

abbrev pub IsSteadyEvent : ℕ → Event → Type 0
IsSteadyEvent boot (update now accepted) = IsSteady boot now
IsSteadyEvent boot ask = Unit

next_logical :
    (z : ℤ) (n : ℕ)
    → neg_part z ≡ 0
    → pos_part z + suc n < 2 ^ 31
    → int32 (uint32 (z +ℤ pos 1)) ≡ pos (pos_part z + 1)
unfolding int32 uint32 ◌+ℤ◌
next_logical z n h k = ground arith

step-ask :
    (s : Oracle) (a : AtomicObject) (n interval : ℕ)
    → s.ts ≡ some a
    → Room a (suc n)
    → (b : AtomicObject) × ((step interval ask s).1.ts ≡ some b)
      × Room b n
      × (b.wall_time ≡ a.wall_time)
      × (less (position a) (position b) ≡ true)
      × (((step interval ask s).0 ≡ none) ⊎ ((step interval ask s).0 ≡ some (position b)))
unfolding step get_timestamp_round less
step-ask s a n interval e room =
    let l = next_logical a.logical n room.0 room.1 in
    let b : AtomicObject = record {
      wall_time = a.wall_time;
      logical = pos (pos_part a.logical + 1);
    } in
    (
      b,
      rw (e, l) refl,
      (refl, omega arith),
      refl,
      ground arith,
      elim (Bool-cases (ltb_ℤ (pos (pos_part a.logical + 1)) max_logical)) [
        | inl h ↦ inr (rw (e, l, h) refl)
        | inr h ↦ inl (rw (e, l, h) refl)
      ],
    )

-- A millisecond on the monotonic clock is one on the wall clock.
steady-later :
    (boot : ℕ) (t u : Time)
    → IsSteady boot t
    → IsSteady boot u
    → (sub_time u t / nanos == 0) ≡ false
    → t.unix / nanos < u.unix / nanos
steady-later boot t u old new h =
    let some_left : 1 ≤ (u.monotonic - t.monotonic) / nanos = ground (arith, h) in
    omega (arith, old, new, some_left)

-- The update either leaves the object, or starts at a later millisecond.
update-later :
    (boot : ℕ) (s : Oracle) (a : AtomicObject) (interval : ℕ) (now : Time) (accepted : Bool)
    → s.ts ≡ some a
    → IsSteady boot a.wall_time
    → IsSteady boot now
    → (((save_timestamp interval accepted now s).1.ts ≡ some a))
      ⊎ (((save_timestamp interval accepted now s).1.ts
            ≡ some (record { wall_time = now; logical = pos 0 }))
          × (a.wall_time.unix / nanos < now.unix / nanos))
unfolding save_timestamp save_timestamp_to_db
update-later boot s a interval now accepted e old new =
    let later : (sub_time now a.wall_time / nanos == 0) ≡ false
        → a.wall_time.unix / nanos < now.unix / nanos =
      λ f. steady-later boot a.wall_time now old new f in
    elim (Bool-cases (sub_time now a.wall_time / nanos == 0)) [
      | inl h ↦ inl (ground arith)
      | inr h ↦ elim (Bool-cases (ltb interval (sub_time now s.last_saved_time / nanos))) [
        | inl g ↦ elim (Bool-cases accepted) [
          | inl f ↦ inr (ground arith, later h)
          | inr f ↦ inl (ground arith)
        ]
        | inr g ↦ inr (ground arith, later h)
      ]
    ]

step-update :
    (boot : ℕ) (s : Oracle) (a : AtomicObject) (n interval : ℕ) (now : Time) (accepted : Bool)
    → s.ts ≡ some a
    → IsSteady boot a.wall_time
    → IsSteady boot now
    → Room a (suc n)
    → (b : AtomicObject) × ((step interval (update now accepted) s).1.ts ≡ some b)
      × Room b n
      × IsSteady boot b.wall_time
      × ((b ≡ a) ⊎ (less (position a) (position b) ≡ true))
unfolding step less
step-update boot s a n interval now accepted e old new room =
    elim (update-later boot s a interval now accepted e old new) [
      | inl same ↦ (a, same, (room.0, omega arith), old, inl refl)
      | inr (moved, later) ↦ (
        record { wall_time = now; logical = pos 0 },
        moved,
        (refl, omega arith),
        new,
        inr (ground arith),
      )
    ]

-- Whatever etcd answers, the timestamps that a server gives out ascend strictly, from the last one of
-- its present object on, if the wall clock is not set between the readings and there is room for
-- the rounds before the logical part reaches 2^31.
pub given-Ascending :
    (boot interval : ℕ) (events : List Event) (s : Oracle) (a : AtomicObject)
    → s.ts ≡ some a
    → IsSteady boot a.wall_time
    → All (IsSteadyEvent boot) events
    → Room a (length events)
    → Ascending (position a) (given interval events s)
unfolding given step
given-Ascending boot interval [] s a e steady all room = tt
given-Ascending boot interval (update now accepted ∷ events) s a e steady all room =
    let (b, e', room', steady', order) =
      step-update boot s a (length events) interval now accepted e steady all.0 room in
    let rest =
      given-Ascending boot interval events (step interval (update now accepted) s).1 b e' steady'
        all.1 room' in
    elim order [
      | inl same ↦
          subst
            (λ (x : AtomicObject).
              Ascending (position x)
                (given interval events (step interval (update now accepted) s).1))
            same rest
      | inr later ↦ Ascending-trans (position a) (position b) _ later rest
    ]
given-Ascending boot interval (ask ∷ events) s a e steady all room =
    let (b, e', room', kept, order, answer) = step-ask s a (length events) interval e room in
    let rest =
      given-Ascending boot interval events (step interval ask s).1 b e'
        (subst (IsSteady boot) (sym kept) steady) all.1 room' in
    elim answer [
      | inl nothing ↦ rw nothing (Ascending-trans (position a) (position b) _ order rest)
      | inr there ↦ rw there (order, rest)
    ]
