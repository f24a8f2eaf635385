-- ===== src/Pd/Oracle/Restart.antt =====
-- What a server that takes over gives out is later than all that the one before it gave out.
use ancestor.Common.Int.{pos, add_int32, ℤ}
use ancestor.Common.{
  All, refl, subst, ℕ, Bool, some, List, [], ◌≡◌, arith, ◌<◌, ◌≤◌, ◌+◌, true, ◌*◌, ◌∷◌, ◌∙◌, ap,
  sym, Bool-cases, ◌/◌, ◌-◌, ◌==◌, inl, inr, ltb,
}
use ancestor.Meta.Timestamp.{less}
use ancestor.Pd.Oracle.{
  Oracle, AtomicObject, load_timestamp, load_timestamp_loop, load_timestamp_from_db, save_timestamp,
  save_timestamp_to_db, get_timestamp_round, nanos, ok, Time, sub_time, pos,
}
use ancestor.Pd.Oracle.Order.{Event, ask, update, step, position, update, IsSteady, IsSteadyEvent}

-- What etcd holds is the last time saved, and the present object is at most an interval and a
-- millisecond past it; the wall clock was not set between the readings of the two.
pub record Covers (boot interval : ℕ) (s : Oracle) (a : AtomicObject) : Type 0 where
  pub present : s.ts ≡ some a
  pub stored : s.saved ≡ some s.last_saved_time.unix
  pub near : a.wall_time.unix < s.last_saved_time.unix + (interval + 1) * nanos
  pub steady : IsSteady boot a.wall_time
  pub steady_saved : IsSteady boot s.last_saved_time

update-Covers :
    (boot interval : ℕ) (now : Time) (accepted : Bool) (s : Oracle) (a : AtomicObject)
    → IsSteady boot now
    → Covers boot interval s a
    → (b : AtomicObject) × Covers boot interval (save_timestamp interval accepted now s).1 b
unfolding save_timestamp save_timestamp_to_db
update-Covers boot interval now accepted s a new c =
    let moved : AtomicObject = record { wall_time = now; logical = pos 0 } in
    elim (Bool-cases (sub_time now a.wall_time / nanos == 0)) [
      | inl h ↦
          (a, subst (λ (x : Oracle). Covers boot interval x a) (ground (arith, c.present, h)) c)
      | inr h ↦ elim (Bool-cases (ltb interval (sub_time now s.last_saved_time / nanos))) [
        | inl g ↦ elim (Bool-cases accepted) [
          | inl f ↦
              let saved : Oracle = record {
                ts = some moved;
                last_saved_time = now;
                saved = some now.unix;
              } in
              let held : Covers boot interval saved moved = record {
                present = refl;
                stored = refl;
                near = omega arith;
                steady = new;
                steady_saved = new;
              } in
              (
                moved,
                subst (λ (x : Oracle). Covers boot interval x moved)
                    (ground (arith, c.present, h, g, f)) held,
              )
          | inr f ↦ (
            a,
            subst (λ (x : Oracle). Covers boot interval x a) (ground (arith, c.present, h, g, f)) c,
          )
        ]
        | inr g ↦
            let some_left : sub_time now s.last_saved_time / nanos ≤ interval = ground (arith, g) in
            let held : Covers boot interval (record s { ts = some moved }) moved = record {
              present = refl;
              stored = c.stored;
              near = omega (arith, some_left, new, c.steady_saved);
              steady = new;
              steady_saved = c.steady_saved;
            } in
            (
              moved,
              subst (λ (x : Oracle). Covers boot interval x moved) (ground (arith, c.present, h, g))
                  held,
            )
      ]
    ]

-- Each update, at a reading between which and the others the wall clock is not set, and each round
-- keep what etcd holds within an interval and a millisecond of the present object.
pub step-Covers :
    (boot interval : ℕ) (e : Event) (s : Oracle) (a : AtomicObject)
    → IsSteadyEvent boot e
    → Covers boot interval s a
    → (b : AtomicObject) × Covers boot interval (step interval e s).1 b
unfolding step save_timestamp save_timestamp_to_db get_timestamp_round
step-Covers boot interval ask s a new c = (
  record { wall_time = a.wall_time; logical = add_int32 a.logical (pos 1) },
  record {
    present = ground (arith, c.present);
    stored = ground (arith, c.present, c.stored);
    near = ground (arith, c.present, c.near);
    steady = c.steady;
    steady_saved = ground (arith, c.present, c.steady_saved);
  },
)
step-Covers boot interval (update now accepted) s a new c =
    update-Covers boot interval now accepted s a new c

-- A load that succeeds is two intervals past etcd's time at least.
load-late :
    (boot interval last : ℕ) (accepted : Bool) (readings : List Time) (s s' : Oracle)
    → All (IsSteady boot) readings
    → load_timestamp_loop interval accepted last readings s ≡ (ok, s')
    → (now : Time) × (last + 2 * interval * nanos ≤ now.unix)
      × (s'.ts ≡ some (record { wall_time = now; logical = pos 0 }))
      × (s'.saved ≡ some now.unix)
      × (s'.last_saved_time ≡ now)
      × IsSteady boot now
unfolding load_timestamp_loop save_timestamp_to_db
load-late boot interval last accepted [] s s' all h = absurd (cc h)
load-late boot interval last accepted (now ∷ readings) s s' all h =
    elim (Bool-cases ((now.unix - last) / nanos == 0)) [
      | inl e ↦ absurd (cc (rw e at h))
      | inr e ↦ elim (Bool-cases (ltb ((now.unix - last) / nanos) (2 * interval))) [
        | inl f ↦ load-late boot interval last accepted readings s s' all.1 (rw (e, f) at h)
        | inr f ↦ elim (Bool-cases accepted) [
          | inl g ↦ (now, ground arith, ground arith, ground arith, ground arith, all.0)
          | inr g ↦ absurd (cc (rw (e, f, g) at h))
        ]
      ]
    ]

less-walls :
    (v w : ℕ) (l : ℤ)
    → v < w
    → less
        (record { wall_time = pos v; logical = l })
        (record { wall_time = pos w; logical = pos 0 })
      ≡ true
unfolding less
less-walls v w l h = ground arith

apart :
    (interval wall now last : ℕ)
    → 2 ≤ interval
    → wall < last + (interval + 1) * nanos
    → last + 2 * interval * nanos ≤ now
    → wall / nanos < now / nanos
apart interval wall now last h near late = omega arith

-- Where a server's etcd holds a time within an interval and a millisecond of its present object, as
-- its updates and rounds keep it, and the interval is two milliseconds or more, a server that loads
-- that time with success starts past the last timestamp of the first, and etcd's time is near its own.
pub load-later :
    (boot boot' interval : ℕ) (accepted : Bool) (readings : List Time) (s s' new : Oracle)
    (a : AtomicObject)
    → 2 ≤ interval
    → All (IsSteady boot') readings
    → Covers boot interval s a
    → new.saved ≡ s.saved
    → load_timestamp interval accepted readings new ≡ (ok, s')
    → (b : AtomicObject) × Covers boot' interval s' b × (less (position a) (position b) ≡ true)
unfolding load_timestamp load_timestamp_from_db
load-later boot boot' interval accepted readings s s' new a wide all c same h =
    let (now, late, present, stored, last, steady) =
      load-late boot' interval s.last_saved_time.unix accepted readings new s' all
        (ground (arith, h, same, c.stored)) in
    (
      record { wall_time = now; logical = pos 0 },
      record {
        present = present;
        stored = stored ∙ ap (λ (t : Time). some t.unix) (sym last);
        near = ground (arith, last);
        steady = steady;
        steady_saved = subst (IsSteady boot') (sym last) steady;
      },
      less-walls (a.wall_time.unix / nanos) (now.unix / nanos) a.logical
          (apart interval a.wall_time.unix now.unix s.last_saved_time.unix wide c.near late),
    )
