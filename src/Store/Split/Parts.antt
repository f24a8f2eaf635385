-- ===== src/Store/Split/Parts.antt =====
-- What a split makes of a range and of its statistics.
use ancestor.Common.{
  Bytes, Bool, true, false, List, [], ◌∷◌, some, ◌≡◌, refl, arith, ◌∙◌, ◌&&◌, ◌||◌, bytes_less,
  bytes_less_trans, bytes_less_not_less, length, ◌<◌,
}
use ancestor.Common.Int.{
  ℤ, pos, negsuc, IsInt64, eq_ℤ, add_int64, sub_int64, int64, uint64, ◌+ℤ◌, ◌-ℤ◌,
}
use ancestor.Meta.Stats.{RangeStats}
use ancestor.Meta.Exec.{>>=-ok, Exec, ok, ◌>>=◌}
use ancestor.Replica.{validate_key_range}
use ancestor.Store.{Store, RangeDescriptor, set_at}
use ancestor.Store.Registered.{set_at-other}
use ancestor.Store.Split.{stats_of, fill_range_stats, change_stats}

-- The key is in the range of the descriptor.
abbrev pub holds : RangeDescriptor → Bytes → Bool
holds d key = validate_key_range d.start_key d.end_key key

less→length : (a b : Bytes) → bytes_less a b ≡ true → 0 < length b
unfolding bytes_less
less→length [] [] h = absurd (cc h)
less→length (x ∷ a) [] h = absurd (cc h)
less→length a (y ∷ b) h = omega arith

-- Two ranges that meet at a key above the start of the first.
pub validate-parts :
    (start mid end key : Bytes)
    → bytes_less start mid ≡ true
    → validate_key_range start end mid ≡ true
    → (validate_key_range start end key
        ≡ (validate_key_range start mid key || validate_key_range mid end key))
      × ((validate_key_range start mid key && validate_key_range mid end key) ≡ false)
unfolding validate_key_range
validate-parts start mid end key above valid = ground (
  arith,
  above,
  valid,
  bytes_less_trans key start mid,
  bytes_less_trans key mid end,
  bytes_less_not_less start mid key,
  less→length start mid,
  less→length key end,
  less→length mid end,
)

pub add_sub_int64 : (a b : ℤ) → IsInt64 a → IsInt64 b → add_int64 (sub_int64 a b) b ≡ a
unfolding int64 uint64 ◌+ℤ◌ ◌-ℤ◌
add_sub_int64 (pos m) (pos n) ha hb = ground arith
add_sub_int64 (pos m) (negsuc n) ha hb = ground arith
add_sub_int64 (negsuc m) (pos n) ha hb = ground arith
add_sub_int64 (negsuc m) (negsuc n) ha hb = ground arith

pub eq_sym : (a b : ℤ) → eq_ℤ a b ≡ false → eq_ℤ b a ≡ false
eq_sym a b h = ground arith

pub eq_ℤ→eq : (a b : ℤ) → eq_ℤ a b ≡ true → a ≡ b
eq_ℤ→eq (pos m) (pos n) h = ground (arith, h)
eq_ℤ→eq (pos m) (negsuc n) h = absurd (ground (arith, h))
eq_ℤ→eq (negsuc m) (pos n) h = absurd (ground (arith, h))
eq_ℤ→eq (negsuc m) (negsuc n) h = ground (arith, h)

change_stats-eq :
    (id : ℤ) (f : RangeStats → RangeStats) (rs : RangeStats) (s : Store)
    → s.range_stats id ≡ some rs
    → change_stats id f s
      ≡ (ok (f rs), record s { range_stats = set_at id (some (f rs)) s.range_stats })
unfolding change_stats
change_stats-eq id f rs s h = rw (change_stats, h) refl

module _ (bytes count : ℤ) where
  -- The statistics of the new range and of the old one after the split.
  abbrev pub new_stats : RangeStats → RangeStats
  new_stats rs = record rs { total_bytes = bytes; total_count = count }

  abbrev pub old_stats : RangeStats → RangeStats
  old_stats rs = record rs {
    total_bytes = sub_int64 rs.total_bytes bytes;
    total_count = sub_int64 rs.total_count count;
  }

  pub fill_range_stats-eq :
      (old_id new_id : ℤ) (x y : RangeStats) (s : Store)
      → eq_ℤ new_id old_id ≡ false
      → s.range_stats new_id ≡ some x
      → s.range_stats old_id ≡ some y
      → (l : List RangeStats) × (fill_range_stats old_id new_id bytes count s ≡ (
        ok l,
        record s {
          range_stats =
              set_at old_id (some (old_stats y)) (set_at new_id (some (new_stats x)) s.range_stats);
        },
      ))
  unfolding fill_range_stats
  fill_range_stats-eq old_id new_id x y s ne hx hy =
      let s₁ : Store = record s {
        range_stats = set_at new_id (some (new_stats x)) s.range_stats;
      } in
      let s₂ : Store = record s {
        range_stats =
            set_at old_id (some (old_stats y)) (set_at new_id (some (new_stats x)) s.range_stats);
      } in
      let answer : RangeStats → Exec Store (List RangeStats) = λ old s. (
        ok (
            stats_of s.node_id new_id bytes count
            ∷ stats_of s.node_id old_id old.total_bytes old.total_count
            ∷ []),
        s,
      ) in
      let first = change_stats-eq new_id new_stats x s hx in
      let second =
        change_stats-eq old_id old_stats y s₁
          (set_at-other new_id old_id (some (new_stats x)) s.range_stats ne ∙ hy) in
      (
        stats_of s.node_id new_id bytes count
            ∷ stats_of s.node_id old_id (old_stats y).total_bytes (old_stats y).total_count
            ∷ [],
        >>=-ok (change_stats new_id new_stats) (λ _. change_stats old_id old_stats >>= answer)
              (new_stats x) s s₁ first
            ∙ >>=-ok (change_stats old_id old_stats) answer (old_stats y) s₁ s₂ second,
      )
