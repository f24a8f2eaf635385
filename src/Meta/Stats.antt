-- ===== src/Meta/Stats.antt =====
-- meta/stats.go: the size of a range. The lock is held for the whole call.
use ancestor.Common.{ℕ, if◌then◌else◌, not, ◌==◌, ◌||◌, Bool}
use ancestor.Common.Int.{ℤ, pos, add_int64, sub_int64}

-- RangeStatsInfo (meta/stats.proto).
pub record RangeStats : Type 0 where
  pub node_id : ℤ
  pub range_id : ℤ
  pub total_bytes : ℤ
  pub total_count : ℤ
  pub is_raft_leader : Bool
  pub is_removed : Bool

abbrev add_new : ℕ → ℕ → RangeStats → RangeStats
add_new key_size value_size rs =
    if not (key_size == 0) || not (value_size == 0)
    then record rs {
      total_bytes = add_int64 (add_int64 rs.total_bytes (pos key_size)) (pos value_size);
      total_count = add_int64 rs.total_count (pos 1);
    }
    else rs

abbrev subtract_old : ℕ → ℕ → RangeStats → RangeStats
subtract_old key_size value_size rs =
    if not (key_size == 0) || not (value_size == 0)
    then record rs {
      total_bytes = sub_int64 (sub_int64 rs.total_bytes (pos key_size)) (pos value_size);
      total_count = sub_int64 rs.total_count (pos 1);
    }
    else rs

-- UpdateRangeStats
unfoldable pub update_range_stats : ℕ → ℕ → ℕ → ℕ → RangeStats → RangeStats
update_range_stats orig_key_size orig_val_size key_size value_size rs =
    subtract_old orig_key_size orig_val_size (add_new key_size value_size rs)
