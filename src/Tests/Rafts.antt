-- ===== src/Tests/Rafts.antt =====
-- A raft log in the tests.
use ancestor.Common.{
  Bytes, ℕ, [], ◌∷◌, some, none, ◌≡◌, ◌≤◌, ◌<◌, ◌^◌, refl, true, false, arith, inl, inr, subst,
  bytes_equal, bytes_less, lt_or_eq_or_gt, if◌then◌else◌, ◌∙◌, ◌⊎◌, bytes_equal_iff, leb,
}
use ancestor.Encoding.{encode_bytes}
use ancestor.Meta.Key.{new_mvcc_key}
use ancestor.Raft.Snapshot.{
  Snapshot, apply_snapshot, data_of, visited, apply_keys, clear, clear_keys, write_keys,
}
use ancestor.Raft.Snapshot.Restore.{apply-data}
use ancestor.Raft.Keys.{raft_last_index_key, raft_applied_index_key, decimal}
use ancestor.Raft.Log.{clear_batch, commit_offset}
use ancestor.Engine.{done}
use ancestor.Engine.Memory.{memory, lookup, SortedTable}
use ancestor.Meta.Value.{get-set, get_int, set_int, get_bytes, set_bytes, got, refused, no_value}
use ancestor.Common.Int.{negsuc}
use ancestor.Meta.Message.{bad_tag}
use ancestor.Meta.Exec.{ok}
use ancestor.Raft.State.{Raft, Entry, clear_db}
use ancestor.Raft.Keys.{raft_log_key, padded, digits, drop_zeros}
use ancestor.Raft.Keys.Order.{log_key_order}
use ancestor.Raft.Index.Stored.{load-set_indices}
use ancestor.Raft.Log.Compact.{compact-effect}
use ancestor.Raft.Index.{
  load_raft_prev_index, load_last_index, load_applied_index, set_last_index, set_applied_index,
}
use ancestor.Raft.State.{put_db}
use ancestor.Raft.Log.Append.{append-refines, latest, log_of}
use ancestor.Raft.Log.{put_entries, clear_entries, last_of, entries, term, append, compact}
use ancestor.Raft.Log.Stored.{stored, OnlyEntries}
use ancestor.Raft.Log.Entries.{entries-stored, term-stored}
use ancestor.Tests.Codec.{codec}
use ancestor.Tests.RaftCodec.{raft_codec}
use ancestor.Tests.Data.{no_stats, start}

abbrev log_entry : ℕ → Entry
log_entry i = record { index = i; term = 3; content = 97 ∷ [] }

abbrev empty_log : Raft memory
empty_log = record {
  db = start.db;
  range_id = 1;
  start_key = 2 ∷ [];
  end_key = 9 ∷ [];
  offset_index = 0;
  last_index = 0;
  applied_index = 0;
  truncate_index = 0;
  truncate_term = 0;
  stats = no_stats;
}

abbrev appended : Raft memory
appended = (append memory raft_codec (log_entry 5 ∷ log_entry 6 ∷ []) empty_log).1

append_succeeds :
    append memory raft_codec (log_entry 5 ∷ log_entry 6 ∷ []) empty_log ≡ (ok tt, appended)
unfolding append memory put_entries put_db clear_entries last_of set_last_index codec
append_succeeds = refl

append-refines_example :
    (appended ≡ record empty_log { db = appended.db; last_index = 6 })
    × ((i : ℕ)
        → log_of memory raft_codec appended i ≡ (
            if leb i 6
            then latest (log_entry 5 ∷ log_entry 6 ∷ []) i (stored memory raft_codec start.db 1 i)
            else none))
unfolding last_of
append-refines_example =
    append-refines memory raft_codec (log_entry 5) (log_entry 6 ∷ []) empty_log appended
      (omega arith, (omega arith, tt)) (omega arith) append_succeeds

-- An engine with two entries.
two_in_order : bytes_less (raft_log_key 1 5) (raft_log_key 1 6) ≡ true
two_in_order = log_key_order 1 5 6 (omega arith) (omega arith) ∙ ground arith

abbrev two_entries : SortedTable
two_entries = (
  (raft_log_key 1 5, 5 ∷ 3 ∷ 97 ∷ []) ∷ (raft_log_key 1 6, 6 ∷ 3 ∷ 97 ∷ []) ∷ [],
  ((two_in_order, tt), (tt, tt)),
)

unfoldable two : Raft memory
unfolding memory
two = record empty_log { db = two_entries; last_index = 6 }

lookup-two : (j v x y a b : Bytes) → lookup j ((a, x) ∷ (b, y) ∷ []) ≡ some v → (j ≡ a) ⊎ (j ≡ b)
unfolding lookup
lookup-two j v x y a b h = ground (arith, h, bytes_equal_iff a j, bytes_equal_iff b j)

two-OnlyEntries : OnlyEntries memory two.db 1
unfolding two memory
two-OnlyEntries j v hi small h ge le =
    elim (lookup-two j v (5 ∷ 3 ∷ 97 ∷ []) (6 ∷ 3 ∷ 97 ∷ []) (raft_log_key 1 5) (raft_log_key 1 6)
      (ground (arith, h))) [ inl e ↦ (5, omega arith, e) | inr e ↦ (6, omega arith, e) ]

stored-two :
    (stored memory raft_codec two.db 1 5 ≡ some (log_entry 5))
    × (stored memory raft_codec two.db 1 6 ≡ some (log_entry 6))
unfolding two memory stored lookup bytes_equal raft_log_key new_mvcc_key encode_bytes padded digits
    drop_zeros
stored-two = (refl, refl)

two_stored : (i : ℕ) → 5 ≤ i → i < 7 → stored memory raft_codec two.db 1 i ≡ some (log_entry i)
two_stored i lo hi = elim (lt_or_eq_or_gt i 6) [
  | inl h ↦
      let e : 5 ≡ i = omega arith in
      subst (λ n. stored memory raft_codec two.db 1 n ≡ some (log_entry n)) e stored-two.0
  | inr (inl h) ↦
      let e : 6 ≡ i = omega arith in
      subst (λ n. stored memory raft_codec two.db 1 n ≡ some (log_entry n)) e stored-two.1
  | inr (inr h) ↦ absurd (omega arith)
]

entries-stored_example :
    entries memory raft_codec 5 7 two ≡ (ok (log_entry 5 ∷ log_entry 6 ∷ []), two)
unfolding two
entries-stored_example =
    entries-stored memory raft_codec 5 7 log_entry two two-OnlyEntries (omega arith) (omega arith)
      (omega arith) two_stored

term-stored_example : term memory raft_codec 6 two ≡ (ok 3, two)
unfolding two
term-stored_example =
    term-stored memory raft_codec 6 (log_entry 6) two two-OnlyEntries (omega arith) (omega arith)
      stored-two.1

abbrev compacted : Raft memory
compacted = (compact memory raft_codec 6 true two).1

compact_succeeds : compact memory raft_codec 6 true two ≡ (ok tt, compacted)
unfolding compact two memory bytes_less raft_log_key new_mvcc_key encode_bytes padded clear_batch
    commit_offset codec
compact_succeeds = refl

compact-effect_example :
    (compacted ≡ record two { db = compacted.db; offset_index = 6 })
    × ((i : ℕ) → i < 6 → stored memory raft_codec compacted.db 1 i ≡ none)
    × ((i : ℕ)
        → 6 ≤ i
        → i < 10 ^ 16
        → stored memory raft_codec compacted.db 1 i ≡ stored memory raft_codec two.db 1 i)
unfolding two
compact-effect_example =
    compact-effect memory raft_codec 6 true two compacted (omega arith) compact_succeeds

abbrev last_set : Raft memory
last_set = (set_last_index memory raft_codec 7 empty_log).1

abbrev both_set : Raft memory
both_set = (set_applied_index memory raft_codec 6 last_set).1

last_set_succeeds : set_last_index memory raft_codec 7 empty_log ≡ (ok tt, last_set)
unfolding set_last_index memory codec put_db
last_set_succeeds = refl

both_set_succeeds : set_applied_index memory raft_codec 6 last_set ≡ (ok tt, both_set)
unfolding set_applied_index set_last_index memory codec put_db
both_set_succeeds = refl

-- A replica that starts over.
abbrev restarted : Raft memory
restarted = record both_set { last_index = 0; applied_index = 0 }

load-set_indices_example :
    (both_set.last_index ≡ 7)
    × (both_set.applied_index ≡ 6)
    × (load_last_index memory raft_codec restarted ≡ (ok 7, restarted))
    × (load_applied_index memory raft_codec restarted ≡ (ok 6, restarted))
    × ((load_raft_prev_index memory raft_codec restarted).last_index ≡ 7)
    × ((load_raft_prev_index memory raft_codec restarted).applied_index ≡ 6)
load-set_indices_example =
    load-set_indices memory raft_codec 7 6 empty_log last_set both_set restarted (omega arith)
      (omega arith) last_set_succeeds both_set_succeeds refl refl

-- A range with two keys, and a replica of it with another.
abbrev one_table : SortedTable
one_table = ((3 ∷ [], 97 ∷ []) ∷ [], ((tt, tt)))

abbrev other_table : SortedTable
other_table = ((4 ∷ [], 98 ∷ []) ∷ [], ((tt, tt)))

unfoldable source : Raft memory
unfolding memory
source = record empty_log { db = one_table }

unfoldable target : Raft memory
unfolding memory
target = record empty_log { db = other_table }

abbrev snap : Snapshot
snap = record { content = 3 ∷ 97 ∷ []; index = 8; term = 3; nodes = [] }

abbrev applied : Raft memory
applied = (apply_snapshot memory raft_codec snap target).1

source_data : data_of memory raft_codec source ≡ (ok (3 ∷ 97 ∷ []), source)
unfolding data_of memory source visited bytes_less
source_data = refl

apply_succeeds : apply_snapshot memory raft_codec snap target ≡ (ok tt, applied)
unfolding apply_snapshot memory target apply_keys clear clear_keys bytes_less clear_db write_keys
    put_db set_last_index codec set_applied_index
apply_succeeds = refl

last_key_below : bytes_less (raft_last_index_key 1) (2 ∷ []) ≡ true
unfolding bytes_less raft_last_index_key new_mvcc_key encode_bytes decimal
last_key_below = refl

applied_key_below : bytes_less (raft_applied_index_key 1) (2 ∷ []) ≡ true
unfolding bytes_less raft_applied_index_key new_mvcc_key encode_bytes decimal
applied_key_below = refl

apply-data_example :
    ((j : Bytes)
      → bytes_less j (2 ∷ []) ≡ false
      → bytes_less j (9 ∷ []) ≡ true
      → (memory.get applied.db j ≡ memory.get source.db j)
        ⊎ ((memory.get source.db j ≡ done none)
            × (memory.get applied.db j ≡ memory.get target.db j)))
    × ((j : Bytes)
        → (bytes_less j (2 ∷ []) ≡ true) ⊎ (bytes_less j (9 ∷ []) ≡ false)
        → bytes_equal (raft_last_index_key 1) j ≡ false
        → bytes_equal (raft_applied_index_key 1) j ≡ false
        → memory.get applied.db j ≡ memory.get target.db j)
    × (applied.last_index ≡ 8)
    × (applied.applied_index ≡ 8)
    × (applied.truncate_index ≡ 8)
    × (applied.truncate_term ≡ 3)
unfolding source target
apply-data_example =
    apply-data memory raft_codec snap source source target applied source_data refl refl
      last_key_below applied_key_below apply_succeeds

get-set_example :
    (get_int (set_int (negsuc 4) no_value) ≡ got (negsuc 4))
    × (get_bytes (set_bytes (97 ∷ []) no_value) ≡ got (97 ∷ []))
    × (get_int (set_bytes (97 ∷ []) no_value) ≡ refused bad_tag)
    × (get_bytes (set_int (negsuc 4) no_value) ≡ refused bad_tag)
get-set_example = get-set (negsuc 4) (97 ∷ []) no_value (omega arith)
