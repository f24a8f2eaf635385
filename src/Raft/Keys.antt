-- ===== src/Raft/Keys.antt =====
-- The keys of storage/replica_raftstorage.go, and of util/keys.go, and the numbers in them as
-- fmt.Sprintf writes them.
pub mod Order
pub mod Next
use ancestor.Common.{
  Bytes, ℕ, zero, suc, List, [], ◌∷◌, ◌++◌, ◌+◌, ◌/◌, ◌%◌, ◌*◌, if◌then◌else◌, ◌==◌, ◌^◌,
}
use ancestor.Meta.Key.{new_mvcc_key}

abbrev pub pow_ten : ℕ → ℕ
pow_ten zero = 1
pow_ten (suc k) = 10 * pow_ten k

-- The last `k` decimal digits.
unfoldable pub digits : ℕ → ℕ → Bytes
digits zero n = []
digits (suc k) n = digits k (n / 10) ++ (48 + n % 10) ∷ []

unfoldable pub drop_zeros : Bytes → Bytes
drop_zeros [] = []
drop_zeros (c ∷ b) = let rest = drop_zeros b in if c == 48 then rest else c ∷ b

-- %v and %d of a number that is not negative and below 2 ^ 64.
unfoldable pub decimal : ℕ → Bytes
unfolding digits drop_zeros
decimal n = if n == 0 then 48 ∷ [] else drop_zeros (digits 20 n)

-- %.16d: sixteen digits at least.
unfoldable pub padded : ℕ → Bytes
unfolding drop_zeros digits
padded n = drop_zeros (digits 4 (n / 10 ^ 16)) ++ digits 16 n

-- The prefixes of util/keys.go: a zero byte and four letters.
abbrev pub hard_state_prefix : Bytes
hard_state_prefix = 0 ∷ b'r' ∷ b'f' ∷ b'h' ∷ b's' ∷ []

abbrev pub applied_index_prefix : Bytes
applied_index_prefix = 0 ∷ b'r' ∷ b'f' ∷ b'a' ∷ b'i' ∷ []

abbrev pub last_index_prefix : Bytes
last_index_prefix = 0 ∷ b'r' ∷ b'f' ∷ b'l' ∷ b'i' ∷ []

abbrev pub log_key_prefix : Bytes
log_key_prefix = 0 ∷ b'r' ∷ b'f' ∷ b'l' ∷ b'g' ∷ []

abbrev pub offset_index_prefix : Bytes
offset_index_prefix = 0 ∷ b'r' ∷ b'f' ∷ b'o' ∷ b'f' ∷ []

-- The raft keys of a range whose id is not negative.
unfoldable pub raft_hard_state_key : ℕ → Bytes
raft_hard_state_key id = new_mvcc_key (hard_state_prefix ++ decimal id)

unfoldable pub raft_applied_index_key : ℕ → Bytes
raft_applied_index_key id = new_mvcc_key (applied_index_prefix ++ decimal id)

unfoldable pub raft_last_index_key : ℕ → Bytes
raft_last_index_key id = new_mvcc_key (last_index_prefix ++ decimal id)

unfoldable pub raft_offset_index_key : ℕ → Bytes
raft_offset_index_key id = new_mvcc_key (offset_index_prefix ++ decimal id)

unfoldable pub raft_log_key : ℕ → ℕ → Bytes
raft_log_key id index = new_mvcc_key (log_key_prefix ++ (padded id ++ b'_' ∷ padded index))
