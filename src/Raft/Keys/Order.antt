-- ===== src/Raft/Keys/Order.antt =====
-- The keys of one range's log are in the order of the indices.
use ancestor.Common.{
  Bytes, ℕ, zero, suc, [], ◌∷◌, ◌++◌, ◌≡◌, ◌+◌, ◌<◌, arith, bytes_less, if◌then◌else◌, ltb, ◌==◌,
  append_assoc, ◌/◌, ◌^◌, ◌%◌, refl, ◌∙◌, ap, bytes_less_prefix, lt_or_eq_or_gt, append-nil,
  bytes_equal, sym, bytes_less_irrefl, inl, bytes_less→not_equal, inr, bytes_equal_refl,
  bytes_less→not_equal_flip, false, true,
}
use mathlib.Core.Path.{ap₂}
use ancestor.Meta.Key.{new_mvcc_key}
use ancestor.Encoding.{encode_bytes}
use ancestor.Encoding.Escape.{less-encode_bytes}
use ancestor.Raft.Keys.{
  log_key_prefix, digits, pow_ten, padded, raft_log_key, drop_zeros, raft_last_index_key,
  raft_applied_index_key, raft_offset_index_key, last_index_prefix, decimal, applied_index_prefix,
  offset_index_prefix,
}

-- The order of fixed numbers of digits with what follows them.
less-digits :
    (k m n : ℕ) (s t : Bytes)
    → m < pow_ten k
    → n < pow_ten k
    → bytes_less (digits k m ++ s) (digits k n ++ t) ≡ (if m == n then bytes_less s t else ltb m n)
unfolding digits bytes_less
less-digits zero m n s t hm hn = ground arith
less-digits (suc k) m n s t hm hn =
    rw
      (
        append_assoc (digits k (m / 10)) ((48 + m % 10) ∷ []) s,
        append_assoc (digits k (n / 10)) ((48 + n % 10) ∷ []) t,
      )
      (less-digits k (m / 10) (n / 10) ((48 + m % 10) ∷ s) ((48 + n % 10) ∷ t) (omega arith)
          (omega arith)
        ∙ ground arith)

-- Below 10 ^ 16 a padded number is its sixteen digits.
padded-eq-digits : (n : ℕ) → n < 10 ^ 16 → padded n ≡ digits 16 n
unfolding padded digits drop_zeros
padded-eq-digits n h = let e : n / 10 ^ 16 ≡ 0 = omega arith in rw e refl

log_key_eq :
    (id i : ℕ)
    → raft_log_key id i ≡ encode_bytes [] ((log_key_prefix ++ (padded id ++ b'_' ∷ [])) ++ padded i)
unfolding raft_log_key new_mvcc_key
log_key_eq id i = ap (encode_bytes []) (
    ap (λ (q : Bytes). log_key_prefix ++ q) (sym (append_assoc (padded id) (b'_' ∷ []) (padded i))))

abbrev stem : ℕ → Bytes
stem id = log_key_prefix ++ (padded id ++ b'_' ∷ [])

less-stem :
    (id i j : ℕ)
    → i < 10 ^ 16
    → j < 10 ^ 16
    → bytes_less (stem id ++ padded i) (stem id ++ padded j) ≡ ltb i j
less-stem id i j hi hj =
    bytes_less_prefix (stem id) (padded i) (padded j)
    ∙ rw (padded-eq-digits i hi, padded-eq-digits j hj)
        (ap₂ bytes_less (sym (append-nil (digits 16 i))) (sym (append-nil (digits 16 j)))
          ∙ (less-digits 16 i j [] [] (omega arith) (omega arith)
              ∙ rw (bytes_less_irrefl []) (ground arith)))

-- What follows the keys of two entries of one log matters only where their indices are equal.
pub less-raft_log_key :
    (id i j : ℕ) (s t : Bytes)
    → i < 10 ^ 16
    → j < 10 ^ 16
    → bytes_less (raft_log_key id i ++ s) (raft_log_key id j ++ t)
      ≡ (if i == j then bytes_less s t else ltb i j)
less-raft_log_key id i j s t hi hj =
    let a = stem id ++ padded i in
    let b = stem id ++ padded j in
    rw (log_key_eq id i, log_key_eq id j)
      (less-encode_bytes a b s t ∙ elim (lt_or_eq_or_gt i j) [
        | inl h ↦ ground (arith, less-stem id i j hi hj, bytes_less→not_equal a b)
        | inr (inl h) ↦ ground (arith, h, bytes_equal_refl a)
        | inr (inr h) ↦
            ground
              (arith, less-stem id i j hi hj, less-stem id j i hj hi, bytes_less→not_equal_flip b a)
      ])

-- The keys of a log are in the order of the indices.
pub log_key_order :
    (id i j : ℕ)
    → i < 10 ^ 16
    → j < 10 ^ 16
    → bytes_less (raft_log_key id i) (raft_log_key id j) ≡ ltb i j
log_key_order id i j hi hj =
    ap₂ bytes_less (sym (append-nil (raft_log_key id i))) (sym (append-nil (raft_log_key id j)))
    ∙ (less-raft_log_key id i j [] [] hi hj ∙ rw (bytes_less_irrefl []) (ground arith))

pub log_key_equal :
    (id i j : ℕ)
    → i < 10 ^ 16
    → j < 10 ^ 16
    → bytes_equal (raft_log_key id i) (raft_log_key id j) ≡ (i == j)
log_key_equal id i j hi hj = elim (lt_or_eq_or_gt i j) [
  | inl h ↦ ground (
    arith,
    log_key_order id i j hi hj,
    bytes_less→not_equal (raft_log_key id i) (raft_log_key id j),
  )
  | inr (inl h) ↦ rw h (ground (arith, bytes_equal_refl (raft_log_key id j)))
  | inr (inr h) ↦ ground (
    arith,
    log_key_order id j i hj hi,
    bytes_less→not_equal_flip (raft_log_key id j) (raft_log_key id i),
  )
]

-- Two encoded strings in order differ, either way round.
encode_bytes-differ :
    (a b : Bytes)
    → bytes_less a b ≡ true
    → (bytes_equal (encode_bytes [] a) (encode_bytes [] b) ≡ false)
      × (bytes_equal (encode_bytes [] b) (encode_bytes [] a) ≡ false)
encode_bytes-differ a b h =
    let less : bytes_less (encode_bytes [] a) (encode_bytes [] b) ≡ true =
      ap₂ bytes_less (sym (append-nil (encode_bytes [] a))) (sym (append-nil (encode_bytes [] b)))
      ∙ (less-encode_bytes a b [] [] ∙ rw (bytes_less→not_equal a b h) h) in
    (
      bytes_less→not_equal (encode_bytes [] a) (encode_bytes [] b) less,
      bytes_less→not_equal_flip (encode_bytes [] a) (encode_bytes [] b) less,
    )

-- The keys of the indices and of the entries of a range differ.
pub index_keys_differ :
    (id i : ℕ)
    → (bytes_equal (raft_last_index_key id) (raft_log_key id i) ≡ false)
      × (bytes_equal (raft_applied_index_key id) (raft_log_key id i) ≡ false)
      × (bytes_equal (raft_applied_index_key id) (raft_last_index_key id) ≡ false)
      × (bytes_equal (raft_last_index_key id) (raft_applied_index_key id) ≡ false)
      × (bytes_equal (raft_offset_index_key id) (raft_log_key id i) ≡ false)
unfolding raft_last_index_key raft_applied_index_key raft_log_key raft_offset_index_key new_mvcc_key
    bytes_less
index_keys_differ id i =
    let log_end = padded id ++ b'_' ∷ padded i in
    (
      (encode_bytes-differ (log_key_prefix ++ log_end) (last_index_prefix ++ decimal id) refl).1,
      (encode_bytes-differ (applied_index_prefix ++ decimal id) (log_key_prefix ++ log_end) refl).0,
      (encode_bytes-differ (applied_index_prefix ++ decimal id) (last_index_prefix ++ decimal id)
          refl).0,
      (encode_bytes-differ (applied_index_prefix ++ decimal id) (last_index_prefix ++ decimal id)
          refl).1,
      (encode_bytes-differ (log_key_prefix ++ log_end) (offset_index_prefix ++ decimal id) refl).1,
    )
