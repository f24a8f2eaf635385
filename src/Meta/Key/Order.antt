-- ===== src/Meta/Key/Order.antt =====
-- The order of encoded keys: by the key, then the metadata, then the versions from the newest on.
use mathlib.Core.Path.{ap₂}
use ancestor.Common.{
  bytes_less, ◌≡◌, arith, if◌then◌else◌, true, [], bytes_equal, append-nil, ◌∙◌, ap, ltb, ℕ, ◌==◌,
  bytes_less_append, ◌++◌, ◌<◌, refl, sym, ◌^◌, bytes_less→not_equal, bytes_equal_refl, ◌≢◌,
  not_less_nil, false, Bool-cases, inl, bytes_equal→eq, bytes_less_irrefl, inr,
}
use ancestor.Common.Int.{pos_part}
use ancestor.Encoding.{
  encode_uint64_decreasing, encode_uint32_decreasing, encode_bytes, encode_uint64,
}
use ancestor.Encoding.Uint.{less-encode_uint64_decreasing, less-encode_uint32_decreasing}
use ancestor.Encoding.Escape.{less-encode_bytes}
use ancestor.Meta.Timestamp.{Timestamp, IsTimestamp, less}
use ancestor.Meta.Key.{new_mvcc_key, new_mvcc_time_key, Bytes}
use ancestor.Meta.Key.Parts.{encode_timestamp, time_key-eq-append, uint64-wall_time, uint32-logical}

less_logical :
    (x y : ℕ)
    → x < 2 ^ 32
    → y < 2 ^ 32
    → bytes_less (encode_uint32_decreasing [] x) (encode_uint32_decreasing [] y) ≡ ltb y x
less_logical x y hx hy =
    ap₂ bytes_less (sym (append-nil (encode_uint32_decreasing [] x)))
      (sym (append-nil (encode_uint32_decreasing [] y)))
    ∙ less-encode_uint32_decreasing x y [] [] hx hy
    ∙ unfold bytes_less in ground arith

less_parts :
    (a b : Timestamp)
    → IsTimestamp a
    → IsTimestamp b
    → (if pos_part a.wall_time == pos_part b.wall_time
        then ltb (pos_part b.logical) (pos_part a.logical)
        else ltb (pos_part b.wall_time) (pos_part a.wall_time))
      ≡ less b a
unfolding less
less_parts a b ha hb = ground arith

-- A later timestamp sorts first.
pub less-encode_timestamp :
    (a b : Timestamp)
    → IsTimestamp a
    → IsTimestamp b
    → bytes_less (encode_timestamp a) (encode_timestamp b) ≡ less b a
unfolding encode_timestamp
less-encode_timestamp a b ha hb =
    rw (uint64-wall_time a ha, uint64-wall_time b hb, uint32-logical a ha, uint32-logical b hb)
      (less-encode_uint64_decreasing (pos_part a.wall_time) (pos_part b.wall_time)
          (encode_uint32_decreasing [] (pos_part a.logical))
          (encode_uint32_decreasing [] (pos_part b.logical)) (omega arith) (omega arith)
        ∙ ap
            (λ r.
              if pos_part a.wall_time == pos_part b.wall_time
              then r
              else ltb (pos_part b.wall_time) (pos_part a.wall_time))
            (less_logical (pos_part a.logical) (pos_part b.logical) (omega arith) (omega arith))
        ∙ less_parts a b ha hb)

-- The encoded keys of versions are in the order of the keys, and the versions of one key stand from
-- the newest to the oldest.
pub less-new_mvcc_time_key :
    (k l : Bytes) (a b : Timestamp)
    → IsTimestamp a
    → IsTimestamp b
    → bytes_less (new_mvcc_time_key k a) (new_mvcc_time_key l b)
      ≡ (if bytes_equal k l then less b a else bytes_less k l)
unfolding new_mvcc_key
less-new_mvcc_time_key k l a b ha hb =
    rw (time_key-eq-append k a, time_key-eq-append l b)
      (less-encode_bytes k l (encode_timestamp a) (encode_timestamp b)
        ∙ ap (λ r. if bytes_equal k l then r else bytes_less k l) (less-encode_timestamp a b ha hb))

-- The metadata of a key stands before its versions.
pub less-key-time_key :
    (k : Bytes) (a : Timestamp) → bytes_less (new_mvcc_key k) (new_mvcc_time_key k a) ≡ true
unfolding encode_timestamp encode_uint64_decreasing encode_uint64 bytes_less
less-key-time_key k a =
    rw (time_key-eq-append k a) (bytes_less_append (new_mvcc_key k) (encode_timestamp a) refl)

-- The versions of a key stand before the metadata of a later key.
pub less-time_key-key :
    (k l : Bytes) (a : Timestamp)
    → bytes_less k l ≡ true
    → bytes_less (new_mvcc_time_key k a) (new_mvcc_key l) ≡ true
unfolding new_mvcc_key
less-time_key-key k l a h = rw (time_key-eq-append k a) (
    ap (bytes_less (encode_bytes [] k ++ encode_timestamp a)) (sym (append-nil (encode_bytes [] l)))
    ∙ less-encode_bytes k l (encode_timestamp a) []
    ∙ rw (bytes_less→not_equal k l h) h)

-- The order of two versions of one key.
pub less-versions :
    (k : Bytes) (a b : Timestamp)
    → IsTimestamp a
    → IsTimestamp b
    → bytes_less (new_mvcc_time_key k a) (new_mvcc_time_key k b) ≡ less b a
less-versions k a b ha hb =
    less-new_mvcc_time_key k k a b ha hb
    ∙ ap (λ r. if r then less b a else bytes_less k k) (bytes_equal_refl k)

pub time_key_ne_nil : (k : Bytes) (a : Timestamp) → new_mvcc_time_key k a ≢ []
time_key_ne_nil k a e =
    cc (less-key-time_key k a, ap (bytes_less (new_mvcc_key k)) e, not_less_nil (new_mvcc_key k))

pub time_key_ne_key :
    (k : Bytes) (a : Timestamp) → bytes_equal (new_mvcc_time_key k a) (new_mvcc_key k) ≡ false
time_key_ne_key k a = elim (Bool-cases (bytes_equal (new_mvcc_time_key k a) (new_mvcc_key k))) [
  | inl e ↦ cc (
    less-key-time_key k a,
    ap (bytes_less (new_mvcc_key k)) (bytes_equal→eq _ _ e),
    bytes_less_irrefl (new_mvcc_key k),
  )
  | inr e ↦ e
]
