-- ===== src/Raft/Keys/Next.antt =====
-- Keys in an iteration: BytesNext of a key, and keys that are not empty.
use ancestor.Common.{
  Bytes, ℕ, [], ◌∷◌, ◌≡◌, arith, bytes_less, not, ◌≢◌, refl, false, ◌∙◌, ap, true, Bool-cases,
  length, inl, inr, sym, length-append, bytes_less_trans, append-nil,
}
use ancestor.Encoding.{encode_bytes}
use ancestor.Encoding.Escape.{encode_bytes-append, escape_all}
use ancestor.Meta.Key.{new_mvcc_key}
use ancestor.Meta.Key.{bytes_next}
use ancestor.Raft.Keys.{raft_log_key}
use ancestor.Raft.Keys.{raft_log_key}

-- BytesNext gives the next byte string.
pub less-bytes_next : (a b : Bytes) → bytes_less a (bytes_next b) ≡ not (bytes_less b a)
unfolding bytes_less bytes_next
less-bytes_next [] [] = refl
less-bytes_next [] (y ∷ b) = refl
less-bytes_next (x ∷ []) [] = ground arith
less-bytes_next (x ∷ z ∷ a) [] = ground arith
less-bytes_next (x ∷ a) (y ∷ b) = ground (arith, less-bytes_next a b)

encode_bytes_ne_nil : (b : Bytes) → encode_bytes [] b ≢ []
encode_bytes_ne_nil b e =
    let long =
      ap (λ (q : Bytes). length q)
        (sym (encode_bytes-append b []) ∙ (append-nil (encode_bytes [] b) ∙ e)) in
    omega (arith, length-append {0} (escape_all b) (0x00 ∷ 0x01 ∷ []), long)

pub log_key_ne_nil : (id i : ℕ) → raft_log_key id i ≢ []
unfolding raft_log_key new_mvcc_key
log_key_ne_nil id i e = encode_bytes_ne_nil _ e

pub bytes_next_ne_nil : (b : Bytes) → bytes_next b ≢ []
unfolding bytes_next
bytes_next_ne_nil b e =
    let long = ap (λ (q : Bytes). length q) e in omega (arith, length-append {0} b (0 ∷ []), long)

-- No key lies strictly between two strings that are not in order.
pub not_between :
    (a j b : Bytes) → bytes_less a b ≡ false → bytes_less a j ≡ true → bytes_less j b ≡ false
not_between a j b h k = elim (Bool-cases (bytes_less j b)) [
  | inl e ↦ absurd (cc (h, bytes_less_trans a j b k e))
  | inr e ↦ e
]
