-- ===== src/Mvcc/Store/Versions.antt =====
-- The versions of a key in an engine, as the encoded keys spell them.
use ancestor.Common.{
  Bytes, ◌++◌, ◌≡◌, some, none, false, sym, [], true, ◌⊎◌, ◌∙◌, ap, Bool-cases, bytes_equal, inl,
  append-nil, bytes_equal→eq, inr,
}
use ancestor.Engine.{Engine, done}
use ancestor.Encoding.{ok, decode_bytes}
use ancestor.Encoding.Escape.{decode_bytes-encode_bytes}
use ancestor.Meta.Key.{new_mvcc_key, new_mvcc_time_key}
use ancestor.Meta.Key.Parts.{encode_timestamp, time_key-eq-append}
use ancestor.Meta.Timestamp.{Timestamp, IsTimestamp, less}

module _ (E : Engine) where
  -- What stands behind the encoding of `key` is nothing or a timestamp.
  abbrev pub OnlyVersions : E.Db → Bytes → Type 0
  OnlyVersions db key =
      (rest v : Bytes)
      → E.get db (new_mvcc_key key ++ rest) ≡ done (some v)
      → (rest ≡ []) ⊎ ((t : Timestamp) × IsTimestamp t × (rest ≡ encode_timestamp t))

  -- No version of `key` lies in the times that `P` holds of.
  abbrev pub NoVersion : E.Db → Bytes → (Timestamp → Type 0) → Type 0
  NoVersion db key P =
      (u : Timestamp) → IsTimestamp u → P u → E.get db (new_mvcc_time_key key u) ≡ done none

  -- `b` is stored at time `t`, and nothing from there up to time `ts`.
  pub record IsNewest (db : E.Db) (key : Bytes) (ts t : Timestamp) (b : Bytes) : Type 0 where
    pub stamp : IsTimestamp t
    pub visible : less ts t ≡ false
    pub stored : E.get db (new_mvcc_time_key key t) ≡ done (some b)
    pub last : NoVersion db key (λ u. (less t u ≡ true) × (less ts u ≡ false))

-- The encodings of two keys with what follows them agree only if the keys do, and what follows.
pub new_mvcc_key_injective :
    (k l s t : Bytes) → new_mvcc_key k ++ s ≡ new_mvcc_key l ++ t → (k ≡ l) × (s ≡ t)
unfolding new_mvcc_key
new_mvcc_key_injective k l s t e =
    let both : ok (s, k) ≡ ok (t, l) =
      sym (decode_bytes-encode_bytes k s [])
      ∙ ap (λ b. decode_bytes b []) e
      ∙ decode_bytes-encode_bytes l t [] in
    (cc both, cc both)

-- Whatever the program writes and removes, the keys of an engine stay of the two forms.
module _ (E : Engine) (db db' : E.Db) (key : Bytes) (well : OnlyVersions E db key) where
  pub put_key-OnlyVersions :
      (k v : Bytes) → E.put db (new_mvcc_key k) v ≡ done db' → OnlyVersions E db' key
  put_key-OnlyVersions k v p rest w there =
      let law = E.get-put db db' (new_mvcc_key k) (new_mvcc_key key ++ rest) v p in
      elim (Bool-cases (bytes_equal (new_mvcc_key k) (new_mvcc_key key ++ rest))) [
        | inl e ↦
            let (_, same) =
              new_mvcc_key_injective k key [] rest
                (append-nil (new_mvcc_key k) ∙ bytes_equal→eq _ _ e) in
            inl (sym same)
        | inr e ↦ well rest w (sym (law ∙ rw e) ∙ there)
      ]

  pub put_time_key-OnlyVersions :
      (k v : Bytes) (t : Timestamp)
      → IsTimestamp t
      → E.put db (new_mvcc_time_key k t) v ≡ done db'
      → OnlyVersions E db' key
  put_time_key-OnlyVersions k v t stamp p rest w there =
      let law = E.get-put db db' (new_mvcc_time_key k t) (new_mvcc_key key ++ rest) v p in
      elim (Bool-cases (bytes_equal (new_mvcc_time_key k t) (new_mvcc_key key ++ rest))) [
        | inl e ↦
            let (_, same) =
              new_mvcc_key_injective k key (encode_timestamp t) rest
                (sym (time_key-eq-append k t) ∙ bytes_equal→eq _ _ e) in
            inr (t, stamp, sym same)
        | inr e ↦ well rest w (sym (law ∙ rw e) ∙ there)
      ]

  pub clear-OnlyVersions : (k : Bytes) → E.clear db k ≡ done db' → OnlyVersions E db' key
  clear-OnlyVersions k p rest w there =
      let law = E.get-clear db db' k (new_mvcc_key key ++ rest) p in
      elim law [
        | inl same ↦ well rest w (sym same ∙ there)
        | inr gone ↦ absurd (cc (gone.1, there))
      ]
