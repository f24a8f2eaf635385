-- ===== src/Mvcc/Store/Read.antt =====
-- MVCCGet reads the newest version at or below the time asked for.
use ancestor.Common.{
  ◌≡◌, List, some, ◌∷◌, bytes_less, false, bytes_between, inl, inr, ◌∙◌, ap, ◌++◌, sym, append-nil,
  Bool-cases, take, length, true, ℕ, ◌-◌, ◌+◌, arith, drop, none, length-append, bytes_equal_refl,
  suc, bytes_equal→eq, zero, refl, [], List-cases,
}
use ancestor.Engine.{Engine, done}
use ancestor.Meta.Key.{new_mvcc_key, new_mvcc_time_key}
use ancestor.Meta.Key.Order.{less-versions, less-key-time_key, time_key_ne_nil}
use ancestor.Meta.Key.Parts.{encode_timestamp, time_key-eq-append, length-encode_timestamp}
use ancestor.Meta.Message.{MvccValue}
use ancestor.Meta.Exec.{ok}
use ancestor.Meta.Timestamp.{Timestamp, IsTimestamp, less, eq_of_not_less}
use ancestor.Mvcc.Protobuf.{Codec}
use ancestor.Mvcc.Store.{State, same_key, mvcc_get_internal, Bytes, found_value}
use ancestor.Mvcc.Store.Versions.{OnlyVersions, NoVersion, IsNewest}

take-append : (p c : Bytes) → take (length p) (p ++ c) ≡ p
take-append [] c = refl
take-append (x ∷ p) c = ap (◌∷◌ x) (take-append p c)

take_key :
    (k : Bytes) (t : Timestamp)
    → take (length (new_mvcc_time_key k t) - 12) (new_mvcc_time_key k t) ≡ new_mvcc_key k
take_key k t = rw (time_key-eq-append k t) (
    ap (λ n. take n (new_mvcc_key k ++ encode_timestamp t))
      (omega
        (arith, length-append {0} (new_mvcc_key k) (encode_timestamp t), length-encode_timestamp t))
    ∙ take-append (new_mvcc_key k) (encode_timestamp t))

pub length-time_key :
    (k : Bytes) (t : Timestamp) → length (new_mvcc_time_key k t) ≡ length (new_mvcc_key k) + 12
length-time_key k t = rw (time_key-eq-append k t) (
    omega
      (arith, length-append {0} (new_mvcc_key k) (encode_timestamp t), length-encode_timestamp t))

-- The test of mvccGetInternal accepts every version of the key,
same_key-time_key :
    (k : Bytes) (t u : Timestamp) → same_key (new_mvcc_time_key k t) (new_mvcc_time_key k u) ≡ true
unfolding same_key
same_key-time_key k t u =
    rw (take_key k t, take_key k u, length-time_key k t, length-time_key k u)
      (ground (arith, bytes_equal_refl (new_mvcc_key k)))

take-append-drop : (n : ℕ) (j : Bytes) → j ≡ take n j ++ drop n j
take-append-drop zero j = refl
take-append-drop (suc n) [] = refl
take-append-drop (suc n) (x ∷ j) = ap (◌∷◌ x) (take-append-drop n j)

-- and nothing but extensions of its encoding.
same_key-extends :
    (k j : Bytes) (u : Timestamp)
    → same_key j (new_mvcc_time_key k u) ≡ true
    → (c : Bytes) × (j ≡ new_mvcc_key k ++ c)
unfolding same_key
same_key-extends k j u h = (
  drop (length j - 12) j,
  take-append-drop (length j - 12) j
      ∙ ap (λ q. q ++ drop (length j - 12) j) (bytes_equal→eq _ _ (grind arith) ∙ take_key k u),
)

module _ (E : Engine) (key : Bytes) (ts : Timestamp) (stamp : IsTimestamp ts) (db : E.Db)
    (well : OnlyVersions E db key) where
  -- A key that extends the encoding of `key` and is not before that of `ts` is a version.
  reached :
      (j c v : Bytes)
      → E.get db j ≡ done (some v)
      → bytes_less j (new_mvcc_time_key key ts) ≡ false
      → j ≡ new_mvcc_key key ++ c
      → (u : Timestamp) × IsTimestamp u × (j ≡ new_mvcc_time_key key u)
  reached j c v there lo e = elim (well c v (rw (← e) there)) [
    | inl empty ↦ absurd (
        cc (
          less-key-time_key key ts,
          lo,
          ap (λ q. bytes_less q (new_mvcc_time_key key ts))
              (e ∙ ap (λ q. new_mvcc_key key ++ q) empty ∙ append-nil (new_mvcc_key key)),
        ))
    | inr (u, hu, same) ↦
        (u, hu, e ∙ ap (λ q. new_mvcc_key key ++ q) same ∙ sym (time_key-eq-append key u))
  ]

  found_newest :
      (t : Timestamp) (b j v : Bytes) (rest : List (Bytes × Bytes))
      → IsNewest E db key ts t b
      → E.forward db (new_mvcc_time_key key ts) ≡ (j, v) ∷ rest
      → (j ≡ new_mvcc_time_key key t) × (v ≡ b)
  found_newest t b j v rest n f =
      let (there, lo, more) = E.forward-cons db (new_mvcc_time_key key ts) j v rest f in
      let hi : bytes_less (new_mvcc_time_key key t) j ≡ false =
        elim (Bool-cases (bytes_less (new_mvcc_time_key key t) j)) [
          | inl before ↦ absurd (
              cc (
                n.stored,
                E.forward-first db (new_mvcc_time_key key ts) (new_mvcc_time_key key t) j v rest f
                    (less-versions key t ts n.stamp stamp ∙ n.visible) before
                    (time_key_ne_nil key ts),
              ))
          | inr after ↦ after
        ] in
      let (c, extends) =
        bytes_between (new_mvcc_key key) (encode_timestamp ts) (encode_timestamp t) j
          (rw (← time_key-eq-append key ts) lo) (rw (← time_key-eq-append key t) hi) in
      let (u, hu, e) = reached j c v there lo extends in
      let visible : less ts u ≡ false = sym (less-versions key u ts hu stamp) ∙ rw (← e) lo in
      let above : less u t ≡ false = sym (less-versions key t u n.stamp hu) ∙ rw (← e) hi in
      let gone : less t u ≡ false = elim (Bool-cases (less t u)) [
        | inl newer ↦ absurd (cc (n.last u hu (newer, visible), ap (E.get db) e, there))
        | inr older ↦ older
      ] in
      let same : t ≡ u = eq_of_not_less t u gone above in
      let at_t : j ≡ new_mvcc_time_key key t = e ∙ ap (new_mvcc_time_key key) (sym same) in
      (at_t, cc (there, n.stored, ap (E.get db) at_t))

module _ (E : Engine) (C : Codec) where
  -- A read at `ts` of a key whose newest version that is not later than `ts` is stored as `b` gives the
  -- value of `b`, with the lengths of the version's key and of `b`, and changes nothing.
  pub mvcc_get_internal-newest :
      (key : Bytes) (ts t : Timestamp) (b : Bytes) (mv : MvccValue) (s : State E)
      → IsTimestamp ts
      → OnlyVersions E s.db key
      → IsNewest E s.db key ts t b
      → C.unmarshal_value b ≡ some mv
      → mvcc_get_internal E C key ts s
        ≡ (ok (mv.value, length (new_mvcc_time_key key t), length b), s)
  unfolding mvcc_get_internal
  mvcc_get_internal-newest key ts t b mv s stamp well n decoded =
      elim (List-cases (E.forward s.db (new_mvcc_time_key key ts))) [
        | inl empty ↦ absurd (
            cc (
              n.stored,
              E.forward-nil s.db (new_mvcc_time_key key ts) (new_mvcc_time_key key t) empty
                  (less-versions key t ts n.stamp stamp ∙ n.visible) (time_key_ne_nil key ts),
            ))
        | inr ((j, v), rest, f) ↦
            let (at_t, same) = found_newest E key ts stamp s.db well t b j v rest n f in
            rw (f, mvcc_get_internal)
              (ap (λ (q : Bytes × Bytes). found_value E C (new_mvcc_time_key key ts) q s)
                  (λ i. (at_t i, same i))
                ∙ rw (same_key-time_key key t ts, decoded))
      ]

  -- A read at `ts` of a key that has no version at `ts` or before it finds no value and changes nothing.
  pub mvcc_get_internal-none :
      (key : Bytes) (ts : Timestamp) (s : State E)
      → IsTimestamp ts
      → OnlyVersions E s.db key
      → NoVersion E s.db key (λ u. less ts u ≡ false)
      → (n : ℕ) × (mvcc_get_internal E C key ts s ≡ (ok (none, n, 0), s))
  unfolding mvcc_get_internal
  mvcc_get_internal-none key ts s stamp well gone =
      elim (List-cases (E.forward s.db (new_mvcc_time_key key ts))) [
        | inl empty ↦ (0, rw (empty, mvcc_get_internal))
        | inr ((j, v), rest, f) ↦ elim (Bool-cases (same_key j (new_mvcc_time_key key ts))) [
          | inl same ↦
              let (there, lo, more) = E.forward-cons s.db (new_mvcc_time_key key ts) j v rest f in
              let (c, extends) = same_key-extends key j ts same in
              let (u, hu, e) = reached E key ts stamp s.db well j c v there lo extends in
              absurd (
                cc (
                  gone u hu (sym (less-versions key u ts hu stamp) ∙ rw (← e) lo),
                  ap (E.get s.db) e,
                  there,
                ))
          | inr other ↦ (length j, rw (f, mvcc_get_internal) (rw other))
        ]
      ]
