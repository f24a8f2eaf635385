-- ===== src/Replica/Put.antt =====
-- What a put leaves, and what its transaction reads after it.
use ancestor.Meta.Key.Order.{time_key_ne_key}
use ancestor.Common.{
  ◌≡◌, ℕ, some, Option-cases, inl, arith, inr, ◌∙◌, bytes_equal_refl, length, ◌≢◌, false, Option,
  true, subst, none, sym, ◌⊎◌, Bool-cases, ◌==◌, bytes_equal,
}
use ancestor.Engine.{Engine, done, Outcome-cases}
use ancestor.Meta.Key.{new_mvcc_key, new_mvcc_time_key}
use ancestor.Meta.Timestamp.{Timestamp, IsTimestamp, less, less_irrefl, equal}
use ancestor.Meta.Message.{Transaction, Value, MvccMetadata}
use ancestor.Meta.Exec.{ok, >>=-eq-ok}
use ancestor.Mvcc.Protobuf.{Codec}
use ancestor.Mvcc.Store.{State, mvcc_get_meta, mvcc_put_meta, mvcc_put, mvcc_clear, mvcc_get}
use ancestor.Mvcc.Store.Versions.{
  OnlyVersions, put_key-OnlyVersions, put_time_key-OnlyVersions, clear-OnlyVersions,
}
use ancestor.Mvcc.Store.Read.{mvcc_get_internal-newest}
use ancestor.Replica.{
  put, put_value, put_data_and_meta, check_meta, get_internal, get_with_meta, get_version,
  is_none_value, Bytes, Bool, put_found,
}

module _ (E : Engine) (C : Codec) where
  pub put_meta-put :
      (key : Bytes) (txn : Transaction) (deleted : Bool) (m n : ℕ) (s s' : State E) (r : ℕ × ℕ)
      → mvcc_put_meta E C key txn deleted m n s ≡ (ok r, s')
      → (b : Bytes) × (C.marshal_metadata
            (record { transaction_id = txn.id; timestamp = txn.timestamp; deleted = deleted })
          ≡ some b)
        × (E.put s.db (new_mvcc_key key) b ≡ done s'.db)
  unfolding mvcc_put_meta
  put_meta-put key txn deleted m n s s' r h =
      elim (Option-cases (
        C.marshal_metadata
          (record { transaction_id = txn.id; timestamp = txn.timestamp; deleted = deleted }))) [
            | inl e ↦ absurd (ground arith)
            | inr (b, e) ↦ elim (Outcome-cases (E.put s.db (new_mvcc_key key) b)) [
              | inl f ↦ absurd (ground arith)
              | inr (db', f) ↦ (b, e, ground arith)
            ]
          ]

  pub put_value-put :
      (key : Bytes) (txn : Transaction) (val : Value) (s s' : State E)
      → mvcc_put E C key txn val s ≡ (ok tt, s')
      → (b : Bytes) × (C.marshal_value (record { value = some val }) ≡ some b)
        × (E.put s.db (new_mvcc_time_key key txn.timestamp) b ≡ done s'.db)
  unfolding mvcc_put
  put_value-put key txn val s s' h =
      elim (Option-cases (C.marshal_value (record { value = some val }))) [
        | inl e ↦ absurd (ground arith)
        | inr (b, e) ↦ elim (Outcome-cases (E.put s.db (new_mvcc_time_key key txn.timestamp) b)) [
          | inl f ↦ absurd (ground arith)
          | inr (db', f) ↦ (b, e, ground arith)
        ]
      ]

  -- What the engine holds of `key` after a write of `val` by `txn`.
  pub record HoldsIntent (db : E.Db) (key : Bytes) (txn : Transaction) (val : Value)
      (deleted : Bool) : Type 0 where
    pub meta_bytes : Bytes
    pub value_bytes : Bytes
    pub meta_stored : E.get db (new_mvcc_key key) ≡ done (some meta_bytes)
    pub meta_decoded :
        C.unmarshal_metadata meta_bytes
        ≡ some (record { transaction_id = txn.id; timestamp = txn.timestamp; deleted = deleted })
    pub value_stored : E.get db (new_mvcc_time_key key txn.timestamp) ≡ done (some value_bytes)
    pub value_decoded : C.unmarshal_value value_bytes ≡ some (record { value = some val })
    pub well : OnlyVersions E db key

  pub put_data_and_meta-HoldsIntent :
      (key : Bytes) (txn : Transaction) (val : Value) (deleted : Bool) (m n : ℕ) (s s' : State E)
      → IsTimestamp txn.timestamp
      → OnlyVersions E s.db key
      → put_data_and_meta E C key txn val deleted m n s ≡ (ok tt, s')
      → HoldsIntent s'.db key txn val deleted
  unfolding put_data_and_meta
  put_data_and_meta-HoldsIntent key txn val deleted m n s s' stamp well h =
      let (sizes, s₁, first, second) =
        >>=-eq-ok (mvcc_put_meta E C key txn deleted m n) (λ _. mvcc_put E C key txn val) tt s s'
          h in
      let (mb, mm, mp) = put_meta-put key txn deleted m n s s₁ sizes first in
      let (vb, vm, vp) = put_value-put key txn val s₁ s' second in
      let tk = new_mvcc_time_key key txn.timestamp in
      record {
        meta_bytes = mb;
        value_bytes = vb;
        meta_stored =
            E.get-put s₁.db s'.db tk (new_mvcc_key key) vb vp
            ∙ rw (time_key_ne_key key txn.timestamp) (
                E.get-put s.db s₁.db (new_mvcc_key key) (new_mvcc_key key) mb mp
                ∙ rw (bytes_equal_refl (new_mvcc_key key)));
        meta_decoded = C.metadata_round_trip _ mb mm;
        value_stored = E.get-put s₁.db s'.db tk tk vb vp ∙ rw (bytes_equal_refl tk);
        value_decoded = C.value_round_trip _ vb vm;
        well =
            put_time_key-OnlyVersions E s₁.db s'.db key
              (put_key-OnlyVersions E s.db s₁.db key well key mb mp) key vb txn.timestamp stamp vp;
      }

  -- A transaction reads its own write, whatever time it asks for.
  own_write :
      (key : Bytes) (ts : Timestamp) (txn : Transaction) (val : Value) (s : State E)
      → length key ≢ 0
      → length txn.id ≢ 0
      → IsTimestamp txn.timestamp
      → HoldsIntent s.db key txn val false
      → get_internal E C key ts txn s ≡ (ok (some val), s)
  unfolding get_internal get_with_meta get_version mvcc_get_meta mvcc_get
  own_write key ts txn val s hk hi stamp i = ground (
    arith,
    mvcc_get_internal-newest E C key txn.timestamp txn.timestamp i.value_bytes
        (record { value = some val }) s stamp i.well
        (record {
          stamp = stamp;
          visible = less_irrefl txn.timestamp;
          stored = i.value_stored;
          last = λ u hu both. absurd (cc (both.0, both.1));
        })
        i.value_decoded,
    bytes_equal_refl txn.id,
    i.meta_stored,
    i.meta_decoded,
  )

  clear-well :
      (key k : Bytes) (t : Timestamp) (s s' : State E)
      → OnlyVersions E s.db key
      → mvcc_clear E C k t s ≡ (ok tt, s')
      → OnlyVersions E s'.db key
  unfolding mvcc_clear
  clear-well key k t s s' well h = elim (Outcome-cases (E.clear s.db (new_mvcc_time_key k t))) [
    | inl f ↦ absurd (ground arith)
    | inr (db', f) ↦ clear-OnlyVersions E s.db s'.db key well (new_mvcc_time_key k t) (ground arith)
  ]

  get_meta-same :
      (key : Bytes) (r : Option MvccMetadata × ℕ × ℕ) (s s' : State E)
      → mvcc_get_meta E C key s ≡ (ok r, s')
      → s' ≡ s
  unfolding mvcc_get_meta
  get_meta-same key r s s' h = ground arith

  -- A check that succeeds changed nothing, or cleared the version of the metadata.
  check_meta_cases :
      (key : Bytes) (ts : Timestamp) (txn : Transaction) (meta : MvccMetadata) (s s' : State E)
      → check_meta E C key ts txn meta s ≡ (ok tt, s')
      → (s' ≡ s) ⊎ (mvcc_clear E C key meta.timestamp s ≡ (ok tt, s'))
  unfolding check_meta
  check_meta_cases key ts txn meta s s' h = elim (Bool-cases (length meta.transaction_id == 0)) [
    | inl e ↦ elim (Bool-cases (less ts meta.timestamp)) [
      | inl f ↦ absurd (ground arith)
      | inr f ↦ inl (ground arith)
    ]
    | inr e ↦ elim (Bool-cases (bytes_equal meta.transaction_id txn.id)) [
      | inl f ↦ elim (Bool-cases (equal meta.timestamp ts)) [
        | inl g ↦ inl (ground arith)
        | inr g ↦ inr (rw (e, f, g) at h)
      ]
      | inr f ↦ absurd (ground arith)
    ]
  ]

  check_meta-well :
      (key : Bytes) (ts : Timestamp) (txn : Transaction) (meta : MvccMetadata) (s s' : State E)
      → OnlyVersions E s.db key
      → check_meta E C key ts txn meta s ≡ (ok tt, s')
      → OnlyVersions E s'.db key
  check_meta-well key ts txn meta s s' well h = elim (check_meta_cases key ts txn meta s s' h) [
    | inl same ↦ subst (λ (q : State E). OnlyVersions E q.db key) (sym same) well
    | inr cleared ↦ clear-well key key meta.timestamp s s' well cleared
  ]

  put_value-HoldsIntent :
      (key : Bytes) (txn : Transaction) (val : Value) (was : Bool) (m n : ℕ) (s s' : State E)
      → IsTimestamp txn.timestamp
      → OnlyVersions E s.db key
      → is_none_value val ≡ false
      → put_value E C key txn val was m n s ≡ (ok tt, s')
      → HoldsIntent s'.db key txn val false
  unfolding put_value
  put_value-HoldsIntent key txn val was m n s s' stamp well some_value h =
      put_data_and_meta-HoldsIntent key txn val false m n s s' stamp well (rw some_value at h)

  put_found-HoldsIntent :
      (key : Bytes) (ts : Timestamp) (txn : Transaction) (val : Value)
      (found : Option MvccMetadata × ℕ × ℕ) (s s' : State E)
      → IsTimestamp txn.timestamp
      → OnlyVersions E s.db key
      → is_none_value val ≡ false
      → put_found E C key ts txn val found s ≡ (ok tt, s')
      → HoldsIntent s'.db key txn val false
  unfolding put_found
  put_found-HoldsIntent key ts txn val (none, m, n) s s' stamp well some_value h =
      put_value-HoldsIntent key txn val true m n s s' stamp well some_value h
  put_found-HoldsIntent key ts txn val (some meta, m, n) s s' stamp well some_value h =
      let (_, s₁, first, second) =
        >>=-eq-ok (check_meta E C key ts txn meta) (λ _. put_value E C key txn val meta.deleted m n)
          tt s s' h in
      put_value-HoldsIntent key txn val meta.deleted m n s₁ s' stamp
        (check_meta-well key ts txn meta s s₁ well first) some_value second

  -- A put of a value that succeeds leaves the metadata and the version of its transaction,
  pub put-HoldsIntent :
      (key : Bytes) (ts : Timestamp) (txn : Transaction) (val : Value) (s s' : State E)
      → IsTimestamp txn.timestamp
      → OnlyVersions E s.db key
      → is_none_value val ≡ false
      → put E C key ts txn val s ≡ (ok tt, s')
      → HoldsIntent s'.db key txn val false
  unfolding put
  put-HoldsIntent key ts txn val s s' stamp well some_value h =
      let (found, s₁, first, second) =
        >>=-eq-ok (mvcc_get_meta E C key) (put_found E C key ts txn val) tt s s' h in
      put_found-HoldsIntent key ts txn val found s₁ s' stamp
        (subst (λ (q : State E). OnlyVersions E q.db key) (sym (get_meta-same key found s s₁ first))
          well)
        some_value second

  -- After a put that succeeds of a value that is not empty, a read of the key by the same transaction,
  -- whatever time it asks for, gives that value and changes nothing. The key and the transaction's id
  -- are not empty, and nothing but timestamps follows the key in the engine.
  pub get-put_own :
      (key : Bytes) (ts read_ts : Timestamp) (txn : Transaction) (val : Value) (s s' : State E)
      → length key ≢ 0
      → length txn.id ≢ 0
      → IsTimestamp txn.timestamp
      → OnlyVersions E s.db key
      → is_none_value val ≡ false
      → put E C key ts txn val s ≡ (ok tt, s')
      → get_internal E C key read_ts txn s' ≡ (ok (some val), s')
  get-put_own key ts read_ts txn val s s' hk hi stamp well some_value h =
      own_write key read_ts txn val s' hk hi stamp
        (put-HoldsIntent key ts txn val s s' stamp well some_value h)
