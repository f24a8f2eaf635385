-- ===== src/Replica/Commit.antt =====
-- What the commit of an intent leaves, and what others read after it.
use ancestor.Common.{
  ◌≡◌, length, some, Bytes, arith, true, bytes_equal, Bool, false, ℕ, ◌∙◌, bytes_equal_refl, subst,
  bytes_less→not_equal, ◌≢◌, bytes_less→not_equal_flip, inl, inr, sym, if◌then◌else◌, not,
  Bool-cases, ap, refl,
}
use ancestor.Engine.{get-clear_other, Engine, done, Outcome-cases}
use ancestor.Meta.Key.{new_mvcc_key, new_mvcc_time_key}
use ancestor.Meta.Key.Order.{less-key-time_key, time_key_ne_key, less-versions}
use ancestor.Meta.Timestamp.{
  Timestamp, IsTimestamp, less, large, less_irrefl, large-eq-less, eq_of_not_less,
}
use ancestor.Meta.Message.{Transaction, Value, Intent, MvccMetadata, committed, pending}
use ancestor.Meta.Exec.{◌>>◌, ok, >>=-eq-ok, pure}
use ancestor.Mvcc.Protobuf.{Codec}
use ancestor.Mvcc.Store.{
  State, mvcc_get_meta, mvcc_put_meta, mvcc_put, mvcc_get, mvcc_clear, count_unchecked,
}
use ancestor.Mvcc.Store.Versions.{
  OnlyVersions, NoVersion, put_key-OnlyVersions, clear-OnlyVersions, put_time_key-OnlyVersions,
}
use ancestor.Mvcc.Store.Read.{mvcc_get_internal-newest}
use ancestor.Mvcc.Resolve.{
  resolve_by_status, resolve_intent_update, update_found, resolve_intent_commit, updated_txn,
  resolve_intent_pending,
}
use ancestor.Replica.{get_with_meta, get_version, get_internal}
use ancestor.Replica.Put.{HoldsIntent, put_meta-put, put_value-put}

later_not_equal :
    (key : Bytes) (a b : Timestamp)
    → IsTimestamp a
    → IsTimestamp b
    → less b a ≡ true
    → (bytes_equal (new_mvcc_time_key key a) (new_mvcc_time_key key b) ≡ false)
      × (bytes_equal (new_mvcc_time_key key b) (new_mvcc_time_key key a) ≡ false)
later_not_equal key a b ha hb h =
    let lower = less-versions key a b ha hb ∙ h in
    (bytes_less→not_equal _ _ lower, bytes_less→not_equal_flip _ _ lower)

key_ne_time_key :
    (key : Bytes) (a : Timestamp) → bytes_equal (new_mvcc_key key) (new_mvcc_time_key key a) ≡ false
key_ne_time_key key a = bytes_less→not_equal _ _ (less-key-time_key key a)

module _ (E : Engine) (C : Codec) where
  -- A write of the metadata over those of the intent: the version stays.
  put_meta-HoldsIntent :
      (key : Bytes) (old txn : Transaction) (val : Value) (deleted : Bool) (m n : ℕ) (r : ℕ × ℕ)
      (s s' : State E)
      → HoldsIntent E C s.db key old val deleted
      → old.timestamp ≡ txn.timestamp
      → mvcc_put_meta E C key txn deleted m n s ≡ (ok r, s')
      → HoldsIntent E C s'.db key txn val deleted
  put_meta-HoldsIntent key old txn val deleted m n r s s' i same h =
      let (mb, mm, mp) = put_meta-put E C key txn deleted m n s s' r h in
      record {
        meta_bytes = mb;
        value_bytes = i.value_bytes;
        meta_stored =
            E.get-put s.db s'.db (new_mvcc_key key) (new_mvcc_key key) mb mp
            ∙ rw (bytes_equal_refl (new_mvcc_key key));
        meta_decoded = C.metadata_round_trip _ mb mm;
        value_stored =
            E.get-put s.db s'.db (new_mvcc_key key) (new_mvcc_time_key key txn.timestamp) mb mp
            ∙ rw (key_ne_time_key key txn.timestamp) (
                subst (λ t. E.get s.db (new_mvcc_time_key key t) ≡ done (some i.value_bytes)) same
                  i.value_stored);
        value_decoded = i.value_decoded;
        well = put_key-OnlyVersions E s.db s'.db key i.well key mb mp;
      }

  -- The version that `t` wrote is stored as `b`.
  record HoldsVersion (db : E.Db) (key : Bytes) (t : Timestamp) (val : Value) : Type 0 where
    value_bytes : Bytes
    stamp : IsTimestamp t
    stored : E.get db (new_mvcc_time_key key t) ≡ done (some value_bytes)
    decoded : C.unmarshal_value value_bytes ≡ some (record { value = some val })
    well : OnlyVersions E db key

  get-version :
      (key : Bytes) (t : Timestamp) (val : Value) (s : State E)
      → length key ≢ 0
      → (i : HoldsVersion s.db key t val)
      → mvcc_get E C key t s
        ≡ (ok (some val, length (new_mvcc_time_key key t), length i.value_bytes), s)
  unfolding mvcc_get
  get-version key t val s hk i = ground (
    arith,
    mvcc_get_internal-newest E C key t t i.value_bytes (record { value = some val }) s i.stamp
        i.well
        (record {
          stamp = i.stamp;
          visible = less_irrefl t;
          stored = i.stored;
          last = λ u hu both. absurd (cc (both.0, both.1));
        })
        i.decoded,
  )

  clear-get :
      (key : Bytes) (t : Timestamp) (s s' : State E)
      → mvcc_clear E C key t s ≡ (ok tt, s')
      → (E.clear s.db (new_mvcc_time_key key t) ≡ done s'.db)
  unfolding mvcc_clear
  clear-get key t s s' h = elim (Outcome-cases (E.clear s.db (new_mvcc_time_key key t))) [
    | inl f ↦ absurd (ground arith)
    | inr (db', f) ↦ ground (arith, f)
  ]

  count-same :
      (a b c d : ℕ) (s s' : State E) → count_unchecked E a b c d s ≡ (ok tt, s') → s'.db ≡ s.db
  unfolding count_unchecked
  count-same a b c d s s' h = ground arith

  -- The steps of an update that succeeds.
  update-steps :
      (key : Bytes) (txn : Transaction) (meta : MvccMetadata) (val : Value) (s s' : State E)
      → length key ≢ 0
      → HoldsVersion s.db key meta.timestamp val
      → resolve_intent_update E C key txn meta s ≡ (ok tt, s')
      → (s₁ : State E) × (s₂ : State E) × (mvcc_put E C key txn val s ≡ (ok tt, s₁))
        × (mvcc_clear E C key meta.timestamp s₁ ≡ (ok tt, s₂))
        × (s'.db ≡ s₂.db)
  unfolding resolve_intent_update update_found
  update-steps key txn meta val s s' hk i r =
      let (found, s₀, first, second) =
        >>=-eq-ok (mvcc_get E C key meta.timestamp) (update_found E C key txn meta.timestamp) tt s
          s' r in
      let got = get-version key meta.timestamp val s hk i in
      let m = length (new_mvcc_time_key key meta.timestamp) in
      let n = length i.value_bytes in
      let there : update_found E C key txn meta.timestamp (some val, m, n) s ≡ (ok tt, s') =
        ground (arith, first, second, got) in
      let (_, s₁, put_ok, rest) =
        >>=-eq-ok (mvcc_put E C key txn val)
          (λ _. mvcc_clear E C key meta.timestamp >> count_unchecked E m n 0 0) tt s s' there in
      let (_, s₂, clear_ok, counted) =
        >>=-eq-ok (mvcc_clear E C key meta.timestamp) (λ _. count_unchecked E m n 0 0) tt s₁ s'
          rest in
      (s₁, s₂, put_ok, clear_ok, count-same m n 0 0 s₂ s' counted)

  -- An update to a later time moves the version there, and leaves the metadata.
  update-HoldsIntent :
      (key : Bytes) (txn : Transaction) (meta : MvccMetadata) (val : Value) (mb : Bytes)
      (s s' : State E)
      → length key ≢ 0
      → IsTimestamp txn.timestamp
      → less meta.timestamp txn.timestamp ≡ true
      → HoldsVersion s.db key meta.timestamp val
      → E.get s.db (new_mvcc_key key) ≡ done (some mb)
      → C.unmarshal_metadata mb
        ≡ some
            (record { transaction_id = txn.id; timestamp = txn.timestamp; deleted = meta.deleted })
      → resolve_intent_update E C key txn meta s ≡ (ok tt, s')
      → HoldsIntent E C s'.db key txn val meta.deleted
  update-HoldsIntent key txn meta val mb s s' hk stamp later i stored decoded r =
      let (s₁, s₂, put_ok, clear_ok, same) = update-steps key txn meta val s s' hk i r in
      let (vb, vm, vp) = put_value-put E C key txn val s s₁ put_ok in
      let cleared = clear-get key meta.timestamp s₁ s₂ clear_ok in
      let nk = new_mvcc_time_key key txn.timestamp in
      let ok_time = new_mvcc_time_key key meta.timestamp in
      let mk = new_mvcc_key key in
      subst (λ db. HoldsIntent E C db key txn val meta.deleted) (sym same)
        (record {
          meta_bytes = mb;
          value_bytes = vb;
          meta_stored =
              get-clear_other E s₁.db s₂.db ok_time mk (time_key_ne_key key meta.timestamp) cleared
              ∙ (E.get-put s.db s₁.db nk mk vb vp ∙ rw (time_key_ne_key key txn.timestamp) stored);
          meta_decoded = decoded;
          value_stored =
              get-clear_other E s₁.db s₂.db ok_time nk
                (later_not_equal key txn.timestamp meta.timestamp stamp i.stamp later).1 cleared
              ∙ (E.get-put s.db s₁.db nk nk vb vp ∙ rw (bytes_equal_refl nk));
          value_decoded = C.value_round_trip _ vb vm;
          well =
              clear-OnlyVersions E s₁.db s₂.db key
                (put_time_key-OnlyVersions E s.db s₁.db key i.well key vb txn.timestamp stamp vp)
                ok_time cleared;
        })

  -- An update that succeeds ends with Clear of the old version.
  update-clears :
      (key : Bytes) (txn : Transaction) (meta : MvccMetadata) (val : Value) (s s' : State E)
      → length key ≢ 0
      → HoldsVersion s.db key meta.timestamp val
      → resolve_intent_update E C key txn meta s ≡ (ok tt, s')
      → (db : E.Db) × (E.clear db (new_mvcc_time_key key meta.timestamp) ≡ done s'.db)
  update-clears key txn meta val s s' hk i r =
      let (s₁, s₂, _, clear_ok, same) = update-steps key txn meta val s s' hk i r in
      (s₁.db, clear-get key meta.timestamp s₁ s₂ clear_ok ∙ ap done (sym same))

  -- The version of an intent is there after the write of its metadata.
  put_meta-HoldsVersion :
      (key mb : Bytes) (old : Transaction) (val : Value) (deleted : Bool) (s s₁ : State E)
      → IsTimestamp old.timestamp
      → HoldsIntent E C s.db key old val deleted
      → E.put s.db (new_mvcc_key key) mb ≡ done s₁.db
      → HoldsVersion s₁.db key old.timestamp val
  put_meta-HoldsVersion key mb old val deleted s s₁ stamp i mp = record {
    value_bytes = i.value_bytes;
    stamp = stamp;
    stored =
        E.get-put s.db s₁.db (new_mvcc_key key) (new_mvcc_time_key key old.timestamp) mb mp
        ∙ rw (key_ne_time_key key old.timestamp) i.value_stored;
    decoded = i.value_decoded;
    well = put_key-OnlyVersions E s.db s₁.db key i.well key mb mp;
  }

  -- The two writes that move an intent to a later time.
  move-HoldsIntent :
      (key : Bytes) (old txn : Transaction) (val : Value) (deleted : Bool) (m n : ℕ) (r : ℕ × ℕ)
      (s s₁ s' : State E)
      → length key ≢ 0
      → IsTimestamp old.timestamp
      → IsTimestamp txn.timestamp
      → large txn.timestamp old.timestamp ≡ true
      → HoldsIntent E C s.db key old val deleted
      → mvcc_put_meta E C key txn deleted m n s ≡ (ok r, s₁)
      → resolve_intent_update E C key txn
          (record { transaction_id = old.id; timestamp = old.timestamp; deleted = deleted })
          s₁
        ≡ (ok tt, s')
      → HoldsIntent E C s'.db key txn val deleted
  move-HoldsIntent key old txn val deleted m n r s s₁ s' hk stamp stamp' later i put_ok upd =
      let (mb, mm, mp) = put_meta-put E C key txn deleted m n s s₁ r put_ok in
      let mk = new_mvcc_key key in
      update-HoldsIntent key txn
        (record { transaction_id = old.id; timestamp = old.timestamp; deleted = deleted }) val mb s₁
        s' hk stamp' (sym (large-eq-less txn.timestamp old.timestamp) ∙ later)
        (put_meta-HoldsVersion key mb old val deleted s s₁ stamp i mp)
        (E.get-put s.db s₁.db mk mk mb mp ∙ rw (bytes_equal_refl mk))
        (C.metadata_round_trip _ mb mm) upd

  -- Resolving with success an intent whose transaction is pending and has a later timestamp leaves
  -- metadata with the id and the time of the transaction and the value stored at that time, and the
  -- last thing that it does to the engine is Clear at the key of the old version.
  pub pending-HoldsIntent :
      (intent : Intent) (old : Transaction) (val : Value) (deleted : Bool) (m n : ℕ)
      (s s' : State E)
      → length intent.key ≢ 0
      → IsTimestamp old.timestamp
      → IsTimestamp intent.txn.timestamp
      → intent.txn.status ≡ pending
      → large intent.txn.timestamp old.timestamp ≡ true
      → HoldsIntent E C s.db intent.key old val deleted
      → resolve_by_status E C intent
          (record { transaction_id = old.id; timestamp = old.timestamp; deleted = deleted })
          m
          n
          s
        ≡ (ok tt, s')
      → HoldsIntent E C s'.db intent.key intent.txn val deleted
        × ((db : E.Db) × (E.clear db (new_mvcc_time_key intent.key old.timestamp) ≡ done s'.db))
  unfolding resolve_by_status resolve_intent_pending
  pending-HoldsIntent intent old val deleted m n s s' hk stamp stamp' st later i r =
      let txn = record (updated_txn E C intent.txn) { id = intent.txn.id } in
      let (sizes, s₁, put_ok, rest) =
        >>=-eq-ok (mvcc_put_meta E C intent.key txn deleted m n)
          (λ _.
            resolve_intent_update E C intent.key txn
              (record { transaction_id = old.id; timestamp = old.timestamp; deleted = deleted }))
          tt s s' (rw (st, later) at r) in
      let i' =
        move-HoldsIntent intent.key old txn val deleted m n sizes s s₁ s' hk stamp stamp' later i
          put_ok rest in
      let (mb, _, mp) = put_meta-put E C intent.key txn deleted m n s s₁ sizes put_ok in
      (
        record {
          meta_bytes = i'.meta_bytes;
          value_bytes = i'.value_bytes;
          meta_stored = i'.meta_stored;
          meta_decoded = i'.meta_decoded;
          value_stored = i'.value_stored;
          value_decoded = i'.value_decoded;
          well = i'.well;
        },
        update-clears intent.key txn
            (record { transaction_id = old.id; timestamp = old.timestamp; deleted = deleted }) val
            s₁ s' hk (put_meta-HoldsVersion intent.key mb old val deleted s s₁ stamp i mp) rest,
      )

  -- Committing an intent at its time or a later one leaves metadata of no transaction, with the
  -- time of the transaction, and the value at that time.
  pub commit-HoldsIntent :
      (intent : Intent) (old : Transaction) (val : Value) (deleted : Bool) (m n : ℕ)
      (s s' : State E)
      → length intent.key ≢ 0
      → IsTimestamp old.timestamp
      → IsTimestamp intent.txn.timestamp
      → intent.txn.status ≡ committed
      → less intent.txn.timestamp old.timestamp ≡ false
      → HoldsIntent E C s.db intent.key old val deleted
      → resolve_by_status E C intent
          (record { transaction_id = old.id; timestamp = old.timestamp; deleted = deleted })
          m
          n
          s
        ≡ (ok tt, s')
      → HoldsIntent E C s'.db intent.key (updated_txn E C intent.txn) val deleted
  unfolding resolve_by_status resolve_intent_commit
  commit-HoldsIntent intent old val deleted m n s s' hk stamp stamp' st order i r =
      let key = intent.key in
      let txn = updated_txn E C intent.txn in
      let local_meta : MvccMetadata = record {
        transaction_id = old.id;
        timestamp = old.timestamp;
        deleted = deleted;
      } in
      let (sizes, s₁, put_ok, rest) =
        >>=-eq-ok (mvcc_put_meta E C key txn deleted m n)
          (λ _.
            if not (large txn.timestamp old.timestamp)
            then pure tt
            else resolve_intent_update E C key txn local_meta)
          tt s s' (rw st at r) in
      elim (Bool-cases (large txn.timestamp old.timestamp)) [
        | inl moved ↦
            move-HoldsIntent key old txn val deleted m n sizes s s₁ s' hk stamp stamp' moved i
              put_ok (rw moved at rest)
        | inr still ↦
            let same =
              eq_of_not_less old.timestamp txn.timestamp
                (sym (large-eq-less txn.timestamp old.timestamp) ∙ still) order in
            subst (λ (q : State E). HoldsIntent E C q.db key txn val deleted)
              (ap (λ x. x.1) (rw still at rest))
              (put_meta-HoldsIntent key old txn val deleted m n sizes s s₁ i same put_ok)
      ]

  -- A committed value is read by every transaction at a time that is not before it, if no later
  -- version is visible at that time.
  get-committed :
      (key : Bytes) (ts : Timestamp) (txn reader : Transaction) (val : Value) (s : State E)
      → length key ≢ 0
      → length txn.id ≡ 0
      → IsTimestamp ts
      → IsTimestamp txn.timestamp
      → less ts txn.timestamp ≡ false
      → NoVersion E s.db key (λ u. (less txn.timestamp u ≡ true) × (less ts u ≡ false))
      → HoldsIntent E C s.db key txn val false
      → get_internal E C key ts reader s ≡ (ok (some val), s)
  unfolding get_internal get_with_meta get_version mvcc_get_meta mvcc_get
  get-committed key ts txn reader val s hk hi stamp stamp' order last i = ground (
    arith,
    mvcc_get_internal-newest E C key ts txn.timestamp i.value_bytes (record { value = some val }) s
        stamp i.well
        (record { stamp = stamp'; visible = order; stored = i.value_stored; last = last })
        i.value_decoded,
    i.meta_stored,
    i.meta_decoded,
  )

  -- After the resolution that succeeds of an intent of `val` whose transaction is committed, at the time
  -- of the intent or a later one, every transaction that reads at a time `ts` not before the commit is
  -- given `val`, if no later version is visible at `ts`; the read changes nothing.
  pub get-resolve_by_status :
      (intent : Intent) (old reader : Transaction) (val : Value) (ts : Timestamp) (m n : ℕ)
      (s s' : State E)
      → length intent.key ≢ 0
      → IsTimestamp old.timestamp
      → IsTimestamp intent.txn.timestamp
      → IsTimestamp ts
      → intent.txn.status ≡ committed
      → less intent.txn.timestamp old.timestamp ≡ false
      → less ts intent.txn.timestamp ≡ false
      → HoldsIntent E C s.db intent.key old val false
      → resolve_by_status E C intent
          (record { transaction_id = old.id; timestamp = old.timestamp; deleted = false })
          m
          n
          s
        ≡ (ok tt, s')
      → NoVersion E s'.db intent.key
          (λ u. (less intent.txn.timestamp u ≡ true) × (less ts u ≡ false))
      → get_internal E C intent.key ts reader s' ≡ (ok (some val), s')
  get-resolve_by_status intent old reader val ts m n s s' hk h₁ h₂ h₃ st order past i r last =
      get-committed intent.key ts (updated_txn E C intent.txn) reader val s' hk refl h₃ h₂ past last
        (commit-HoldsIntent intent old val false m n s s' hk h₁ h₂ st order i r)
