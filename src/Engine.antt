-- ===== src/Engine.antt =====
-- storage/engine/engine.go: the interface Engine, as a record of operations and laws. The store
-- behind it is not under the repository (the package badger), so the other parts take an engine as
-- a parameter. The laws are what the comments of the interface say.
pub mod Scan
pub mod Memory
use ancestor.Meta.Key.{bytes_next}
use ancestor.Common.{
  Bytes, Option, List, ◌≡◌, if◌then◌else◌, bytes_equal, some, none, [], bytes_less, false, ◌≢◌, ◌∷◌,
  true, inl, inr, refl, ◌⊎◌,
}

-- The value and nil error of a call, or its error.
pub data Outcome {ℓ} (A : Type ℓ) : Type ℓ where
  done : A → Outcome A
  failed : Outcome A

pub Outcome-cases {ℓ} : {A : Type ℓ} (o : Outcome A) → (o ≡ failed) ⊎ ((a : A) × (o ≡ done a))
Outcome-cases failed = inl refl
Outcome-cases (done a) = inr (a, refl)

pub record Engine : Type 1 where
  pub Db : Type 0
  -- `none` is a nil value: the key is not there.
  pub get : Db → Bytes → Outcome (Option Bytes)
  pub put : Db → Bytes → Bytes → Outcome Db
  pub clear : Db → Bytes → Outcome Db
  -- Clear of a batch, as the contents are once the batch is committed.
  pub clear_in_batch : Db → Bytes → Outcome Db
  -- The keys and values that a forward iterator visits after Seek(key).
  pub forward : Db → Bytes → List (Bytes × Bytes)
  -- "Put sets the given key to the value provided."
  pub get-put :
      (db db' : Db) (k j v : Bytes)
      → put db k v ≡ done db'
      → get db' j ≡ (if bytes_equal k j then done (some v) else get db j)
  -- Clear removes the item or leaves it: that of badger.go deletes in a transaction that it does not
  -- commit.
  pub get-clear :
      (db db' : Db) (k j : Bytes)
      → clear db k ≡ done db'
      → (get db' j ≡ get db j) ⊎ ((bytes_equal k j ≡ true) × (get db' j ≡ done none))
  -- "Clear removes the item from the db with the given key."
  pub get-clear_in_batch :
      (db db' : Db) (k j : Bytes)
      → clear_in_batch db k ≡ done db'
      → get db' j ≡ (if bytes_equal k j then done none else get db j)
  -- "Seek advances the iterator to the first key in the engine which is >= the provided key."
  pub forward-nil :
      (db : Db) (k j : Bytes)
      → forward db k ≡ []
      → bytes_less j k ≡ false
      → k ≢ []
      → get db j ≡ done none
  pub forward-cons :
      (db : Db) (k j v : Bytes) (rest : List (Bytes × Bytes))
      → forward db k ≡ (j, v) ∷ rest
      → (get db j ≡ done (some v)) × (bytes_less j k ≡ false) × (rest ≡ forward db (bytes_next j))
  pub forward-first :
      (db : Db) (k i j v : Bytes) (rest : List (Bytes × Bytes))
      → forward db k ≡ (j, v) ∷ rest
      → bytes_less i k ≡ false
      → bytes_less i j ≡ true
      → k ≢ []
      → get db i ≡ done none

-- Clear leaves the other keys.
pub get-clear_other :
    (E : Engine) (db db' : E.Db) (k j : Bytes)
    → bytes_equal k j ≡ false
    → E.clear db k ≡ done db'
    → E.get db' j ≡ E.get db j
get-clear_other E db db' k j h e = elim (E.get-clear db db' k j e) [
  | inl same ↦ same
  | inr gone ↦ absurd (cc (gone.0, h))
]
