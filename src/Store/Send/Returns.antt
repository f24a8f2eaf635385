-- ===== src/Store/Send/Returns.antt =====
-- The retry loop of Send comes to an end when the write intents do.
use ancestor.Common.{List, [], ◌∷◌, ◌++◌, Option, none, some, length, drop, ◌≡◌, ◌<◌, ◌⊎◌}
use ancestor.Meta.Message.{Error, Transaction}
use ancestor.Meta.Batch.{Reply}
use ancestor.Meta.Exec.{Exec, ok}
use ancestor.Store.Send.Answered.{serve}
use ancestor.Store.Send.{WriteIntent, write_intent_of}

module _ {S R P : Type 0} (replica_send : List (Option R) → List Transaction → Exec S (Reply P))
    (process : WriteIntent → Exec S Transaction) where
  -- How a round ends that runs out of fuel later on.
  abbrev Later : (Transaction → Exec S (Option (Reply P))) → S → S → Option Error → Type 0
  Later again s s' e =
      (x : Error) × (wi : WriteIntent) × (p : Transaction) × (t : S) × (e ≡ some x)
      × (write_intent_of x ≡ some wi)
      × (process wi s ≡ (ok p, t))
      × (again p t ≡ (ok none, s'))

module _ {S R P : Type 0} (execute : List Transaction → R → Exec S P)
    (process : WriteIntent → Exec S Transaction) where
  -- The batch executes a request at least, or does not stop at a write intent.
  abbrev pub Moves : List (Option R) → List Transaction → S → Type 0
  Moves reqs pushees s =
      (q : Reply P) (t : S)
      → serve execute reqs pushees s ≡ (ok q, t)
      → (0 < length q.resp) ⊎ ((e : Error) → q.error ≡ some e → write_intent_of e ≡ none)

  -- Once the write intent at which a batch stopped is processed, the request that met it meets none.
  abbrev pub Clears : Type 0
  Clears =
      (reqs : List (Option R)) (pushees : List Transaction) (s s₁ t : S) (q : Reply P) (e : Error)
      (wi : WriteIntent) (p : Transaction)
      → serve execute reqs pushees s ≡ (ok q, s₁)
      → q.error ≡ some e
      → write_intent_of e ≡ some wi
      → process wi s₁ ≡ (ok p, t)
      → Moves (drop (length q.resp) reqs) (pushees ++ p ∷ []) t
