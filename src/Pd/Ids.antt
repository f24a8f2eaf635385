-- ===== src/Pd/Ids.antt =====
-- pd/id.go: the ids that servers allocate over one key of etcd. Each server asks for one id at a
-- time; a step of newID is a request to etcd, and the requests of servers interleave.
pub mod Distinct
use ancestor.Common.{
  Bytes, ℕ, Bool, true, false, Option, none, some, List, ◌∷◌, ◌≡◌, bytes_equal, ◌==◌, if◌then◌else◌,
  [],
}
use ancestor.Common.Int.{ℤ, pos, int64, uint64, add_int64}

-- strconv: a number is read as it was written.
pub record Decimals : Type 0 where
  pub format_int : ℤ → Bytes
  pub parse_int : Bytes → Option ℤ
  pub parse-format : (n : ℕ) → parse_int (format_int (int64 n)) ≡ some (int64 n)

-- Where a server is in newID: not there, before getValues, or before put with what it has read. The
-- number is the variable id.
pub data Phase : Type 0 where
  idle : Phase
  looping : (id : ℤ) → Phase
  holding : (id : ℤ) (kvs : Option Bytes) → Phase

-- An id that etcd has taken, and whether newID returned it: the answer to a put can be lost.
pub record Put : Type 0 where
  pub id : ℤ
  pub is_given : Bool

-- The value of the key and the puts that etcd has taken, the latest first.
pub record System : Type 0 where
  pub stored : Option Bytes
  pub servers : ℕ → Phase
  pub puts : List Put

-- The comparison of the transaction: the key is not there, or has the value that was read.
unfoldable pub is_current : Option Bytes → Option Bytes → Bool
is_current none none = true
is_current none (some b) = false
is_current (some a) none = false
is_current (some a) (some b) = bytes_equal a b

unfoldable pub move : ℕ → Phase → System → System
move p f s = record s { servers = λ q. if p == q then f else s.servers q }

module _ (D : Decimals) where
  -- The id that is put, unless the value read is no number.
  unfoldable pub candidate : ℤ → Option Bytes → Option ℤ
  candidate id none = some (add_int64 id (pos 1))
  candidate id (some b) = elim (D.parse_int b) [ none ↦ none | some n ↦ some (add_int64 n (pos 1)) ]

  unfoldable pub take_put : ℕ → Put → System → System
  take_put p x s = record (move p idle s) { stored = some (D.format_int x.id); puts = x ∷ s.puts }

  pub data Step : System → System → Type 0 where
    begins : (p : ℕ) (s : System) → s.servers p ≡ idle → Step s (move p (looping (pos 0)) s)
    reads :
        (p : ℕ) (id : ℤ) (s : System)
        → s.servers p ≡ looping id
        → Step s (move p (holding id s.stored) s)
    puts_id :
        (p : ℕ) (id i : ℤ) (kvs : Option Bytes) (b : Bool) (s : System)
        → s.servers p ≡ holding id kvs
        → candidate id kvs ≡ some i
        → is_current kvs s.stored ≡ true
        → Step s (take_put p (record { id = i; is_given = b }) s)
    -- errLostMaster: the loop goes on with the id it has.
    is_refused :
        (p : ℕ) (id i : ℤ) (kvs : Option Bytes) (s : System)
        → s.servers p ≡ holding id kvs
        → candidate id kvs ≡ some i
        → is_current kvs s.stored ≡ false
        → Step s (move p (looping i) s)
    -- Another error of etcd or of ParseInt, which newID returns.
    fails : (p : ℕ) (s : System) → Step s (move p idle s)

  pub data Reachable : System → Type 0 where
    starts : Reachable (record { stored = none; servers = λ p. idle; puts = [] })
    goes_on : (s t : System) → Reachable s → Step s t → Reachable t

-- The ids that newID has returned, the latest first.
unfoldable pub given_ids : List Put → List ℤ
given_ids [] = []
given_ids (x ∷ l) = let rest = given_ids l in if x.is_given then x.id ∷ rest else rest
