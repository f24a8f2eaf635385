-- ===== src/Meta/Batch.antt =====
-- meta/batch.go: the flags of a batch, and Execute. What a request is and how it is executed are
-- parameters, since the requests are generated code.
pub mod Executed
use ancestor.Common.{
  Bool, true, false, List, [], ◌∷◌, Option, none, some, ◌||◌, ◌&&◌, not, if◌then◌else◌, ◌++◌,
}
use ancestor.Meta.Message.{Error, Failure, bad_request, PushTxnType, push_abort, push_timestamp}
use ancestor.Meta.Exec.{Exec, ok, err, panic, pure, ◌>>=◌, Result}

-- The bits of RequestFlag.
pub record RequestFlag : Type 0 where
  pub leader : Bool
  pub read : Bool
  pub write : Bool
  pub master : Bool
  pub system : Bool

abbrev pub invalid_flag : RequestFlag
invalid_flag = record {
  leader = false;
  read = false;
  write = false;
  master = false;
  system = false;
}

-- flags | flag
unfoldable pub or_flag : RequestFlag → RequestFlag → RequestFlag
or_flag a b = record {
  leader = a.leader || b.leader;
  read = a.read || b.read;
  write = a.write || b.write;
  master = a.master || b.master;
  system = a.system || b.system;
}

module _ {R : Type 0} (flag_of : R → RequestFlag) where
  -- The loop of Flags, from the flags so far.
  unfoldable pub or_flags : List R → RequestFlag → RequestFlag
  or_flags [] flags = flags
  or_flags (r ∷ rs) flags = or_flags rs (or_flag flags (flag_of r))

  -- Flags, of a batch whose requests all have an inner request.
  unfoldable pub flags : List R → RequestFlag
  flags rs = or_flags rs invalid_flag

  -- IsLeader
  unfoldable pub is_leader : List R → Bool
  is_leader rs = (flags rs).leader

  -- IsWrite
  unfoldable pub is_write : List R → Bool
  is_write rs = (flags rs).write

  -- IsReadOnly
  unfoldable pub is_read_only : List R → Bool
  is_read_only rs = (flags rs).read && not (flags rs).write

  -- IsSystem
  unfoldable pub is_system : List R → Bool
  is_system rs = (flags rs).system

  -- GetPushType
  unfoldable pub get_push_type : List R → PushTxnType
  get_push_type rs = if is_write rs then push_abort else push_timestamp

-- The response of a batch and the error beside it.
pub record Reply (P : Type 0) : Type 0 where
  pub resp : List P
  pub error : Option Error

module _ {S R P : Type 0} (execute : R → Exec S P) where
  -- The loop of Execute, with the responses so far; `none` is a request without an inner one.
  unfoldable pub execute_from : List P → List (Option R) → Exec S (Reply P)
  execute_from resp [] s = (ok (record { resp = resp; error = none }), s)
  execute_from resp (none ∷ rs) s =
      (ok (record { resp = resp; error = some (Error.failure bad_request) }), s)
  execute_from resp (some r ∷ rs) s =
      (λ (x : Result P × S). elim x.0 as (λ _. Result (Reply P) × S) [
        | ok p ↦ execute_from (resp ++ p ∷ []) rs x.1
        | err e ↦ (ok (record { resp = resp; error = some e }), x.1)
        | panic ↦ (panic, x.1)
      ])
        (execute r s)

  -- Execute
  unfoldable pub execute_batch : List (Option R) → Exec S (Reply P)
  execute_batch rs = execute_from [] rs
