-- ===== src/Raft/Log.antt =====
-- storage/replica_raftstorage.go: Entries, Term, LastIndex, append, and compact with its batch.
pub mod Stored
pub mod Collect
pub mod Entries
pub mod Append
pub mod Compact
use ancestor.Common.{
  Bytes, ℕ, zero, suc, List, [], ◌∷◌, ◌+◌, ◌-◌, ◌%◌, ◌^◌, Option, none, some, Bool, if◌then◌else◌,
  ltb, leb, ◌==◌, length, bytes_less, true, not, false,
}
use ancestor.Common.Int.{int64}
use ancestor.Engine.{Engine, Outcome, done, failed}
use ancestor.Meta.Message.{
  Error, Failure, raft_bad_bounds, raft_compacted, raft_unavailable, raft_gap, compact_needless,
  compact_beyond_last, batch_commit, marshal_data, unmarshal_data,
}
use ancestor.Meta.Value.{set_int, no_value}
use ancestor.Meta.Exec.{Exec, pure, raise, gets, or_raise, raise_if, ok, err, panic, ◌>>=◌, ◌>>◌}
use ancestor.Raft.State.{Raft, RaftCodec, Entry, get_db, put_db, clear_db}
use ancestor.Raft.Index.{set_last_index}
use ancestor.Raft.Keys.{raft_log_key, raft_last_index_key, raft_offset_index_key}

module _ (C : RaftCodec) where
  -- The loop of Entries over what the iterator visits, up to the key `end`; `none` is an entry
  -- that is not unmarshalled.
  unfoldable pub collect_entries : Bytes → List (Bytes × Bytes) → Option (List Entry)
  collect_entries end [] = some []
  collect_entries end ((k, v) ∷ rest) = elim (bytes_less end k) [
    | true ↦ some []
    | false ↦ elim (C.unmarshal_entry v) [
      | none ↦ none
      | some e ↦ elim (collect_entries end rest) [ none ↦ none | some es ↦ some (e ∷ es) ]
    ]
  ]

-- What Entries makes of the entries that it has read.
unfoldable pub check_entries : (E : Engine) → ℕ → ℕ → List Entry → Exec (Raft E) (List Entry)
check_entries E lo hi ents s = if length ents == hi - lo then (ok ents, s) else elim ents [
  | [] ↦ (ok [], s)
  | e ∷ es ↦
      if ltb lo e.index
      then (err (Error.failure raft_compacted), s)
      else if leb s.last_index (lo + length (e ∷ es))
      then (err (Error.failure raft_unavailable), s)
      else (err (Error.failure raft_gap), s)
]

-- The index of the last entry of `e ∷ es`.
unfoldable pub last_of : Entry → List Entry → ℕ
last_of e [] = e.index
last_of e (e' ∷ es) = last_of e' es

module _ (E : Engine) (C : RaftCodec) where
  -- Entries, for bounds below 2 ^ 63. Its last argument is not used by the code.
  unfoldable pub entries : ℕ → ℕ → Exec (Raft E) (List Entry)
  entries lo hi s =
      if not (ltb lo hi)
      then (err (Error.failure raft_bad_bounds), s)
      else if ltb lo s.offset_index
      then (err (Error.failure raft_compacted), s)
      else elim (collect_entries C (raft_log_key s.range_id (hi - 1))
          (E.forward s.db (raft_log_key s.range_id lo))) [
            | none ↦ (err unmarshal_data, s)
            | some ents ↦ check_entries E lo hi ents s
          ]

  -- What Term makes of the entries of one index.
  unfoldable pub term_of : ℕ → List Entry → Exec (Raft E) ℕ
  term_of i [] s = (ok (if i == s.truncate_index then s.truncate_term else 0), s)
  term_of i (e ∷ _) s = (ok e.term, s)

  -- Term
  unfoldable pub term : ℕ → Exec (Raft E) ℕ
  term i = entries i ((i + 1) % 2 ^ 64) >>= term_of i

  -- The first loop of append.
  unfoldable pub put_entries : List Entry → Exec (Raft E) Unit
  put_entries [] = pure tt
  put_entries (e ∷ es) = do
    val ← or_raise (C.marshal_entry e) marshal_data
    id ← gets (λ s. s.range_id)
    put_db E (raft_log_key id e.index) val
    put_entries es

  -- The second loop: `n` rounds from `i` on.
  unfoldable pub clear_entries : ℕ → ℕ → Exec (Raft E) Unit
  clear_entries zero i = pure tt
  clear_entries (suc n) i = do
    id ← gets (λ s. s.range_id)
    clear_db E (raft_log_key id i)
    clear_entries n (i + 1)

  -- append
  unfoldable pub append : List Entry → Exec (Raft E) Unit
  append [] = pure tt
  append (e ∷ es) = do
    put_entries (e ∷ es)
    n ← gets (λ s. s.last_index - last_of e es)
    clear_entries n (last_of e es + 1)
    set_last_index E C (last_of e es)

  -- The iteration of the batch, up to the key `end`, each key that it visits cleared.
  unfoldable pub clear_batch : Bytes → List (Bytes × Bytes) → E.Db → Outcome E.Db
  clear_batch end [] db = done db
  clear_batch end ((k, v) ∷ rest) db = elim (bytes_less k end) [
    | false ↦ done db
    | true ↦ elim (E.clear_in_batch db k) [ failed ↦ failed | done db' ↦ clear_batch end rest db' ]
  ]

  -- setOffsetIndex on a batch and the commit of the batch, which badger accepts or not.
  unfoldable pub commit_offset : ℕ → Bool → E.Db → Exec (Raft E) Unit
  commit_offset index accepted batch s = elim (C.marshal_value (set_int (int64 index) no_value)) [
    | none ↦ (err marshal_data, s)
    | some val ↦
        let s' : Raft E = record s { offset_index = index } in
        elim (E.put batch (raft_offset_index_key s.range_id) val) [
          | failed ↦ (err (Error.engine_put_data (raft_offset_index_key s.range_id)), s')
          | done batch' ↦
              if accepted
              then (ok tt, record s' { db = batch' })
              else (err (Error.failure batch_commit), s')
        ]
  ]

  -- compact
  unfoldable pub compact : ℕ → Bool → Exec (Raft E) Unit
  compact index accepted s =
      if leb index s.offset_index
      then (err (Error.failure compact_needless), s)
      else if ltb s.last_index index
      then (err (Error.failure compact_beyond_last), s)
      else (let skey = raft_log_key s.range_id 0 in
          let ekey = raft_log_key s.range_id index in
          elim (if bytes_less skey ekey
            then clear_batch ekey (E.forward s.db skey) s.db
            else done s.db) [
              | failed ↦ (err (Error.engine_clear_data ekey), s)
              | done batch ↦ commit_offset index accepted batch s
            ])
