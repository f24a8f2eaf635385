-- ===== src/Raft/Ready.antt =====
-- storage/replica.go: handleRaftReady, the round of the raft loop that persists what etcd's raft is
-- ready with, sends its messages and applies the committed entries. Raft itself, the sending of a
-- message and the execution of a command are parameters or marks in the state.
pub mod Written
pub mod Persisted
use ancestor.Common.{
  Bytes, ℕ, Bool, true, false, List, [], ◌∷◌, ◌++◌, Option, none, some, suc, ◌+◌, length, ◌==◌,
  if◌then◌else◌,
}
use ancestor.Engine.{Engine}
use ancestor.Meta.Message.{Error, unmarshal_data}
use ancestor.Meta.Exec.{Exec, Result, ok, err, panic, pure, raise, ◌>>=◌, ◌>>◌}
use ancestor.Raft.State.{Raft, RaftCodec, Entry, HardState}
use ancestor.Raft.Index.{set_hard_state, set_applied_index}
use ancestor.Raft.Log.{append}
use ancestor.Raft.Snapshot.{Snapshot, apply_snapshot}

-- A committed entry: its index and its data, for a command or a change of the group's members.
pub data Committed : Type 0 where
  normal conf_change : ℕ → Bytes → Committed

-- raft.Ready; `none` is an empty snapshot and an empty hard state.
pub record Ready (M : Type 0) : Type 0 where
  pub snapshot : Option Snapshot
  pub entries : List Entry
  pub hard_state : Option HardState
  pub messages : List M
  pub committed : List Committed

-- The replica, with what it has handed to sendRaftMessage, the changes of members that it has
-- handed to raft, and how often it has told raft to advance.
pub record Loop (E : Engine) (M : Type 0) : Type 0 where
  pub raft : Raft E
  pub sent : List M
  pub members : List Bytes
  pub advanced : ℕ

-- The codec of commands and of changes tells whether the bytes are unmarshalled; `commit` is
-- engine.Commit, with its error; `execute` is what processRaftCommand does before it sets the
-- applied index.
module _ (E : Engine) (C : RaftCodec) {M : Type 0} (is_command is_change : Bytes → Bool)
    (commit : E.Db → Option Error) (execute : Bytes → Raft E → Raft E) where
  -- A step of the replica's own state.
  abbrev pub on_raft : Exec (Raft E) Unit → Exec (Loop E M) Unit
  on_raft m s = ((m s.raft).0, record s { raft = (m s.raft).1 })

  -- What handleRaftReady writes before the commit.
  unfoldable pub persist : Ready M → Exec (Raft E) Unit
  persist rd =
      elim rd.snapshot [ none ↦ pure tt | some snap ↦ apply_snapshot E C snap ]
      >> (append E C rd.entries
          >> elim rd.hard_state [ none ↦ pure tt | some hs ↦ set_hard_state E C hs ])

  unfoldable pub commit_engine : Exec (Loop E M) Unit
  commit_engine s = elim (commit s.raft.db) [ none ↦ (ok tt, s) | some e ↦ (err e, s) ]

  -- The loop that sends the messages.
  unfoldable pub send_messages : List M → Exec (Loop E M) Unit
  send_messages [] s = (ok tt, s)
  send_messages (m ∷ ms) s = send_messages ms (record s { sent = s.sent ++ m ∷ [] })

  -- The call of setAppliedIndex, whose error nothing reads.
  unfoldable pub set_applied : ℕ → Loop E M → Loop E M
  set_applied index s = record s { raft = (set_applied_index E C index s.raft).1 }

  -- The loop over the committed entries.
  unfoldable pub apply_committed : List Committed → Exec (Loop E M) Unit
  apply_committed [] s = (ok tt, s)
  apply_committed (normal index content ∷ es) s = apply_committed es (
      if length content == 0
      then s
      else if is_command content
      then set_applied index (record s { raft = execute content s.raft })
      else s)
  apply_committed (conf_change index content ∷ es) s =
      let rest =
        apply_committed es (set_applied index (record s { members = content ∷ s.members })) in
      if is_change content then rest else (err unmarshal_data, s)

  unfoldable pub advance : Exec (Loop E M) Unit
  advance s = (ok tt, record s { advanced = suc s.advanced })

  -- handleRaftReady
  unfoldable pub handle_raft_ready : Ready M → Exec (Loop E M) Unit
  handle_raft_ready rd =
      on_raft (persist rd)
      >> (commit_engine >> (send_messages rd.messages >> (apply_committed rd.committed >> advance)))
