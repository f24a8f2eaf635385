-- ===== src/Tests/Readies.antt =====
-- A round of the raft loop in the tests.
use ancestor.Common.{Bytes, Bool, ℕ, [], ◌∷◌, ◌++◌, Option, some, none, ◌≡◌, ◌≢◌, ◌⊎◌, true}
use ancestor.Engine.Memory.{memory}
use ancestor.Meta.Message.{Error}
use ancestor.Meta.Exec.{ok}
use ancestor.Raft.State.{Raft}
use ancestor.Raft.Ready.{Ready, Loop, normal, persist, handle_raft_ready}
use ancestor.Raft.Ready.Written.{Written}
use ancestor.Raft.Ready.Persisted.{handle_raft_ready-sent}
use ancestor.Tests.Data.{start, no_stats}
use ancestor.Tests.RaftCodec.{raft_codec}

abbrev always : Bytes → Bool
always b = true

abbrev commits : memory.Db → Option Error
commits db = none

abbrev keeps : Bytes → Raft memory → Raft memory
keeps b r = r

abbrev ready : Ready ℕ
ready = record {
  snapshot = none;
  entries = (record { index = 1; term = 1; content = 97 ∷ [] }) ∷ [];
  hard_state = some (record { term = 1; vote = 2; commit = 0 });
  messages = 4 ∷ 5 ∷ [];
  committed = normal 1 (97 ∷ []) ∷ [];
}

abbrev loop : Loop memory ℕ
loop = record {
  raft = record {
    db = start.db;
    range_id = 1;
    start_key = 2 ∷ [];
    end_key = 9 ∷ [];
    offset_index = 0;
    last_index = 0;
    applied_index = 0;
    truncate_index = 0;
    truncate_term = 0;
    stats = no_stats;
  };
  sent = 3 ∷ [];
  members = [];
  advanced = 0;
}

handle_raft_ready-sent_example :
    (((handle_raft_ready memory raft_codec always always commits keeps ready loop).1.sent ≡ 3 ∷ [])
      × ((handle_raft_ready memory raft_codec always always commits keeps ready loop).0 ≢ ok tt))
    ⊎ ((r : Raft memory) × (persist memory raft_codec always always commits keeps ready loop.raft
          ≡ (ok tt, r))
        × Written memory raft_codec ready loop.raft r
        × (commits r.db ≡ none)
        × ((handle_raft_ready memory raft_codec always always commits keeps ready loop).1.sent
            ≡ (3 ∷ []) ++ (4 ∷ 5 ∷ [])))
handle_raft_ready-sent_example =
    handle_raft_ready-sent memory raft_codec always always commits keeps ready loop
