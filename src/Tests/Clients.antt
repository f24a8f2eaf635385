-- ===== src/Tests/Clients.antt =====
-- A transaction of a client with three writes in two ranges.
use ancestor.Common.{
  Bytes, List, some, refl, none, ◌≡◌, Option, if◌then◌else◌, true, ◌∷◌, bytes_less, [], bytes_equal,
  false, bytes_equal_iff,
}
use ancestor.Common.Int.{pos}
use ancestor.Pd.Cluster
use ancestor.Pd.Cluster.{find, assign}
use ancestor.Pd.Maps.{find-assign}
use ancestor.Meta.Timestamp.{Timestamp}
use ancestor.Meta.Message.{Error, not_exist}
use ancestor.Meta.Exec.{ok, err, ◌>>◌}
use ancestor.Client.State.{
  Buffer, Txn, World, Call, put_call, begin_call, end_call, add_put, is_pooled,
}
use ancestor.Client.Txn.{
  set, delete, commit, new_transaction, do_put_data, begin_once, call, put_entries, create_from,
  send_batches, add_intents, add_intent, send_slices, put_failed, clear_cache, set_status,
  end_transaction, stop_beating, stamp, ended, send_intents,
}
use ancestor.Client.Txn.Commits.{Delivered}
use ancestor.Client.Txn.Returns.{IsAnswering, commit-delivers}

-- A buffer that is a list of pairs, the latest first.
abbrev B : Buffer
B = record {
  Cache = List (Bytes × Option Bytes);
  get = find bytes_equal;
  add = assign bytes_equal;
  empty = [];
  clear = λ c. [];
  entries = λ c. c;
  get-add = λ k j v c. find-assign bytes_equal bytes_equal_iff k j v c;
}

abbrev instant : Timestamp
instant = record { wall_time = pos 7; logical = pos 1 }

-- The keys below 2, 50 are in the first range.
abbrev W : World
W = record {
  range_of = λ k. some (if bytes_less k (2 ∷ 50 ∷ []) then pos 1 else pos 2);
  respond = λ n c. none;
  is_bare = λ n. false;
  timestamps = λ n. some instant;
  snapshot_get = λ k. err (Error.failure not_exist);
}

abbrev W-IsAnswering : IsAnswering W
W-IsAnswering = record {
  finds = λ k. (_, refl);
  accepts = λ n c. refl;
  tells = λ n. (instant, refl);
}

abbrev T : Type 0
T = Txn B.Cache

abbrev written : T
written = record (new_transaction B W none instant) {
  dirty = true;
  cache = (2 ∷ 70 ∷ [], none) ∷ (2 ∷ 60 ∷ [], some (5 ∷ [])) ∷ (2 ∷ 40 ∷ [], some (4 ∷ [])) ∷ [];
}

abbrev calls : List Call
calls =
    begin_call
    ∷ put_call (pos 2) (
        record { key = 2 ∷ 70 ∷ []; value = [] }
        ∷ record { key = 2 ∷ 60 ∷ []; value = 5 ∷ [] }
        ∷ [])
    ∷ put_call (pos 1) (record { key = 2 ∷ 40 ∷ []; value = 4 ∷ [] } ∷ [])
    ∷ end_call true instant
    ∷ []

writes-run :
    ((set B W (40 ∷ []) (4 ∷ []) >> (set B W (60 ∷ []) (5 ∷ []) >> delete B W (70 ∷ [])))
      (new_transaction B W none instant)).1
    ≡ written
unfolding set delete assign Cluster.delete bytes_equal new_transaction
writes-run = refl

commit-run : (commit B W written).1.sent ≡ calls
unfolding commit do_put_data begin_once call put_entries create_from add_put send_batches
    add_intents add_intent is_pooled send_slices put_failed clear_cache set_status end_transaction
    stop_beating stamp ended send_intents bytes_less bytes_equal new_transaction
commit-run = refl

commit-delivers_example : (s' : T) × (commit B W written ≡ (ok tt, s')) × Delivered B W written s'
unfolding new_transaction
commit-delivers_example = commit-delivers B W W-IsAnswering written [] refl refl
