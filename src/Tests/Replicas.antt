-- ===== src/Tests/Replicas.antt =====
-- Runs of the commands of a replica.
use ancestor.Engine.{done}
use ancestor.Encoding.{
  encode_bytes, decode_bytes, encode_uint32_decreasing, encode_uint32, encode_uint64_decreasing,
  encode_uint64,
}
use ancestor.Common.{
  Bytes, ◌≡◌, some, none, ◌∷◌, [], arith, false, refl, bytes_equal, bytes_less, true, length,
}
use ancestor.Common.Int.{uint64, uint32}
use ancestor.Engine.Memory.{memory}
use ancestor.Meta.Timestamp.{Timestamp, less, large, less_irrefl}
use ancestor.Meta.Key.{new_mvcc_time_key, new_mvcc_key}
use ancestor.Meta.Message.{Intent, MvccMetadata, committed}
use ancestor.Meta.Exec.{ok}
use ancestor.Mvcc.Store.{
  State, mvcc_get_meta, mvcc_get_internal, mvcc_put_meta, mvcc_put, mvcc_get, mvcc_clear, same_key,
  count_unchecked,
}
use ancestor.Mvcc.Store.Versions.{OnlyVersions}
use ancestor.Mvcc.Store.Read.{mvcc_get_internal-newest}
use ancestor.Mvcc.Resolve.{
  resolve_by_status, resolve_intent_commit, resolve_intent_update, update_found,
  resolve_intent_pending,
}
use ancestor.Replica.{put, get_internal, put_found, put_value, is_none_value, put_data_and_meta}
use ancestor.Replica.Put.{HoldsIntent, put-HoldsIntent, get-put_own}
use ancestor.Replica.Commit.{pending-HoldsIntent, get-resolve_by_status}
use ancestor.Tests.Codec.{codec}
use ancestor.Tests.Data.{start, time, client, letter, IsTimestamp-5, IsTimestamp-7}

abbrev key : Bytes
key = 107 ∷ []

start-OnlyVersions : OnlyVersions memory start.db key
unfolding memory start
start-OnlyVersions rest v h = absurd (cc h)

abbrev after_put : State memory
after_put = (put memory codec key (time 5) (client 1 5) (letter 118) start).1

put_succeeds : put memory codec key (time 5) (client 1 5) (letter 118) start ≡ (ok tt, after_put)
unfolding put mvcc_get_meta memory start put_found put_value is_none_value put_data_and_meta
    mvcc_put_meta codec mvcc_put
put_succeeds = refl

get-put_own_example :
    get_internal memory codec key (time 9) (client 1 5) after_put
    ≡ (ok (some (letter 118)), after_put)
unfolding is_none_value
get-put_own_example =
    get-put_own memory codec key (time 5) (time 9) (client 1 5) (letter 118) start after_put
      (omega arith) (omega arith) IsTimestamp-5 start-OnlyVersions refl put_succeeds

after_put-HoldsIntent : HoldsIntent memory codec after_put.db key (client 1 5) (letter 118) false
unfolding is_none_value
after_put-HoldsIntent =
    put-HoldsIntent memory codec key (time 5) (client 1 5) (letter 118) start after_put
      IsTimestamp-5 start-OnlyVersions refl put_succeeds

abbrev held : MvccMetadata
held = record { transaction_id = 1 ∷ []; timestamp = time 5; deleted = false }

held_found : mvcc_get_meta memory codec key after_put ≡ (ok (some held, 3, 8), after_put)
unfolding put mvcc_get_meta memory start put_found put_value is_none_value put_data_and_meta
    mvcc_put_meta codec mvcc_put new_mvcc_key encode_bytes new_mvcc_time_key
    encode_uint32_decreasing encode_uint32 encode_uint64_decreasing encode_uint64 bytes_equal
    bytes_less uint64 uint32 decode_bytes
held_found = refl

abbrev committed_intent : Intent
committed_intent = record { key = key; txn = record (client 1 7) { status = committed } }

abbrev after_commit : State memory
after_commit = (resolve_by_status memory codec committed_intent held 3 8 after_put).1

commit_succeeds :
    resolve_by_status memory codec committed_intent held 3 8 after_put ≡ (ok tt, after_commit)
unfolding put mvcc_get_meta memory start put_found put_value is_none_value put_data_and_meta
    mvcc_put_meta codec mvcc_put resolve_by_status resolve_intent_commit large resolve_intent_update
    update_found mvcc_get mvcc_clear same_key count_unchecked new_mvcc_key encode_bytes
    new_mvcc_time_key encode_uint32_decreasing encode_uint32 encode_uint64_decreasing encode_uint64
    bytes_equal bytes_less uint64 uint32 decode_bytes
commit_succeeds = refl

get-resolve_by_status_example :
    get_internal memory codec key (time 7) (client 2 6) after_commit
    ≡ (ok (some (letter 118)), after_commit)
unfolding less
get-resolve_by_status_example =
    get-resolve_by_status memory codec committed_intent (client 1 5) (client 2 6) (letter 118)
      (time 7) 3 8 after_put after_commit (omega arith) IsTimestamp-5 IsTimestamp-7 IsTimestamp-7
      refl refl refl after_put-HoldsIntent commit_succeeds
      (λ u hu both. absurd (cc (both.0, both.1)))

abbrev pending_intent : Intent
pending_intent = record { key = key; txn = client 1 7 }

abbrev after_push : State memory
after_push = (resolve_by_status memory codec pending_intent held 3 8 after_put).1

push_succeeds :
    resolve_by_status memory codec pending_intent held 3 8 after_put ≡ (ok tt, after_push)
unfolding put mvcc_get_meta memory start put_found put_value is_none_value put_data_and_meta
    mvcc_put_meta codec mvcc_put resolve_by_status resolve_intent_pending large
    resolve_intent_update update_found mvcc_get mvcc_clear same_key count_unchecked new_mvcc_key
    encode_bytes new_mvcc_time_key encode_uint32_decreasing encode_uint32 encode_uint64_decreasing
    encode_uint64 bytes_equal bytes_less uint64 uint32 decode_bytes
push_succeeds = refl

later : large (time 7) (time 5) ≡ true
unfolding large
later = refl

pending-HoldsIntent_example :
    HoldsIntent memory codec after_push.db key (client 1 7) (letter 118) false
    × ((db : memory.Db) × (memory.clear db (new_mvcc_time_key key (time 5)) ≡ done after_push.db))
pending-HoldsIntent_example =
    pending-HoldsIntent memory codec pending_intent (client 1 5) (letter 118) false 3 8 after_put
      after_push (omega arith) IsTimestamp-5 IsTimestamp-7 refl later after_put-HoldsIntent
      push_succeeds

start_empty : (u : Timestamp) → memory.get start.db (new_mvcc_time_key key u) ≡ done none
unfolding memory start
start_empty u = refl

mvcc_get_internal-newest_example : mvcc_get_internal memory codec key (time 5) after_put ≡ (
  ok (
    some (letter 118),
    length (new_mvcc_time_key key (time 5)),
    length after_put-HoldsIntent.value_bytes,
  ),
  after_put,
)
mvcc_get_internal-newest_example =
    mvcc_get_internal-newest memory codec key (time 5) (time 5) after_put-HoldsIntent.value_bytes
      (record { value = some (letter 118) }) after_put IsTimestamp-5 after_put-HoldsIntent.well
      (record {
        stamp = IsTimestamp-5;
        visible = less_irrefl (time 5);
        stored = after_put-HoldsIntent.value_stored;
        last = λ u hu both. absurd (cc (both.0, both.1));
      })
      after_put-HoldsIntent.value_decoded
