-- ===== src/Tests/Drivers.antt =====
-- The ranges of a placement driver: three nodes, a range with a split and one with few replicas.
use ancestor.Common.{
  Bytes, ℕ, true, false, none, some, List, [], ◌∷◌, ◌≡◌, refl, arith, bytes_equal, bytes_equal_iff,
  bytes_less, bytes_less_irrefl, inl, inr, Bool-cases, if◌then◌else◌, get_elem?, map, ◌<◌, length,
}
use ancestor.Common.Int.{ℤ, pos, eq_ℤ}
use ancestor.Meta.Message.{Error, not_found_in_cache}
use ancestor.Meta.Exec.{Result, ok}
use ancestor.Meta.Stats.{RangeStats}
use ancestor.Store.{is_exist_node, RangeDescriptor, ReplicaDescriptor}
use ancestor.Pd.Cluster.{
  node_of, at, find, assign, delete, get_node_by_addr, add_node, add_node_cache, Cluster,
  NodeDescriptor, no_stats, assign, delete, get_idle_node, idle_of, is_in,
}
use ancestor.Pd.Ranges.{
  RangeCache, OrderedCache, lookup, contains, iterate, adjust_leader, add_ranges, put_range,
  drop_range, modify, leader_first, index_of, exchange,
}
use ancestor.Pd.Ranges.Memory.{memory_cache, greatest}
use ancestor.Pd.Ranges.Held.{held}
use ancestor.Pd.Ranges.Search.{IsRouted, first_containing, lookup-eq-search}
use ancestor.Pd.Ranges.Halves.{IsSplit, split-IsRouted}
use ancestor.Pd.State.{
  Pd, Outside, NodeRequest, NodeResponse, Answer, answered, split_response, other_response,
}
use ancestor.Pd.Send.{
  send_to_leader, descriptor, ask_first, leader_rounds, address_of, call_node, after_answer,
  next_leader, remember_leader, get_next_node_id, next_after,
}
use ancestor.Pd.Send.Led.{Distinct}
use ancestor.Pd.Send.Reaches.{named, send_to_leader-reaches}
use ancestor.Pd.Send.Turned.{bounds}
use ancestor.Pd.Region.{
  new_id, get_range_descriptors, master_put, add_system_range_descriptor, set_range_descriptors,
  system_range, get_range_descriptor,
}
use ancestor.Raft.Keys.{decimal, digits, drop_zeros}
use ancestor.Pd.Check.{
  request_split, ask_split, send_split, after_split, record_split, split_descs,
  update_range_descriptor,
}
use ancestor.Pd.Check.Routes.{SplitsAt, request_split-routes}
use ancestor.Pd.Fill.{
  fill_range, fill_descriptor, fill, idle_node, place_replicas, append_replicas, tell_nodes,
  create_replicas,
}
use ancestor.Pd.Fill.Filled.{Spread, fill_range-filled}
use ancestor.Pd.Server.{
  Server, Request, Response, BatchResponse, node_message, node_message_from, execute_cmd, dispatch,
  handle, on_pd, bootstrap, bootstrap_with, add_new_node, set_nodes_of, add_response,
}
use ancestor.Pd.Server.Typed.{method_of, methods, node_message-Typed}

abbrev M : OrderedCache
M = memory_cache

abbrev replica_on : ℕ → ReplicaDescriptor
replica_on n = record { node_id = pos n; replica_id = pos n }

abbrev range_of : ℕ → ℕ → ℕ → List ReplicaDescriptor → RangeDescriptor
range_of id start end_key reps = record {
  range_id = pos id;
  start_key = start ∷ [];
  end_key = end_key ∷ [];
  replicas = reps;
}

abbrev old : RangeDescriptor
old = range_of 7 10 30 (replica_on 1 ∷ replica_on 2 ∷ [])

abbrev prev : RangeDescriptor
prev = range_of 8 10 20 (replica_on 1 ∷ replica_on 2 ∷ [])

abbrev post : RangeDescriptor
post = range_of 7 20 30 (replica_on 1 ∷ replica_on 2 ∷ [])

abbrev one_range : RangeCache M.Cache
one_range = record {
  min_replica = 3;
  objects = old ∷ [];
  unstable_ranges = (pos 7, 0) ∷ [];
  ranges = (pos 7, 0) ∷ [];
  cache = (10 ∷ [], 0) ∷ [];
}

abbrev node_at : ℕ → NodeDescriptor
node_at n = record { node_id = pos n; address = n ∷ []; capacity = pos 10 }

abbrev three_nodes : Cluster
three_nodes = record {
  objects =
      record { descriptor = node_at 1; stats = no_stats }
      ∷ record { descriptor = node_at 2; stats = no_stats }
      ∷ record { descriptor = node_at 3; stats = no_stats }
      ∷ [];
  nodes = (pos 1, 0) ∷ (pos 2, 1) ∷ (pos 3, 2) ∷ [];
  hosts = (1 ∷ [], 0) ∷ (2 ∷ [], 1) ∷ (3 ∷ [], 2) ∷ [];
}

abbrev driver : Pd M.Cache
driver = record {
  cluster = three_nodes;
  ranges = one_range;
  ids = 0;
  writes = 0;
  sent = [];
  readings = 0;
  delay_record = [];
}

-- Node 2 leads every range, and splits the old one at 20; the others name it.
abbrev led_answer : NodeRequest → NodeResponse
led_answer (NodeRequest.split_request range_id key id bytes n) =
    split_response (record prev { range_id = id } ∷ record post { range_id = range_id } ∷ [])
led_answer _ = other_response

abbrev led_by_two : ℕ → ℤ → NodeRequest → Answer
led_by_two t id req =
    if eq_ℤ id (pos 2)
    then answered none (led_answer req)
    else answered (some (Error.not_leader (pos 2))) other_response

abbrev world : Outside
world = record {
  fresh_id = λ _. some (pos 8);
  accepts = λ _. true;
  clock = λ t. t;
  opens = true;
  respond = led_by_two;
}

one_range-held :
    (k : Bytes) → held M k one_range ≡ (if bytes_equal (10 ∷ []) k then some old else none)
unfolding held find
one_range-held k = elim (Bool-cases (bytes_equal (10 ∷ []) k)) [
  | inl e ↦ ground (arith, e)
  | inr e ↦ ground (arith, e)
]

one_range-key :
    (k : Bytes) (a : RangeDescriptor) → held M k one_range ≡ some a → (k ≡ 10 ∷ []) × (a ≡ old)
one_range-key k a h = elim (Bool-cases (bytes_equal (10 ∷ []) k)) [
  | inl e ↦ (ground (arith, e, bytes_equal_iff (10 ∷ []) k), ground (arith, e, h, one_range-held k))
  | inr e ↦ absurd (ground (arith, e, h, one_range-held k))
]

one_range-whole : (k : Bytes) (r : ℕ) → M.get k one_range.cache ≡ some r → r < 1
unfolding find
one_range-whole k r h = ground (arith, h)

one_range-IsRouted : IsRouted M one_range
one_range-IsRouted = record {
  whole = one_range-whole;
  keyed = λ k a h. let (e, f) = one_range-key k a h in ground (arith, e, f);
  apart = λ j k a b h g lt.
      let (e, _) = one_range-key j a h in
      let (f, _) = one_range-key k b g in absurd (cc (e, f, lt, bytes_less_irrefl k));
}

old-IsSplit : IsSplit old prev post
unfolding bytes_less
old-IsSplit = record { above = refl; below = refl; same_start = refl; meet = refl; same_end = refl }

old-known : held M (10 ∷ []) one_range ≡ some old
unfolding held find bytes_equal
old-known = refl

abbrev two_ranges : RangeCache M.Cache
two_ranges = add_ranges M (post ∷ prev ∷ []) one_range

lookup-eq-search_example :
    lookup M (25 ∷ []) two_ranges ≡ first_containing (25 ∷ []) (iterate M two_ranges)
lookup-eq-search_example =
    lookup-eq-search M two_ranges (25 ∷ [])
      (split-IsRouted M one_range old prev post one_range-IsRouted old-known old-IsSplit)

two_ranges-lookup : lookup M (25 ∷ []) two_ranges ≡ some post
unfolding lookup greatest add_ranges put_range assign bytes_less delete drop_range find bytes_equal
    contains
two_ranges-lookup = refl

abbrev grown : RangeStats
grown = record {
  node_id = pos 2;
  range_id = pos 7;
  total_bytes = pos 100;
  total_count = pos 4;
  is_raft_leader = true;
  is_removed = false;
}

world-SplitsAt : SplitsAt world old (pos 7) (20 ∷ []) (pos 50) (pos 2)
world-SplitsAt t node id resp h = (
  record prev { range_id = id },
  record post { range_id = pos 7 },
  [],
  ground (arith, h),
  record {
    above = old-IsSplit.above;
    below = old-IsSplit.below;
    same_start = refl;
    meet = refl;
    same_end = refl;
  },
  refl,
  refl,
  refl,
)

abbrev after_request : Result (Unit {0}) × Pd M.Cache
after_request = request_split M world grown (20 ∷ []) (pos 50) (pos 2) driver

request_split-runs : after_request ≡ (ok tt, after_request.1)
unfolding request_split new_id ask_split get_range_descriptor find send_split send_to_leader
    descriptor ask_first leader_rounds address_of node_of at call_node after_answer next_leader
    remember_leader after_split record_split split_descs update_range_descriptor assign delete
    add_ranges adjust_leader drop_range exchange index_of leader_first modify put_range master_put
    set_range_descriptors get_next_node_id next_after bytes_equal
request_split-runs = refl

request_split-routes_example :
    (id : ℤ) × (world.fresh_id 0 ≡ some id)
    × IsRouted M after_request.1.ranges
    × ((q : Bytes)
        → bounds (lookup M q after_request.1.ranges) ≡ (
            if contains old q
            then some (
                if bytes_less q (20 ∷ [])
                then (id, 10 ∷ [], 20 ∷ [])
                else (pos 7, 20 ∷ [], 30 ∷ []))
            else bounds (lookup M q one_range)))
request_split-routes_example =
    request_split-routes M world grown old (20 ∷ []) (pos 50) (pos 2) driver after_request.1
      one_range-IsRouted old-known world-SplitsAt request_split-runs

old-Distinct : Distinct old.replicas
unfolding is_exist_node
old-Distinct = (refl, (refl, tt))

known_one : node_of (pos 1) three_nodes ≡ some (record { descriptor = node_at 1; stats = no_stats })
unfolding node_of find at
known_one = refl

known_two : node_of (pos 2) three_nodes ≡ some (record { descriptor = node_at 2; stats = no_stats })
unfolding node_of find at
known_two = refl

abbrev update : NodeRequest
update = NodeRequest.update_range_request old

old-placed : find eq_ℤ (pos 7) one_range.ranges ≡ some 0
unfolding find
old-placed = refl

send_to_leader-reaches_example :
    (s' : Pd M.Cache) × (send_to_leader M world 0 update driver ≡ (ok other_response, s'))
    × (get_elem? s'.ranges.objects 0 ≡ some (range_of 7 10 30 (replica_on 2 ∷ replica_on 1 ∷ [])))
send_to_leader-reaches_example =
    send_to_leader-reaches M world driver 0 old update other_response (replica_on 1 ∷ []) []
      (replica_on 2) refl refl old-Distinct (omega arith) refl
      (record { descriptor = node_at 2; stats = no_stats }, known_two) (λ t. refl)
      (
        (
          (record { descriptor = node_at 1; stats = no_stats }, known_one),
          λ t. named (pos 2) other_response refl,
        ),
        tt,
      )
      old-placed

abbrev filled : Result (Unit {0}) × Pd M.Cache
filled = fill_range M world 0 driver

fill_range-runs : filled ≡ (ok tt, filled.1)
unfolding fill_range descriptor fill_descriptor fill idle_node get_idle_node idle_of at is_in new_id
    place_replicas append_replicas modify tell_nodes create_replicas call_node set_range_descriptors
    assign delete add_ranges drop_range put_range master_put find bytes_equal
fill_range-runs = refl

fill_range-filled_example :
    (reps : List ReplicaDescriptor) × (get_elem? filled.1.ranges.objects 0
      ≡ some (range_of 7 10 30 (replica_on 1 ∷ replica_on 2 ∷ reps)))
    × (length reps ≡ 1)
    × Spread (pos 1 ∷ pos 2 ∷ []) reps
fill_range-filled_example = fill_range-filled M world 0 old driver filled.1 refl fill_range-runs

abbrev server : Server M.Cache
server = record {
  pd = driver;
  oracle = record { ts = none; last_saved_time = record { unix = 0; monotonic = 0 }; saved = none };
  is_master = true;
  is_ready = true;
}

abbrev requests : List Request
requests =
    Request.get_new_id_request
    ∷ Request.node_request
    ∷ Request.get_range_descriptors_request (40 ∷ [])
    ∷ Request.bootstrap_request (4 ∷ []) (pos 10)
    ∷ []

abbrev responses : BatchResponse
responses = record {
  resp =
      Response.new_id_response (pos 8)
      ∷ Response.range_descriptors_response []
      ∷ Response.bootstrap_response
          (record { node_id = pos 8; address = 4 ∷ []; capacity = pos 10 })
      ∷ [];
  error = some (Error.failure not_found_in_cache);
}

abbrev answered_all : Result BatchResponse × Server M.Cache
answered_all = node_message M world (λ o. o) (λ p. true) requests server

node_message-runs : answered_all ≡ (ok responses, answered_all.1)
unfolding node_message node_message_from execute_cmd dispatch handle on_pd new_id
    get_range_descriptors lookup greatest bytes_less contains bootstrap get_node_by_addr find
    bytes_equal bootstrap_with add_new_node set_nodes_of master_put add_system_range_descriptor
    set_range_descriptors add_node_cache add_node assign delete system_range decimal digits
    drop_zeros add_ranges put_range drop_range add_response
node_message-runs = refl

node_message-Typed_example : map method_of responses.resp ≡ methods requests
node_message-Typed_example =
    node_message-Typed M world (λ o. o) (λ p. true) requests responses server answered_all.1
      (record { master = refl; ready = refl }) node_message-runs
