-- ===== src/Pd/Server.antt =====
-- pd/server.go: the requests to the placement driver and their handlers. Requests that carry a nil
-- pointer where the code expects none are left out, and the texts of errors.
pub mod Typed
use ancestor.Common.{
  Bytes, ℕ, Bool, true, false, Option, none, some, List, [], ◌∷◌, ◌++◌, if◌then◌else◌, not, ◌≡◌,
}
use ancestor.Common.Int.{ℤ, pos, negsuc, pos_part}
use ancestor.Meta.Message.{
  Error, Failure, not_master, not_ready, config_fail, not_found_in_cache, unknown_request,
}
use ancestor.Meta.Timestamp.{Timestamp}
use ancestor.Meta.Stats.{RangeStats}
use ancestor.Meta.Exec.{
  Exec, Result, Tried, worked, refused, attempt, ok, err, panic, ◌>>=◌, gets, ◌>>◌, pure, raise,
}
use ancestor.Store.{RangeDescriptor}
use ancestor.Pd.Oracle.{Oracle, get_timestamp}
use ancestor.Pd.Cluster.{
  Cluster, NodeDescriptor, NodeStats, get_nodes, get_node_stats, get_node_by_addr, set_node_stats,
  set_range_stats, get_range_stats, add_node_cache, new_node_descriptor,
}
use ancestor.Pd.Ranges.{OrderedCache, RangeCache}
use ancestor.Pd.State.{Pd, Outside}
use ancestor.Pd.Region.{
  new_id, get_range_descriptors, set_range_descriptors, master_put, add_system_range_descriptor,
}
use ancestor.Pd.Replicas.{delete_replica, transfer_leader}

-- The requests of executeCmd; those to nodes are one constructor.
pub data Request : Type 0 where
  get_timestamp_request get_new_id_request node_request : Request
  get_range_descriptors_request : (key : Bytes) → Request
  set_range_descriptors_request : (descs : List RangeDescriptor) → Request
  get_node_descriptors_request : (ids : List ℤ) → Request
  set_node_descriptors_request : (descs : List NodeDescriptor) → Request
  get_range_stats_request : (ids : List ℤ) → Request
  set_range_stats_request : (stats : List RangeStats) → Request
  get_node_stats_request : (ids : List ℤ) → Request
  set_node_stats_request : (stats : NodeStats) → Request
  load_pd_conf_request : (path : Bytes) → Request
  create_replica_request : (range_id node_id : ℤ) → Request
  remove_replica_request : (range_id node_id : ℤ) → Request
  transfer_leader_request : (range_id src dst : ℤ) → Request
  bootstrap_request : (address : Bytes) (capacity : ℤ) → Request

-- What a response carries.
pub data Response : Type 0 where
  timestamp_response : Timestamp → Response
  new_id_response : ℤ → Response
  range_descriptors_response : List RangeDescriptor → Response
  node_descriptors_response : List NodeDescriptor → Response
  range_stats_response : List RangeStats → Response
  node_stats_response : List NodeStats → Response
  bootstrap_response : NodeDescriptor → Response
  set_range_descriptors_response set_node_descriptors_response : Response
  set_range_stats_response set_node_stats_response load_pd_conf_response : Response
  create_replica_response remove_replica_response transfer_leader_response : Response

-- Server: what the handlers change, with the oracle and the flags of pd/master.go.
pub record Server (C : Type 0) : Type 0 where
  pub pd : Pd C
  pub oracle : Oracle
  pub is_master : Bool
  pub is_ready : Bool

-- BatchResponse: the responses, and the error of the last request that failed.
pub record BatchResponse : Type 0 where
  pub resp : List Response
  pub error : Option Error

-- A response and an error beside it.
abbrev pub Handled : Type 0
Handled = Response × Option Error

-- The response after a call that returns no value.
abbrev pub answer : {A : Type 0} → (A → Response) → Response → Tried A → Handled
answer f empty (worked a) = (f a, none)
answer f empty (refused e) = (empty, some e)

module _ (O : OrderedCache) (out : Outside) (meanwhile : Oracle → Oracle)
    (loads : Bytes → Bool) where
  abbrev pub S : Type 0
  S = Server O.Cache

  -- A call on the part of the state that it changes.
  unfoldable pub on_pd : {A : Type 0} → Exec (Pd O.Cache) A → Exec S A
  on_pd m s = let (r, p) = m s.pd in (r, record s { pd = p })

  -- The handlers that call one function, and put its error into the response too.
  unfoldable pub handle : {A : Type 0} → Exec S A → (A → Response) → Response → Exec S Handled
  handle m f empty = attempt m >>= λ t. pure (answer f empty t)

  -- getTimestamp of the oracle.
  unfoldable pub timestamp_of : Exec S Timestamp
  timestamp_of s =
      let (t, o) = get_timestamp meanwhile s.oracle in
      (elim t [ none ↦ err (Error.failure not_ready) | some ts ↦ ok ts ], record s { oracle = o })

  abbrev no_timestamp : Timestamp
  no_timestamp = record { wall_time = pos 0; logical = pos 0 }

  -- setNodes
  unfoldable pub set_nodes_of : List NodeDescriptor → Exec (Pd O.Cache) (Unit {0})
  set_nodes_of nds =
      master_put O out >> λ s. (ok tt, record s { cluster = add_node_cache nds s.cluster })

  unfoldable pub change_cluster : (Cluster → Cluster) → Exec (Pd O.Cache) (Unit {0})
  change_cluster f s = (ok tt, record s { cluster = f s.cluster })

  -- LoadConfig, which reads a file.
  unfoldable pub load_config : Bytes → Exec S (Unit {0})
  load_config path s = (if loads path then ok tt else err (Error.failure config_fail), s)

  -- setNodes of newNodeDescriptor, and addSystemRangeDescriptor.
  unfoldable pub add_new_node : NodeDescriptor → Exec (Pd O.Cache) (Unit {0})
  add_new_node nd =
      set_nodes_of (nd ∷ []) >> add_system_range_descriptor O out (pos_part nd.node_id)

  abbrev pub make_node : Bytes → ℤ → ℤ → NodeDescriptor
  make_node addr capacity id = record { node_id = id; address = addr; capacity = capacity }

  -- What handleBootstrap does for an address that is not known, once it has an id or none. The
  -- response carries the descriptor as far as it was made.
  unfoldable pub bootstrap_with : Bytes → ℤ → Tried ℤ → Exec (Pd O.Cache) Handled
  bootstrap_with addr capacity (refused e) =
      pure (bootstrap_response (make_node addr capacity (pos 0)), some e)
  bootstrap_with addr capacity (worked id) =
      let resp = bootstrap_response (make_node addr capacity id) in
      attempt (add_new_node (make_node addr capacity id)) >>= λ t. pure (answer (λ _. resp) resp t)

  -- handleBootstrap
  unfoldable pub bootstrap : Bytes → ℤ → Exec (Pd O.Cache) Handled
  bootstrap addr capacity s = elim (get_node_by_addr addr s.cluster) [
    | some nd ↦ (ok (bootstrap_response nd, none), s)
    | none ↦ (attempt (new_id O out) >>= bootstrap_with addr capacity) s
  ]

  -- The handlers, by request.
  unfoldable pub dispatch : Request → Exec S Handled
  dispatch get_timestamp_request =
      handle timestamp_of timestamp_response (timestamp_response no_timestamp)
  dispatch get_new_id_request =
      handle (on_pd (new_id O out)) new_id_response (new_id_response (pos 0))
  dispatch node_request = raise (Error.failure unknown_request)
  dispatch (get_range_descriptors_request key) =
      handle (on_pd (get_range_descriptors O out key)) range_descriptors_response
        (range_descriptors_response [])
  dispatch (set_range_descriptors_request descs) =
      handle (on_pd (set_range_descriptors O out descs)) (λ _. set_range_descriptors_response)
        set_range_descriptors_response
  dispatch (get_node_descriptors_request ids) =
      gets (λ s. (node_descriptors_response (get_nodes ids s.pd.cluster), none))
  dispatch (set_node_descriptors_request descs) =
      handle (on_pd (set_nodes_of descs)) (λ _. set_node_descriptors_response)
        set_node_descriptors_response
  dispatch (get_range_stats_request ids) =
      gets (λ s. (range_stats_response (get_range_stats ids s.pd.cluster), none))
  dispatch (set_range_stats_request stats) =
      handle (on_pd (change_cluster (set_range_stats stats))) (λ _. set_range_stats_response)
        set_range_stats_response
  dispatch (get_node_stats_request ids) =
      gets (λ s. (node_stats_response (get_node_stats ids s.pd.cluster), none))
  dispatch (set_node_stats_request stats) =
      handle (on_pd (change_cluster (set_node_stats stats))) (λ _. set_node_stats_response)
        set_node_stats_response
  dispatch (load_pd_conf_request path) =
      handle (load_config path) (λ _. load_pd_conf_response) load_pd_conf_response
  dispatch (create_replica_request range_id node_id) = pure (create_replica_response, none)
  dispatch (remove_replica_request range_id node_id) =
      handle (on_pd (delete_replica O out range_id node_id)) (λ _. remove_replica_response)
        remove_replica_response
  dispatch (transfer_leader_request range_id src dst) =
      handle (on_pd (transfer_leader O out range_id src dst)) (λ _. transfer_leader_response)
        transfer_leader_response
  dispatch (bootstrap_request addr capacity) = on_pd (bootstrap addr capacity)

  -- executeCmd; an error with no response is raised.
  unfoldable pub execute_cmd : Request → Exec S Handled
  execute_cmd req s =
      if not s.is_master
      then (err (Error.failure not_master), s)
      else if not s.is_ready
      then (err (Error.failure not_ready), s)
      else dispatch req s

  unfoldable pub add_response : BatchResponse → Tried Handled → BatchResponse
  add_response br (refused e) = record br { error = some e }
  add_response br (worked (resp, none)) = record br { resp = br.resp ++ resp ∷ [] }
  add_response br (worked (resp, some e)) = record { resp = br.resp ++ resp ∷ []; error = some e }

  -- The loop of NodeMessage, from the responses so far.
  unfoldable pub node_message_from : BatchResponse → List Request → Exec S BatchResponse
  node_message_from br [] = pure br
  node_message_from br (req ∷ reqs) =
      attempt (execute_cmd req) >>= λ t. node_message_from (add_response br t) reqs

  -- NodeMessage
  unfoldable pub node_message : List Request → Exec S BatchResponse
  node_message = node_message_from (record { resp = []; error = none })
