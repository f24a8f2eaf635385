-- ===== src/Pd/Server/Typed.antt =====
-- Responses are of the types of their requests.
use ancestor.Common.{
  Bytes, Bool, true, Option, none, some, List, [], ◌∷◌, ◌++◌, ◌≡◌, refl, map, arith, append_assoc,
  append-nil, subst, inl, inr, Bool-cases, Option-cases, ap, sym, ◌∙◌,
}
use mathlib.Core.List.{map-append}
use ancestor.Common.Int.{ℤ}
use ancestor.Meta.Message.{Error, not_ready}
use ancestor.Meta.Exec.{
  Exec, Result, Tried, worked, refused, tried, ok, err, panic, pure, ◌>>=◌, attempt,
}
use ancestor.Pd.Oracle.{Oracle}
use ancestor.Pd.Oracle
use ancestor.Pd.Region.{new_id}
use ancestor.Pd.Cluster.{NodeDescriptor, get_node_by_addr}
use ancestor.Meta.Timestamp.{Timestamp}
use ancestor.Pd.Ranges.{OrderedCache}
use ancestor.Pd.State.{Pd, Outside}
use ancestor.Pd.Server.{
  Request, Response, Server, Handled, BatchResponse, answer, handle, on_pd, dispatch, execute_cmd,
  add_response, node_message_from, node_message, timestamp_of, load_config, bootstrap,
  bootstrap_with, make_node, add_new_node,
}

-- The types of api.proto, of the requests and of the responses alike.
pub data Method : Type 0 where
  get_timestamp_method get_new_id_method get_range_descriptors_method set_range_descriptors_method :
      Method
  get_node_descriptors_method set_node_descriptors_method get_range_stats_method
        set_range_stats_method :
      Method
  get_node_stats_method set_node_stats_method load_pd_conf_method create_replica_method
        remove_replica_method :
      Method
  transfer_leader_method bootstrap_method : Method

unfoldable pub method_of : Response → Method
method_of (Response.timestamp_response _) = get_timestamp_method
method_of (Response.new_id_response _) = get_new_id_method
method_of (Response.range_descriptors_response _) = get_range_descriptors_method
method_of (Response.node_descriptors_response _) = get_node_descriptors_method
method_of (Response.range_stats_response _) = get_range_stats_method
method_of (Response.node_stats_response _) = get_node_stats_method
method_of (Response.bootstrap_response _) = bootstrap_method
method_of Response.set_range_descriptors_response = set_range_descriptors_method
method_of Response.set_node_descriptors_response = set_node_descriptors_method
method_of Response.set_range_stats_response = set_range_stats_method
method_of Response.set_node_stats_response = set_node_stats_method
method_of Response.load_pd_conf_response = load_pd_conf_method
method_of Response.create_replica_response = create_replica_method
method_of Response.remove_replica_response = remove_replica_method
method_of Response.transfer_leader_response = transfer_leader_method

-- The methods of some requests, without those that the server does not know.
unfoldable pub methods : List Request → List Method
methods [] = []
methods (Request.node_request ∷ reqs) = methods reqs
methods (Request.get_timestamp_request ∷ reqs) = get_timestamp_method ∷ methods reqs
methods (Request.get_new_id_request ∷ reqs) = get_new_id_method ∷ methods reqs
methods (Request.get_range_descriptors_request _ ∷ reqs) =
    get_range_descriptors_method ∷ methods reqs
methods (Request.set_range_descriptors_request _ ∷ reqs) =
    set_range_descriptors_method ∷ methods reqs
methods (Request.get_node_descriptors_request _ ∷ reqs) = get_node_descriptors_method ∷ methods reqs
methods (Request.set_node_descriptors_request _ ∷ reqs) = set_node_descriptors_method ∷ methods reqs
methods (Request.get_range_stats_request _ ∷ reqs) = get_range_stats_method ∷ methods reqs
methods (Request.set_range_stats_request _ ∷ reqs) = set_range_stats_method ∷ methods reqs
methods (Request.get_node_stats_request _ ∷ reqs) = get_node_stats_method ∷ methods reqs
methods (Request.set_node_stats_request _ ∷ reqs) = set_node_stats_method ∷ methods reqs
methods (Request.load_pd_conf_request _ ∷ reqs) = load_pd_conf_method ∷ methods reqs
methods (Request.create_replica_request _ _ ∷ reqs) = create_replica_method ∷ methods reqs
methods (Request.remove_replica_request _ _ ∷ reqs) = remove_replica_method ∷ methods reqs
methods (Request.transfer_leader_request _ _ _ ∷ reqs) = transfer_leader_method ∷ methods reqs
methods (Request.bootstrap_request _ _ ∷ reqs) = bootstrap_method ∷ methods reqs

-- The server serves: it is the master and has loaded its state.
pub record Serves {C : Type 0} (s : Server C) : Type 0 where
  pub master : s.is_master ≡ true
  pub ready : s.is_ready ≡ true

module _ (O : OrderedCache) (out : Outside) (meanwhile : Oracle → Oracle)
    (loads : Bytes → Bool) where
  abbrev S : Type 0
  S = Server O.Cache

  -- What a handler that returns is like: the server serves on, and the response has its method.
  abbrev Good : Method → Result Handled × S → Type 0
  Good k (ok h, s) = (method_of h.0 ≡ k) × Serves s
  Good k (err e, s) = ⊥
  Good k (panic, s) = Unit

  abbrev Keeps : {A : Type 0} → Result A × S → Type 0
  Keeps (panic, s) = Unit
  Keeps (ok a, s) = Serves s
  Keeps (err e, s) = Serves s

  on_pd-Keeps_of :
      {A : Type 0} (s : S)
      → Serves s
      → (x : Result A × Pd O.Cache) → Keeps (x.0, record s { pd = x.1 })
  on_pd-Keeps_of s h (ok a, p) = record { master = h.master; ready = h.ready }
  on_pd-Keeps_of s h (err e, p) = record { master = h.master; ready = h.ready }
  on_pd-Keeps_of s h (panic, p) = tt

  on_pd-Keeps :
      {A : Type 0} (m : Exec (Pd O.Cache) A) (s : S)
      → Serves s
      → Keeps (on_pd O out meanwhile loads m s)
  unfolding on_pd
  on_pd-Keeps m s h = on_pd-Keeps_of s h (m s.pd)

  handled-Good :
      {A : Type 0} (k : Method) (f : A → Response) (empty : Response) (x : Result A × S)
      → ((a : A) → method_of (f a) ≡ k)
      → method_of empty ≡ k
      → Keeps x
      → Good k (elim (tried x).0 as (λ _. Result Handled × S) [
        | ok t ↦ (ok (answer f empty t), (tried x).1)
        | err e ↦ (err e, (tried x).1)
        | panic ↦ (panic, (tried x).1)
      ])
  handled-Good k f empty (ok a, s) typed untyped h = (typed a, h)
  handled-Good k f empty (err e, s) typed untyped h = (untyped, h)
  handled-Good k f empty (panic, s) typed untyped h = tt

  handle-Good :
      {A : Type 0} (k : Method) (m : Exec S A) (f : A → Response) (empty : Response) (s : S)
      → ((a : A) → method_of (f a) ≡ k)
      → method_of empty ≡ k
      → Keeps (m s)
      → Good k (handle O out meanwhile loads m f empty s)
  unfolding handle
  handle-Good k m f empty s typed untyped h = handled-Good k f empty (m s) typed untyped h

  -- The same with what the methods of a list of requests begin with.
  abbrev GoodFor : Request → Result Handled × S → Type 0
  GoodFor req (ok h, s) =
      ((reqs : List Request) → methods (req ∷ reqs) ≡ method_of h.0 ∷ methods reqs) × Serves s
  GoodFor req (err e, s) = ((reqs : List Request) → methods (req ∷ reqs) ≡ methods reqs) × Serves s
  GoodFor req (panic, s) = Unit

  Good→GoodFor :
      (req : Request) (k : Method) (x : Result Handled × S)
      → ((reqs : List Request) → methods (req ∷ reqs) ≡ k ∷ methods reqs)
      → Good k x
      → GoodFor req x
  Good→GoodFor req k (ok h, s) e (g, v) = (λ reqs. rw g (e reqs), v)
  Good→GoodFor req k (err f, s) e g = absurd g
  Good→GoodFor req k (panic, s) e g = tt

  timed-Keeps :
      (s : S)
      → Serves s
      → (x : Option Timestamp × Oracle)
      → Keeps (
        elim x.0 as (λ _. Result Timestamp) [
          | none ↦ err (Error.failure not_ready)
          | some ts ↦ ok ts
        ],
        record s { oracle = x.1 },
      )
  timed-Keeps s h (none, o) = record { master = h.master; ready = h.ready }
  timed-Keeps s h (some t, o) = record { master = h.master; ready = h.ready }

  timestamp_of-Keeps : (s : S) → Serves s → Keeps (timestamp_of O out meanwhile loads s)
  unfolding timestamp_of
  timestamp_of-Keeps s h = timed-Keeps s h (Oracle.get_timestamp meanwhile s.oracle)

  load_config-Keeps :
      (path : Bytes) (s : S) → Serves s → Keeps (load_config O out meanwhile loads path s)
  unfolding load_config
  load_config-Keeps path s h = elim (Bool-cases (loads path)) [ inl e ↦ rw e h | inr e ↦ rw e h ]

  abbrev IsBootstrap : Result Handled × Pd O.Cache → Type 0
  IsBootstrap x = elim x.0 [ ok h ↦ method_of h.0 ≡ bootstrap_method | err e ↦ ⊥ | panic ↦ Unit ]

  continued-IsBootstrap :
      {A : Type 0} (x : Result A × Pd O.Cache) (k : Tried A → Exec (Pd O.Cache) Handled)
      → ((t : Tried A) (p : Pd O.Cache) → IsBootstrap (k t p))
      → IsBootstrap (elim (tried x).0 as (λ _. Result Handled × Pd O.Cache) [
        | ok t ↦ k t (tried x).1
        | err e ↦ (err e, (tried x).1)
        | panic ↦ (panic, (tried x).1)
      ])
  continued-IsBootstrap (ok a, p) k h = h (worked a) p
  continued-IsBootstrap (err e, p) k h = h (refused e) p
  continued-IsBootstrap (panic, p) k h = tt

  attempt-IsBootstrap :
      {A : Type 0} (m : Exec (Pd O.Cache) A) (k : Tried A → Exec (Pd O.Cache) Handled)
      (p : Pd O.Cache)
      → ((t : Tried A) (q : Pd O.Cache) → IsBootstrap (k t q))
      → IsBootstrap ((attempt m >>= k) p)
  attempt-IsBootstrap m k p h = continued-IsBootstrap (m p) k h

  answer-IsBootstrap :
      (nd : NodeDescriptor) (t : Tried (Unit {0})) (p : Pd O.Cache)
      → IsBootstrap
          (pure (answer (λ _. Response.bootstrap_response nd) (Response.bootstrap_response nd) t) p)
  unfolding method_of
  answer-IsBootstrap nd (worked u) p = refl
  answer-IsBootstrap nd (refused e) p = refl

  bootstrap_with-IsBootstrap :
      (addr : Bytes) (capacity : ℤ) (t : Tried ℤ) (p : Pd O.Cache)
      → IsBootstrap (bootstrap_with O out meanwhile loads addr capacity t p)
  unfolding bootstrap_with method_of
  bootstrap_with-IsBootstrap addr capacity (refused e) p = refl
  bootstrap_with-IsBootstrap addr capacity (worked id) p =
      let nd = make_node O out meanwhile loads addr capacity id in
      attempt-IsBootstrap (add_new_node O out meanwhile loads nd)
        (λ t.
          pure (answer (λ _. Response.bootstrap_response nd) (Response.bootstrap_response nd) t))
        p (answer-IsBootstrap nd)

  bootstrap-IsBootstrap :
      (addr : Bytes) (capacity : ℤ) (p : Pd O.Cache)
      → IsBootstrap (bootstrap O out meanwhile loads addr capacity p)
  unfolding bootstrap method_of
  bootstrap-IsBootstrap addr capacity p = elim (Option-cases (get_node_by_addr addr p.cluster)) [
    | inr (nd, e) ↦ rw (e, bootstrap) refl
    | inl e ↦
        rw (e, bootstrap)
          (attempt-IsBootstrap (new_id O out) (bootstrap_with O out meanwhile loads addr capacity) p
            (bootstrap_with-IsBootstrap addr capacity))
  ]

  on_pd-Good :
      (s : S) (x : Result Handled × Pd O.Cache)
      → Serves s
      → IsBootstrap x
      → Good bootstrap_method (x.0, record s { pd = x.1 })
  on_pd-Good s (ok a, p) h e = (e, record { master = h.master; ready = h.ready })
  on_pd-Good s (err f, p) h e = e
  on_pd-Good s (panic, p) h e = tt

  bootstrap-Good :
      (addr : Bytes) (capacity : ℤ) (s : S)
      → Serves s
      → Good bootstrap_method
          (on_pd O out meanwhile loads (bootstrap O out meanwhile loads addr capacity) s)
  unfolding on_pd
  bootstrap-Good addr capacity s h = on_pd-Good s _ h (bootstrap-IsBootstrap addr capacity s.pd)

  dispatch-Good :
      (req : Request) (s : S) → Serves s → GoodFor req (dispatch O out meanwhile loads req s)
  unfolding dispatch methods method_of
  dispatch-Good Request.node_request s h = (λ reqs. refl, h)
  dispatch-Good (Request.get_node_descriptors_request ids) s h = (λ reqs. refl, h)
  dispatch-Good (Request.get_range_stats_request ids) s h = (λ reqs. refl, h)
  dispatch-Good (Request.get_node_stats_request ids) s h = (λ reqs. refl, h)
  dispatch-Good (Request.create_replica_request r n) s h = (λ reqs. refl, h)
  dispatch-Good (Request.bootstrap_request addr capacity) s h =
      Good→GoodFor (Request.bootstrap_request addr capacity) bootstrap_method _ (λ reqs. refl)
        (bootstrap-Good addr capacity s h)
  dispatch-Good Request.get_timestamp_request s h =
      Good→GoodFor Request.get_timestamp_request get_timestamp_method _ (λ reqs. refl)
        (handle-Good get_timestamp_method _ _ _ s (λ a. refl) refl (timestamp_of-Keeps s h))
  dispatch-Good Request.get_new_id_request s h =
      Good→GoodFor Request.get_new_id_request get_new_id_method _ (λ reqs. refl)
        (handle-Good get_new_id_method _ _ _ s (λ a. refl) refl (on_pd-Keeps _ s h))
  dispatch-Good (Request.get_range_descriptors_request key) s h =
      Good→GoodFor (Request.get_range_descriptors_request key) get_range_descriptors_method _
        (λ reqs. refl)
        (handle-Good get_range_descriptors_method _ _ _ s (λ a. refl) refl (on_pd-Keeps _ s h))
  dispatch-Good (Request.set_range_descriptors_request descs) s h =
      Good→GoodFor (Request.set_range_descriptors_request descs) set_range_descriptors_method _
        (λ reqs. refl)
        (handle-Good set_range_descriptors_method _ _ _ s (λ a. refl) refl (on_pd-Keeps _ s h))
  dispatch-Good (Request.set_node_descriptors_request descs) s h =
      Good→GoodFor (Request.set_node_descriptors_request descs) set_node_descriptors_method _
        (λ reqs. refl)
        (handle-Good set_node_descriptors_method _ _ _ s (λ a. refl) refl (on_pd-Keeps _ s h))
  dispatch-Good (Request.set_range_stats_request stats) s h =
      Good→GoodFor (Request.set_range_stats_request stats) set_range_stats_method _ (λ reqs. refl)
        (handle-Good set_range_stats_method _ _ _ s (λ a. refl) refl (on_pd-Keeps _ s h))
  dispatch-Good (Request.set_node_stats_request stats) s h =
      Good→GoodFor (Request.set_node_stats_request stats) set_node_stats_method _ (λ reqs. refl)
        (handle-Good set_node_stats_method _ _ _ s (λ a. refl) refl (on_pd-Keeps _ s h))
  dispatch-Good (Request.remove_replica_request r n) s h =
      Good→GoodFor (Request.remove_replica_request r n) remove_replica_method _ (λ reqs. refl)
        (handle-Good remove_replica_method _ _ _ s (λ a. refl) refl (on_pd-Keeps _ s h))
  dispatch-Good (Request.transfer_leader_request r a b) s h =
      Good→GoodFor (Request.transfer_leader_request r a b) transfer_leader_method _ (λ reqs. refl)
        (handle-Good transfer_leader_method _ _ _ s (λ a. refl) refl (on_pd-Keeps _ s h))
  dispatch-Good (Request.load_pd_conf_request path) s h =
      Good→GoodFor (Request.load_pd_conf_request path) load_pd_conf_method _ (λ reqs. refl)
        (handle-Good load_pd_conf_method _ _ _ s (λ a. refl) refl (load_config-Keeps path s h))

  execute_cmd-Good :
      (req : Request) (s : S) → Serves s → GoodFor req (execute_cmd O out meanwhile loads req s)
  unfolding execute_cmd
  execute_cmd-Good req s h =
      let e : execute_cmd O out meanwhile loads req s ≡ dispatch O out meanwhile loads req s =
        ground (arith, h) in
      subst (GoodFor req) (sym e) (dispatch-Good req s h)

  abbrev Rest : List Request → BatchResponse → S → Type 0
  Rest reqs br' s' =
      (br : BatchResponse) (s : S)
      → Serves s
      → node_message_from O out meanwhile loads br reqs s ≡ (ok br', s')
      → map method_of br'.resp ≡ map method_of br.resp ++ methods reqs

  -- One round of NodeMessage.
  round_lem :
      (req : Request) (reqs : List Request) (br br' : BatchResponse) (s' : S)
      (x : Result Handled × S)
      → GoodFor req x
      → Rest reqs br' s'
      → (elim (tried x).0 as (λ _. Result BatchResponse × S) [
        | ok t ↦
            node_message_from O out meanwhile loads
              (add_response O out meanwhile loads br t)
              reqs
              (tried x).1
        | err e ↦ (err e, (tried x).1)
        | panic ↦ (panic, (tried x).1)
      ])
        ≡ (ok br', s')
      → map method_of br'.resp ≡ map method_of br.resp ++ methods (req ∷ reqs)
  unfolding add_response
  round_lem req reqs br br' s' (ok (resp, none), s) (g, v) rest e = rw (g reqs) (
      rest _ s v e
      ∙ ap (λ l. l ++ methods reqs) (map-append method_of br.resp (resp ∷ []))
      ∙ append_assoc (map method_of br.resp) (method_of resp ∷ []) (methods reqs))
  round_lem req reqs br br' s' (ok (resp, some f), s) (g, v) rest e = rw (g reqs) (
      rest _ s v e
      ∙ ap (λ l. l ++ methods reqs) (map-append method_of br.resp (resp ∷ []))
      ∙ append_assoc (map method_of br.resp) (method_of resp ∷ []) (methods reqs))
  round_lem req reqs br br' s' (err f, s) (g, v) rest e = rw (g reqs) (rest _ s v e)
  round_lem req reqs br br' s' (panic, s) g rest e = absurd (cc e)

  rounds_lem : (reqs : List Request) (br' : BatchResponse) (s' : S) → Rest reqs br' s'
  unfolding node_message_from methods
  rounds_lem [] br' s' br s v e =
      ground
        (arith, ap (λ (x : Result BatchResponse × S). x.0) e, append-nil (map method_of br.resp))
  rounds_lem (req ∷ reqs) br' s' br s v e =
      round_lem req reqs br br' s' (execute_cmd O out meanwhile loads req s)
        (execute_cmd-Good req s v) (rounds_lem reqs br' s') e

  -- A server that is the master and ready answers a batch of requests, unless it panics, by one
  -- response for each request that it knows, of the type of the request and in their order.
  pub node_message-Typed :
      (reqs : List Request) (br : BatchResponse) (s s' : S)
      → Serves s
      → node_message O out meanwhile loads reqs s ≡ (ok br, s')
      → map method_of br.resp ≡ methods reqs
  unfolding node_message
  node_message-Typed reqs br s s' v e = rounds_lem reqs br s' _ s v e
