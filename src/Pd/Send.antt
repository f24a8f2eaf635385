-- ===== src/Pd/Send.antt =====
-- pd/util.go: a batch is sent to the leader of a range, or to a node, with retries. GetNextNodeID
-- is of meta/metadata.go.
pub mod Led
pub mod Reaches
pub mod Turned
use ancestor.Common.{
  Bytes, ℕ, zero, suc, Bool, true, false, Option, none, some, List, [], ◌∷◌, length, get_elem?,
  if◌then◌else◌, ◌+◌,
}
use ancestor.Common.Int.{ℤ, pos, eq_ℤ, leb_ℤ}
use ancestor.Meta.Message.{Error, Failure, send_fail}
use ancestor.Meta.Exec.{Exec, Result, ok, err, panic, ◌>>=◌, ◌>>◌, pure, raise, crash, gets}
use ancestor.Store.{RangeDescriptor, ReplicaDescriptor}
use ancestor.Pd.Cluster.{Cluster, node_of}
use ancestor.Pd.Ranges.{OrderedCache, RangeCache, adjust_leader}
use ancestor.Pd.State.{
  Pd, Outside, NodeRequest, NodeResponse, Answer, no_client, call_failed, answered,
}

-- The node of the replica after the first one on the node `id`, `first` being the one after the
-- last.
unfoldable pub next_after : ℤ → ℤ → List ReplicaDescriptor → ℤ
next_after id first [] = pos 0
next_after id first (r ∷ rest) =
    let other = next_after id first rest in
    if eq_ℤ r.node_id id then elim rest [ [] ↦ first | q ∷ _ ↦ q.node_id ] else other

-- GetNextNodeID
unfoldable pub get_next_node_id : ℤ → RangeDescriptor → ℤ
get_next_node_id id rd = elim rd.replicas [
  | [] ↦ pos 0
  | r ∷ rest ↦ next_after id r.node_id (r ∷ rest)
]

module _ (O : OrderedCache) (out : Outside) where
  abbrev pub P : Type 0
  P = Pd O.Cache

  -- The descriptor behind a pointer.
  unfoldable pub descriptor : ℕ → Exec P RangeDescriptor
  descriptor r s = elim (get_elem? s.ranges.objects r) [ none ↦ (panic, s) | some rd ↦ (ok rd, s) ]

  -- s.cluster.nodes[id].Address, which panics if the node is not there.
  unfoldable pub address_of : ℤ → Exec P (Unit {0})
  address_of id s = (elim (node_of id s.cluster) [ none ↦ panic | some _ ↦ ok tt ], s)

  -- getNodeClient and the call of NodeMessage.
  unfoldable pub call_node : ℤ → NodeRequest → Exec P Answer
  call_node id req s =
      (ok (out.respond (length s.sent) id req), record s { sent = (id, req) ∷ s.sent })

  -- s.region.ranges.AdjustLeader
  unfoldable pub remember_leader : ℤ → ℤ → Exec P (Unit {0})
  remember_leader range_id id s = elim (adjust_leader O range_id id s.ranges) [
    | none ↦ (panic, s)
    | some c ↦ (ok tt, record s { ranges = c })
  ]

  -- The switch on the error of a response: the node to ask next, or the end.
  unfoldable pub next_leader : RangeDescriptor → ℤ → Error → Exec P ℤ
  next_leader rd id (Error.range_not_found _) =
      address_of (get_next_node_id id rd) >> pure (get_next_node_id id rd)
  next_leader rd id (Error.not_leader other) =
      pure (if leb_ℤ other (pos 0) then get_next_node_id other rd else other)
  next_leader rd id e = raise e

  -- What a round does with an answer, `again` being the next round.
  unfoldable pub after_answer :
      RangeDescriptor → ℤ → (ℤ → Exec P NodeResponse) → Answer → Exec P NodeResponse
  after_answer rd id again no_client = raise (Error.failure send_fail)
  after_answer rd id again call_failed = again (get_next_node_id id rd)
  after_answer rd id again (answered none resp) = remember_leader rd.range_id id >> pure resp
  after_answer rd id again (answered (some e) resp) = next_leader rd id e >>= again

  -- The rounds of sendBatchRequestToLeader.
  unfoldable pub leader_rounds : ℕ → RangeDescriptor → NodeRequest → ℤ → Exec P NodeResponse
  leader_rounds zero rd req id = raise (Error.failure send_fail)
  leader_rounds (suc n) rd req id =
      address_of id >> (call_node id req >>= after_answer rd id (leader_rounds n rd req))

  -- Twenty retries after the first round.
  abbrev pub max_rounds : ℕ
  max_rounds = 21

  -- The loop, from the node of the first replica on; rd.Replicas[0] panics if there is none.
  unfoldable pub ask_first : NodeRequest → RangeDescriptor → Exec P NodeResponse
  ask_first req rd = elim rd.replicas [
    | [] ↦ crash
    | first ∷ _ ↦ leader_rounds max_rounds rd req first.node_id
  ]

  -- sendBatchRequestToLeader
  unfoldable pub send_to_leader : ℕ → NodeRequest → Exec P NodeResponse
  send_to_leader r req = descriptor r >>= ask_first req

  unfoldable pub after_node_answer : Exec P NodeResponse → Answer → Exec P NodeResponse
  after_node_answer again (answered none resp) = pure resp
  after_node_answer again _ = again

  -- The rounds of sendBatchRequest.
  unfoldable pub node_rounds : ℕ → NodeRequest → ℤ → Exec P NodeResponse
  node_rounds zero req id = raise (Error.failure send_fail)
  node_rounds (suc n) req id =
      address_of id >> (call_node id req >>= after_node_answer (node_rounds n req id))

  -- sendBatchRequest
  unfoldable pub send_to_node : NodeRequest → ℤ → Exec P NodeResponse
  send_to_node req id = node_rounds max_rounds req id
