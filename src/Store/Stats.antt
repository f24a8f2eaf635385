-- ===== src/Store/Stats.antt =====
-- storage/stats.go: newNodeStats, which sums up the statistics of a node's ranges.
pub mod Totals
use ancestor.Common.{Bool, true, false, ℕ, suc, List, [], ◌∷◌, Option, none, some, if◌then◌else◌}
use ancestor.Common.Int.{ℤ, pos, add_int64}
use ancestor.Meta.Stats.{RangeStats}
use ancestor.Pd.Cluster.{NodeStats}
use ancestor.Store.{Store, Replica, set_at}

module _ (is_leader : Replica → Bool) where
  -- Whether a range counts, and if so whether its replica here leads: a removed one counts without a
  -- leader, another only with its replica.
  unfoldable pub leads : RangeStats → Option Replica → Option Bool
  leads rs r =
      if rs.is_removed then some false else elim r [ none ↦ none | some q ↦ some (is_leader q) ]

  -- What one range adds to the statistics of the node.
  unfoldable pub add_range : ℤ → RangeStats → Bool → NodeStats → NodeStats
  add_range id rs leader nsi = record nsi {
    leader_count = if leader then suc nsi.leader_count else nsi.leader_count;
    total_bytes = add_int64 nsi.total_bytes rs.total_bytes;
    total_count = add_int64 nsi.total_count rs.total_count;
    range_stats_info = (id, record rs { is_raft_leader = leader }) ∷ nsi.range_stats_info;
  }

  -- One round of newNodeStats, for a range with statistics.
  unfoldable pub node_stats_round : ℤ → RangeStats → NodeStats × Store → NodeStats × Store
  node_stats_round id rs (nsi, s) = elim (leads rs (s.replicas id)) [
    | none ↦ (nsi, s)
    | some leader ↦ (
      add_range id rs leader nsi,
      record s {
        range_stats = set_at id (some (record rs { is_raft_leader = leader })) s.range_stats;
      },
    )
  ]

  -- The loop of newNodeStats, over the keys of rangeStats in the order of the iteration.
  unfoldable pub node_stats_loop : List ℤ → NodeStats × Store → NodeStats × Store
  node_stats_loop [] x = x
  node_stats_loop (id ∷ ids) x =
      node_stats_loop ids
        (elim (x.1.range_stats id) [ none ↦ x | some rs ↦ node_stats_round id rs x ])

  -- newNodeStats
  unfoldable pub new_node_stats : List ℤ → Store → NodeStats × Store
  new_node_stats ids s = node_stats_loop ids (
    record {
      node_id = s.node_id;
      total_bytes = pos 0;
      total_count = pos 0;
      leader_count = 0;
      range_stats_info = [];
    },
    s,
  )
