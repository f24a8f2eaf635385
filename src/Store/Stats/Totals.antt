-- ===== src/Store/Stats/Totals.antt =====
-- What the statistics of a node add up to.
use ancestor.Common.{
  Bool, ℕ, suc, List, [], ◌∷◌, Option, some, if◌then◌else◌, ◌≡◌, refl, All, inl, inr, Option-cases,
  ◌∙◌, subst,
}
use ancestor.Common.Int.{ℤ, pos, add_int64}
use ancestor.Meta.Stats.{RangeStats}
use ancestor.Pd.Cluster.{NodeStats}
use ancestor.Store.{Store, Replica}
use ancestor.Store.Stats.{leads, add_range, node_stats_round, node_stats_loop, new_node_stats}

abbrev pub bytes_total : List (ℤ × RangeStats) → ℤ
bytes_total [] = pos 0
bytes_total ((id, rs) ∷ l) = add_int64 (bytes_total l) rs.total_bytes

abbrev pub count_total : List (ℤ × RangeStats) → ℤ
count_total [] = pos 0
count_total ((id, rs) ∷ l) = add_int64 (count_total l) rs.total_count

abbrev pub leader_total : List (ℤ × RangeStats) → ℕ
leader_total [] = 0
leader_total ((id, rs) ∷ l) = if rs.is_raft_leader then suc (leader_total l) else leader_total l

-- The numbers of the node are those of the ranges it lists, and each of these, if it is not removed,
-- has a replica here and leads as that says; a removed one does not lead.
pub record Totals (is_leader : Replica → Bool) (replicas : ℤ → Option Replica) (nsi : NodeStats)
    : Type 0 where
  pub bytes : nsi.total_bytes ≡ bytes_total nsi.range_stats_info
  pub count : nsi.total_count ≡ count_total nsi.range_stats_info
  pub leaders : nsi.leader_count ≡ leader_total nsi.range_stats_info
  pub listed :
      All
        (λ (e : ℤ × RangeStats). leads is_leader e.1 (replicas e.0) ≡ some e.1.is_raft_leader)
        nsi.range_stats_info

module _ (is_leader : Replica → Bool) where
  add_range-Totals :
      (id : ℤ) (rs : RangeStats) (leader : Bool) (nsi : NodeStats) (replicas : ℤ → Option Replica)
      → leads is_leader rs (replicas id) ≡ some leader
      → Totals is_leader replicas nsi
      → Totals is_leader replicas (add_range is_leader id rs leader nsi)
  unfolding add_range leads
  add_range-Totals id rs leader nsi replicas h t = record {
    bytes = rw (← t.bytes) refl;
    count = rw (← t.count) refl;
    leaders = rw (← t.leaders) refl;
    listed = (h, t.listed);
  }

  round-Totals :
      (id : ℤ) (rs : RangeStats) (x : NodeStats × Store)
      → Totals is_leader x.1.replicas x.0
      → Totals is_leader x.1.replicas (node_stats_round is_leader id rs x).0
        × ((node_stats_round is_leader id rs x).1.replicas ≡ x.1.replicas)
  unfolding node_stats_round
  round-Totals id rs (nsi, s) t = elim (Option-cases (leads is_leader rs (s.replicas id))) [
    | inl e ↦ rw (node_stats_round, e) (t, refl)
    | inr (leader, e) ↦
        rw (node_stats_round, e) (add_range-Totals id rs leader nsi s.replicas e t, refl)
  ]

  loop-Totals :
      (ids : List ℤ) (x : NodeStats × Store) (replicas : ℤ → Option Replica)
      → x.1.replicas ≡ replicas
      → Totals is_leader replicas x.0
      → Totals is_leader replicas (node_stats_loop is_leader ids x).0
  unfolding node_stats_loop
  loop-Totals [] x replicas same t = t
  loop-Totals (id ∷ ids) x replicas same t = elim (Option-cases (x.1.range_stats id)) [
    | inl e ↦ rw (node_stats_loop, e) (loop-Totals ids x replicas same t)
    | inr (rs, e) ↦
        let (kept, still) = round-Totals id rs x (rw same t) in
        rw (node_stats_loop, e)
          (loop-Totals ids (node_stats_round is_leader id rs x) replicas (still ∙ same) (
            subst
              (λ (m : ℤ → Option Replica).
                Totals is_leader m (node_stats_round is_leader id rs x).0)
              same kept))
  ]

-- What newNodeStats reports is consistent: the bytes and the count are the sums over the ranges
-- that it lists, the leaders are those among them that lead, and each listed range that is not removed has
-- a replica here.
pub new_node_stats-Totals :
    (is_leader : Replica → Bool) (ids : List ℤ) (s : Store)
    → Totals is_leader s.replicas (new_node_stats is_leader ids s).0
unfolding new_node_stats
new_node_stats-Totals is_leader ids s =
    loop-Totals is_leader ids _ s.replicas refl
      (record { bytes = refl; count = refl; leaders = refl; listed = tt })
