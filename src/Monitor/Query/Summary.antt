-- ===== src/Monitor/Query/Summary.antt =====
-- internal/monitor/query.go, `summarizeNodes`, without the mean score and the sum of connections; and
-- what its counts have to do with the filters of the list of nodes.
use proxyfleet.Base.{
  ℕ, ◌+◌, ◌≡◌, not, ◌&&◌, ◌||◌, refl, List, [], ◌∷◌, length, keep, if◌then◌else◌, arith,
}
use proxyfleet.Monitor.Query.{
  Snapshot, StatusFilter, healthy, unavailable, unknown, active, is_above_zero, node_matches_status,
  node_matches_activity,
}

pub record NodeSummary : Type 0 where
  pub total_nodes : ℕ
  pub healthy_nodes : ℕ
  pub unavailable_nodes : ℕ
  pub unknown_nodes : ℕ
  pub blacklisted_nodes : ℕ
  pub active_nodes : ℕ

module _ {F : Type 0} where
  -- One round of the loop.
  unfoldable pub add_node : Snapshot F → NodeSummary → NodeSummary
  add_node s sum =
      let is_healthy =
        s.initial_check_done && s.available && not s.blacklisted && not s.cooling_down in
      let is_known = s.initial_check_done || s.blacklisted || s.cooling_down in
      record sum {
        healthy_nodes = sum.healthy_nodes + (if is_healthy then 1 else 0);
        unavailable_nodes =
            sum.unavailable_nodes + (if is_healthy then 0 else if is_known then 1 else 0);
        unknown_nodes = sum.unknown_nodes + (if is_healthy then 0 else if is_known then 0 else 1);
        blacklisted_nodes =
            sum.blacklisted_nodes + (if s.blacklisted || s.cooling_down then 1 else 0);
        active_nodes = sum.active_nodes + (if is_above_zero s.active_connections then 1 else 0);
      }

  unfoldable pub add_nodes : List (Snapshot F) → NodeSummary → NodeSummary
  add_nodes [] sum = sum
  add_nodes (s ∷ nodes) sum = add_nodes nodes (add_node s sum)

  unfoldable pub summarize_nodes : List (Snapshot F) → NodeSummary
  summarize_nodes nodes = add_nodes nodes (record {
    total_nodes = length nodes;
    healthy_nodes = 0;
    unavailable_nodes = 0;
    unknown_nodes = 0;
    blacklisted_nodes = 0;
    active_nodes = 0;
  })

  -- How many nodes a filter of the list lets through.
  abbrev pub with_status : StatusFilter → List (Snapshot F) → ℕ
  with_status f nodes = length (keep (λ s. node_matches_status s f) nodes)

  abbrev pub with_connections : List (Snapshot F) → ℕ
  with_connections nodes = length (keep (λ s. node_matches_activity s active) nodes)

  -- The sums behind a list, and before it.
  record Added (before : NodeSummary) (nodes : List (Snapshot F)) (sum : NodeSummary) : Type 0 where
    total : sum.total_nodes ≡ before.total_nodes
    healthy_ones : sum.healthy_nodes ≡ before.healthy_nodes + with_status healthy nodes
    unavailable_ones :
        sum.unavailable_nodes ≡ before.unavailable_nodes + with_status unavailable nodes
    unknown_ones : sum.unknown_nodes ≡ before.unknown_nodes + with_status unknown nodes
    active_ones : sum.active_nodes ≡ before.active_nodes + with_connections nodes

  add_nodes-Added :
      (nodes : List (Snapshot F)) (before : NodeSummary)
      → Added before nodes (add_nodes nodes before)
  unfolding add_nodes add_node node_matches_status node_matches_activity
  add_nodes-Added [] before = record {
    total = refl;
    healthy_ones = omega arith;
    unavailable_ones = omega arith;
    unknown_ones = omega arith;
    active_ones = omega arith;
  }
  add_nodes-Added (s ∷ nodes) before =
      let rest = add_nodes-Added nodes (add_node s before) in
      record {
        total = rest.total;
        healthy_ones = ground (arith, rest.healthy_ones);
        unavailable_ones = ground (arith, rest.unavailable_ones);
        unknown_ones = ground (arith, rest.unknown_ones);
        active_ones = ground (arith, rest.active_ones);
      }

  -- Every node has exactly one of three states.
  three_states :
      (nodes : List (Snapshot F))
      → with_status healthy nodes + with_status unavailable nodes + with_status unknown nodes
        ≡ length nodes
  unfolding node_matches_status
  three_states [] = refl
  three_states (s ∷ nodes) = ground (arith, three_states nodes)

  pub record Counted (nodes : List (Snapshot F)) (sum : NodeSummary) : Type 0 where
    pub total : sum.healthy_nodes + sum.unavailable_nodes + sum.unknown_nodes ≡ sum.total_nodes
    pub all_nodes : sum.total_nodes ≡ length nodes
    pub healthy_ones : sum.healthy_nodes ≡ with_status healthy nodes
    pub unavailable_ones : sum.unavailable_nodes ≡ with_status unavailable nodes
    pub unknown_ones : sum.unknown_nodes ≡ with_status unknown nodes
    pub active_ones : sum.active_nodes ≡ with_connections nodes

  -- The summary of the nodes agrees with the filters of their list: it counts as healthy, unavailable,
  -- unknown and active the nodes that these filters let through, and the first three counts add
  -- up to the number of nodes.
  pub summarize_nodes-Counted : (nodes : List (Snapshot F)) → Counted nodes (summarize_nodes nodes)
  unfolding summarize_nodes
  summarize_nodes-Counted nodes =
      let a = add_nodes-Added nodes _ in
      record {
        total = omega (
          arith,
          a.total,
          a.healthy_ones,
          a.unavailable_ones,
          a.unknown_ones,
          three_states nodes,
        );
        all_nodes = a.total;
        healthy_ones = omega (arith, a.healthy_ones);
        unavailable_ones = omega (arith, a.unavailable_ones);
        unknown_ones = omega (arith, a.unknown_ones);
        active_ones = omega (arith, a.active_ones);
      }
