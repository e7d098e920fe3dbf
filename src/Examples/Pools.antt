-- ===== src/Examples/Pools.antt =====
-- The eligible index, a probe's slot and the retry loop at concrete inputs.
use proxyfleet.Base.{ℕ, ◌≡◌, true, false, some, List, [], ◌∷◌, ◌==◌, ltb}
use proxyfleet.Pool.Lifetime.{
  World, start, close_in, Reaches, here, then_step, hold_step, close_step, leave_step,
}
use proxyfleet.Pool.Lifetime.Slot.{SlotOk, reaches-SlotOk, reaches-released}
use proxyfleet.Pool.Eligible.{new_member_set, Op, adds, removes, Served, EligiblePool}
use proxyfleet.Pool.Eligible.Index.{Indexed, run-Indexed}
use proxyfleet.Pool.Dial.{Round}

-- A callback is admitted, the caller closes, and the callback leaves twice.
abbrev a_probe : (w : World) × Reaches start w
a_probe = (
  _,
  then_step (then_step (then_step (then_step here hold_step) close_step) (leave_step 0))
      (leave_step 0),
)

reaches-SlotOk_example : SlotOk a_probe.0
reaches-SlotOk_example = reaches-SlotOk a_probe.1

reaches-released_example : (u : World) × (Reaches (close_in a_probe.0) u × (u.released ≡ 1))
reaches-released_example = reaches-released a_probe.1

abbrev changes : List Op
changes = adds 7 ∷ adds 8 ∷ adds 9 ∷ removes 7 ∷ adds 8 ∷ removes 5 ∷ []

run-Indexed_example : Indexed changes new_member_set
run-Indexed_example = run-Indexed changes

abbrev tcp_only : Served
tcp_only = record { member = 7; tcp = true; udp = false }

abbrev empty_pool : EligiblePool
empty_pool = record {
  closed = false;
  eligible_tcp = new_member_set;
  eligible_udp = new_member_set;
  eligible_version = 18446744073709551615;
}

-- The first node fails and a failover is begun; the second node connects.
abbrev two_rounds : ℕ → List ℕ → Round
two_rounds k tried = record {
  picked = some k;
  takes_hold = true;
  backs_off = false;
  admitted = true;
  can_failover = k == 1;
  connects = ltb 1 k;
  closed = false;
  commits = true;
  cancelled = false;
  shortage = false;
  prepares = true;
}
