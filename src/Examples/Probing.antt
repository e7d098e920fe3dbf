-- ===== src/Examples/Probing.antt =====
-- The monitor's log and its probing at concrete inputs.
use proxyfleet.Base.{
  ℕ, ◌≡◌, ◌≤◌, ◌-◌, ◌+◌, ◌%◌, ◌*◌, true, false, not, List, [], ◌∷◌, ◌==◌, min, ltb, suffix, codes,
  pos, arith,
}
use proxyfleet.Monitor.LogBuffer.{new_log_buffer, content}
use proxyfleet.Monitor.LogBuffer.Refinement.{Op, writes, clears, run, since, run-suffix}
use proxyfleet.Monitor.Backoff.{hour, minute}
use proxyfleet.Monitor.Picks.{Groups, pick}
use proxyfleet.Monitor.Picks.Steps.{Picked}
use proxyfleet.Monitor.Picks.Shares.{pick-Picked}
use proxyfleet.Monitor.Budget.{Floats, Limits, Budget, cap}
use proxyfleet.Monitor.Budget.Caps.{Call, granted, granted-hour_le}
use proxyfleet.Monitor.Adaptive.{Reading, Intervals}
use proxyfleet.Monitor.Adaptive.Batch.{Taken, select_adaptive_entries-Taken}

abbrev log : List Op
log = writes (codes "old line") ∷ clears ∷ writes (codes "one") ∷ writes (codes " two") ∷ []

run-suffix_example : content (run log (new_log_buffer (pos 5))) ≡ suffix 5 (since log [])
run-suffix_example = run-suffix 5 log

abbrev due_nodes : Groups ℕ
due_nodes = record { fresh_ones = 1 ∷ 2 ∷ 3 ∷ []; recovering_ones = []; healthy_ones = 4 ∷ 5 ∷ [] }

pick-Picked_example : Picked 4 (6 % 4) due_nodes (pick (4 * 4) 4 6 due_nodes)
pick-Picked_example = pick-Picked 4 6 due_nodes (omega arith)

-- Whole tokens in place of `float64`: a rate in probes per day, refilled by the hour.
abbrev whole_tokens : Floats ℕ
whole_tokens = record {
  zero_rate = 0;
  from_int = λ n. n;
  per_hour = λ n. n * 24;
  per_day = λ n. n;
  is_zero = λ r. r == 0;
  is_positive = λ r. not (r == 0);
  less = ltb;
  refilled = λ t d r. t + r;
  least = min;
  whole = λ t. t;
  spent = λ t n. t - n;
}

abbrev caps : Limits
caps = record { batch_size = pos 10; per_hour = pos 3; per_day = pos 50 }

abbrev no_budget : Budget ℕ
no_budget = record { window = 0; used = 0; day = 0; daily_used = 0; tokens = 0; refilled = 0 }

abbrev calls : List Call
calls =
    record { requested = 2; now = 100 * hour + 5; day = 96 * hour }
    ∷ record { requested = 4; now = 100 * hour + minute; day = 96 * hour }
    ∷ []

granted-hour_le_example : granted whole_tokens caps calls no_budget ≤ cap (pos 3)
granted-hour_le_example =
    granted-hour_le whole_tokens caps (100 * hour) calls no_budget (omega arith) (omega arith)
      (omega arith, (omega arith, tt)) (omega arith)

abbrev intervals : Intervals
intervals = record {
  healthy_interval = pos 0;
  failure_retry_interval = pos 0;
  failure_max_interval = 0;
  passive_grace = pos 0;
}

-- A node that was never probed, one that fails, and one that traffic vouches for.
abbrev readings : List Reading
readings =
    record {
      id = 1;
      tag = codes "a";
      probe_available = true;
      initial_check_done = false;
      available = false;
      last_probe_at = 0;
      last_passive_success = 0;
      last_failure = 0;
      failures = 0;
    }
    ∷ record {
      id = 2;
      tag = codes "b";
      probe_available = true;
      initial_check_done = true;
      available = false;
      last_probe_at = 99 * hour;
      last_passive_success = 0;
      last_failure = 99 * hour;
      failures = 2;
    }
    ∷ record {
      id = 3;
      tag = codes "c";
      probe_available = true;
      initial_check_done = true;
      available = true;
      last_probe_at = 90 * hour;
      last_passive_success = 100 * hour;
      last_failure = 0;
      failures = 0;
    }
    ∷ []

select_adaptive_entries-Taken_example :
    Taken whole_tokens caps intervals
      (pos 2)
      (100 * hour)
      (96 * hour)
      readings
      (record { budget = no_budget; cursor = 0 })
select_adaptive_entries-Taken_example =
    select_adaptive_entries-Taken whole_tokens caps intervals (pos 2) (100 * hour) (96 * hour)
      readings (record { budget = no_budget; cursor = 0 })
