-- ===== src/Examples/Results.antt =====
-- Results of probes at concrete histories of an entry.
use proxyfleet.Base.{
  ℕ, ◌≡◌, ◌⊎◌, ◌++◌, true, false, refl, none, some, List, [], ◌∷◌, inl, inr, pos, arith, codes,
}
use proxyfleet.Monitor.Entry.{Entry}
use proxyfleet.Monitor.Probes.{
  Probed, failed, Version, no_publisher, publishing, Routing, mark_probe_result_generation,
}
use proxyfleet.Monitor.Probes.History.{
  Event, mark, execute, bar, traffic_failure, checked, ban, cool, step, run,
}
use proxyfleet.Monitor.Probes.Order.{mark-mark_unchanged}
use proxyfleet.Monitor.Probes.Barriers.{mark-raised_refused}
use proxyfleet.Monitor.Probes.Shown.{Consistent, run-Consistent}

abbrev entry_of_node : Entry
entry_of_node = record {
  failure = 0;
  success = 0;
  blacklist = false;
  until = 0;
  cooling_down = false;
  cooldown_until = 0;
  last_fail = 0;
  last_ok = 0;
  last_passive_success = 0;
  last_passive_failure = 0;
  active = pos 0;
  callbacks = true;
  initial_check_done = false;
  available = false;
  diagnostics_visible = false;
  probe_generation = 1;
  probe_invalidated_at = 0;
}

-- Its fifth probe has succeeded.
abbrev probed_node : Probed
probed_node = record {
  entry = entry_of_node;
  has_probe = true;
  identity = codes "node-a";
  next_id = 5;
  applied_id = 5;
  applied_success = true;
  completed_at = 40;
  last_probe_at = 40;
  last_probe = 3;
  consecutive_fails = 0;
  timeline = [];
  call = none;
}

abbrev version : ℕ → Version
version id = record { generation = 1; id = id; started_at = 30; completed_at = 45 }

-- The shared state lets the node go before the entry is marked.
abbrev lifting : Routing
lifting = record {
  apply = λ e. record e { blacklist = false; until = 0 };
  keeps_generation = λ e. refl;
}

abbrev busy : List Event
busy =
    ban 90
    ∷ execute false 50
    ∷ mark (publishing lifting)
        (record { generation = 1; id = 6; started_at = 50; completed_at = 60 }) 7 none 61
    ∷ cool 99
    ∷ traffic_failure 70
    ∷ []

-- Its sixth probe succeeds, and a late result of the same call follows.
mark-mark_unchanged_example :
    (step (mark no_publisher (version 6) 9 none 80) probed_node ≡ probed_node)
    ⊎ (run
          (mark no_publisher (version 6) 9 none 80
            ∷ (busy ++ (mark no_publisher (version 6) 9 (some failed) 90 ∷ [])))
          probed_node
        ≡ run (mark no_publisher (version 6) 9 none 80 ∷ busy) probed_node)
mark-mark_unchanged_example =
    mark-mark_unchanged busy no_publisher no_publisher (version 6) (version 6) 9 9 none
      (some failed) 80 90 probed_node (omega arith) (inr (refl, inl refl))

mark-raised_refused_example :
    mark_probe_result_generation
      (publishing lifting)
      (version 6)
      9
      none
      80
      (run (bar 50 ∷ busy) probed_node)
    ≡ (false, run (bar 50 ∷ busy) probed_node)
mark-raised_refused_example =
    mark-raised_refused (bar 50) busy (publishing lifting) (version 6) 9 none 80 probed_node refl
      (omega arith)

-- The pool tells the entry that its node is available, and bans it behind that.
abbrev told_then_banned : List Event
told_then_banned = checked true ∷ busy

run-Consistent_example : Consistent (run told_then_banned probed_node)
run-Consistent_example =
    run-Consistent told_then_banned probed_node
      ((λ _. (refl, refl)), (tt, (tt, (tt, (tt, (tt, tt))))))
      (record { not_banned = λ _. refl; not_cooling = λ _. refl; recent = omega arith })
