-- ===== src/Examples/Nodes.antt =====
-- One node's health state at concrete histories.
use proxyfleet.Base.{
  ℕ, ◌≡◌, Bool, true, false, none, some, List, [], ◌∷◌, Bytes, pos, refl, inr, arith, codes,
}
use proxyfleet.Pool.Member.State.{Member, Readings}
use proxyfleet.Pool.Member.Failure.{FailurePolicy, record_failure_locked}
use proxyfleet.Pool.Member.Retire.{fresh, acquire_new, release_owner}
use proxyfleet.Pool.Member.Run.{
  Event, fail, succeed, probe_passed, ban_timer, watch, connect, admin_ban, step, run,
  cooldown_timer, look_banned, look_cooling,
}
use proxyfleet.Pool.Member.Invariant.{Inv}
use proxyfleet.Pool.Member.Histories.{run-Inv, acquire_new_fresh-Inv}
use proxyfleet.Pool.Member.Holds.{ManualBan, Cooling, run-ManualBan, run-Cooling}
use proxyfleet.Pool.Member.Strikes.{Struck, Banned, fail_all, threshold_exact}
use proxyfleet.Pool.Member.Handover.{SameHolds, next_owner, release_owner-acquire}
use proxyfleet.Pool.Member.Notices.{Settled, told}
use proxyfleet.Pool.Member.Watchers.{step-Settled, Unheard, release_after_probe-silent}

abbrev node : Bytes
node = codes "node-a"

abbrev at : ℕ → Readings
at n = record { decided = n; noted = n; saved = n }

abbrev new_node : Member
new_node = acquire_new 10 10 node none

-- A failure, a watcher, a manual ban, and the ban's timer.
abbrev history : List Event
history =
    fail (at 10) false (pos 1) (pos 5) (pos 5) true
    ∷ watch 11 11 11 11
    ∷ admin_ban (at 12) (pos 8)
    ∷ ban_timer 20 20 20 20
    ∷ []

run-Inv_example : Inv (run history new_node)
run-Inv_example =
    run-Inv history new_node (tt, (tt, (omega arith, (tt, tt)))) (acquire_new_fresh-Inv 10 10 node)

abbrev banned_node : Member
banned_node = record (fresh node) {
  blacklisted = true;
  blacklisted_until = 100;
  manual_blacklist = true;
  blacklisted_fast = true;
  blacklist_timer = some 100;
}

abbrev traffic : List Event
traffic = fail (at 20) false (pos 1) (pos 5) (pos 5) true ∷ probe_passed (at 30) ∷ connect ∷ []

run-ManualBan_example : ManualBan 100 (run traffic banned_node)
run-ManualBan_example =
    run-ManualBan 100 traffic banned_node (omega arith, (omega arith, (tt, tt)))
      (record { blacklisted = refl; manual = refl; until = refl; flagged = refl })

abbrev cooling_node : Member
cooling_node = record (fresh node) {
  cooldown_until = 100;
  blacklisted_fast = true;
  cooldown_timer = some 100;
  watchers = (1, true) ∷ [];
}

abbrev evidence : List Event
evidence =
    succeed (at 20) 20 ∷ probe_passed (at 30) ∷ fail (at 40) true (pos 1) (pos 1) (pos 1) true ∷ []

run-Cooling_example : Cooling 100 (run evidence cooling_node)
run-Cooling_example =
    run-Cooling 100 evidence cooling_node (omega arith, (omega arith, (omega arith, tt)))
      (record { until = omega arith; flagged = refl })

step-Settled_example : Settled (step (probe_passed (at 30)) cooling_node)
unfolding told
step-Settled_example =
    step-Settled (probe_passed (at 30)) cooling_node (inr (omega arith)) (record {
      known = λ _. refl;
      flagged = λ _. refl;
      ban_flagged = λ _. refl;
      reason = λ _. inr (omega arith);
    })

release_after_probe-silent_example :
    (told true cooling_node.watchers ≡ true)
    × Unheard cooling_node (step (probe_passed (at 200)) cooling_node)
    × Unheard cooling_node (
        run
          (probe_passed (at 200)
            ∷ cooldown_timer 100 201 201
            ∷ look_banned 300 300
            ∷ look_cooling 301 301
            ∷ [])
          cooling_node)
unfolding told
release_after_probe-silent_example =
    release_after_probe-silent (at 200) cooling_node 201 201 300 300 301 301
      (record {
        known = λ _. refl;
        flagged = λ _. refl;
        ban_flagged = λ _. refl;
        reason = λ _. inr (omega arith);
      })
      refl refl (omega arith) (omega arith)

abbrev policy : Bool → FailurePolicy
policy transient = record {
  transient = transient;
  threshold = 3;
  blacklist_duration = 60;
  transient_cooldown = 5;
  traffic = true;
}

abbrev two : List Readings
two = at 10 ∷ at 20 ∷ []

threshold_exact_example :
    Struck 2 (fail_all (policy false) two (fresh node))
    × Banned 90
        (record_failure_locked (at 30) (policy false) (fail_all (policy false) two (fresh node))).1
threshold_exact_example =
    threshold_exact (policy false) two (at 30) (fresh node) refl refl
      (record { strikes = refl; not_banned = refl; live = refl })

abbrev idle_node : Member
idle_node = record (fresh node) { failures = 2; cooldown_until = 100; blacklisted_fast = true }

release_owner-acquire_example :
    ((release_owner 40 idle_node).0 ≡ true)
    × ((release_owner 40 idle_node).1.closed ≡ true)
    × SameHolds 50 idle_node (next_owner 50 51 (release_owner 40 idle_node).1)
release_owner-acquire_example =
    release_owner-acquire 40 50 51 idle_node refl (λ e. ground (arith, e)) (omega arith) refl refl
      (omega arith)
