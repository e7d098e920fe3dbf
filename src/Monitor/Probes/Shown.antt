-- ===== src/Monitor/Probes/Shown.antt =====
-- What an entry shows of its node stays consistent, and bounded.
use proxyfleet.Base.{
  ℕ, ◌≤◌, ◌≡◌, ◌==◌, Bool, true, false, refl, Option, none, some, List, [], ◌∷◌, arith, Bytes,
  length, length-append, length-drop, drop, not, ◌&&◌, ◌||◌, ltb, ap, if_cases, is_nil, bytes_eq,
}
use proxyfleet.Monitor.Entry.{
  record_failure, record_success, blacklist_until, clear_blacklist, cooldown, clear_cooldown,
  invalidate_probe_results, clear_runtime_callbacks, mark_initial_check_done, mark_available,
  HealthState, restore_health_state, restore_counters, restore_blacklist, restore_cooldown,
}
use proxyfleet.Monitor.Probes.{
  Probed, ProbeError, canceled, superseded, failed, Version, Publisher, no_publisher, refusing,
  publishing, Routing, is_canceled, is_superseded, is_waiting, is_repeated, has_newer_traffic,
  is_overtaken, note_applied, route, mark_probe_result_generation, mark_probe_result_at,
  mark_success, mark_failure, publish, publish_through, execute_probe_generation, start_call,
  note_completed, close_call, set_probe_publisher, clear_callbacks, invalidate,
  apply_validated_probe, note_failure, note_success, note_success_with_latency, TimelineEvent,
  append_timeline, change_target, restore_health, clear_diagnostics,
}
use proxyfleet.Monitor.Probes.History.{
  Event, mark, execute, complete, finish, install, retire, bar, import_check, traffic_failure,
  traffic_success, timed_success, ban, unban, cool, uncool, checked, told_available, retarget,
  restore, forget, step, run,
}

pub record Consistent (p : Probed) : Type 0 where
  pub not_banned : p.entry.available ≡ true → p.entry.blacklist ≡ false
  pub not_cooling : p.entry.available ≡ true → p.entry.cooling_down ≡ false
  pub recent : length p.timeline ≤ 20

length-append_timeline :
    (x : TimelineEvent) (xs : List TimelineEvent)
    → length xs ≤ 20
    → length (append_timeline x xs) ≤ 20
unfolding append_timeline
length-append_timeline x xs h =
    ground (arith, length-append xs (x ∷ []), length-append (drop 1 xs) (x ∷ []), length-drop 1 xs)

-- A mark sets what is shown anew, whatever the routing change before it did.
mark_at-Consistent :
    (now latency : ℕ) (err : Option ProbeError) (p : Probed)
    → is_canceled err ≡ false
    → length p.timeline ≤ 20
    → Consistent (mark_probe_result_at now latency err p)
unfolding mark_probe_result_at mark_success mark_failure
mark_at-Consistent now latency none p h l =
    let k = length-append_timeline _ p.timeline l in
    record { not_banned = λ a. ground (arith, a); not_cooling = λ a. ground (arith, a); recent = k }
mark_at-Consistent now latency (some canceled) p h l = absurd (ground (arith, h))
mark_at-Consistent now latency (some superseded) p h l =
    let k = length-append_timeline _ p.timeline l in
    record { not_banned = λ a. ground (arith, a); not_cooling = λ a. ground (arith, a); recent = k }
mark_at-Consistent now latency (some failed) p h l =
    let k = length-append_timeline _ p.timeline l in
    record { not_banned = λ a. ground (arith, a); not_cooling = λ a. ground (arith, a); recent = k }

timeline-route : (r : Option Routing) (p : Probed) → (route r p).timeline ≡ p.timeline
timeline-route none p = refl
timeline-route (some r) p = refl

note_applied-Consistent :
    (id : ℕ) (err : Option ProbeError) (p : Probed)
    → Consistent p
    → Consistent (note_applied id err p)
note_applied-Consistent id err p c =
    if_cases Consistent (ltb 0 id)
      (λ _. record { not_banned = c.not_banned; not_cooling = c.not_cooling; recent = c.recent })
      (λ _. c)

mark_routed-Consistent :
    (r : Option Routing) (now latency : ℕ) (err : Option ProbeError) (p : Probed)
    → is_canceled err ≡ false
    → length p.timeline ≤ 20
    → Consistent (mark_probe_result_at now latency err (route r p))
mark_routed-Consistent r now latency err p h l =
    mark_at-Consistent now latency err (route r p) h
      (omega (arith, ap length (timeline-route r p), l))

publish-Consistent :
    (r : Option Routing) (v : Version) (latency : ℕ) (err : Option ProbeError) (now : ℕ)
    (p : Probed)
    → Consistent p
    → Consistent (publish r v latency err now p).1
unfolding publish
publish-Consistent r v latency err now p c =
    let P : Bool × Probed → Type 0 = λ o. Consistent o.1 in
    if_cases P (not (v.generation == p.entry.probe_generation)) (λ _. c)
      (λ _.
        if_cases P (is_waiting v err) (λ _. c)
          (λ w.
            if_cases P (is_repeated v err p) (λ _. c)
              (λ _.
                if_cases P (not (v.started_at == 0) && has_newer_traffic v.started_at p.entry)
                  (λ _. c)
                  (λ _.
                    note_applied-Consistent v.id err _
                      (mark_routed-Consistent r _ latency err p (ground (arith, w)) c.recent)))))

mark-Consistent :
    (u : Publisher) (v : Version) (latency : ℕ) (err : Option ProbeError) (now : ℕ) (p : Probed)
    → Consistent p
    → Consistent (mark_probe_result_generation u v latency err now p).1
unfolding mark_probe_result_generation publish_through
mark-Consistent no_publisher v latency err now p c =
    if_cases (λ (o : Bool × Probed). Consistent o.1) (is_superseded err) (λ _. c)
      (λ _. publish-Consistent none v latency err now p c)
mark-Consistent refusing v latency err now p c =
    if_cases (λ (o : Bool × Probed). Consistent o.1) (is_superseded err) (λ _. c) (λ _. c)
mark-Consistent (publishing r) v latency err now p c =
    if_cases (λ (o : Bool × Probed). Consistent o.1) (is_superseded err) (λ _. c)
      (λ _. publish-Consistent (some r) v latency err now p c)

import-Consistent :
    (r : Option Routing) (identity : Bytes) (started_at completed_at latency : ℕ)
    (err : Option ProbeError) (p : Probed)
    → Consistent p
    → Consistent (apply_validated_probe r identity started_at completed_at latency err p).1
unfolding apply_validated_probe
import-Consistent r identity started_at completed_at latency err p c =
    let P : Bool × Probed → Type 0 = λ o. Consistent o.1 in
    if_cases P
      (is_nil identity || started_at == 0 || ltb completed_at started_at || is_canceled err)
      (λ _. c)
      (λ w.
        if_cases P (not (bytes_eq p.identity identity) || is_overtaken started_at p) (λ _. c)
          (λ _. mark_routed-Consistent r completed_at latency err _ (ground (arith, w)) c.recent))

-- Whoever tells the entry that its node is available, the pool, does so while neither a ban nor a
-- cooldown is noted there.
abbrev pub IsHonest : Event → Probed → Type 0
IsHonest (checked available) p =
    available ≡ true → (p.entry.blacklist ≡ false) × (p.entry.cooling_down ≡ false)
IsHonest (told_available available) p =
    available ≡ true → (p.entry.blacklist ≡ false) × (p.entry.cooling_down ≡ false)
IsHonest _ p = Unit {0}

abbrev pub AllHonest : List Event → Probed → Type 0
AllHonest [] p = Unit
AllHonest (e ∷ es) p = IsHonest e p × AllHonest es (step e p)

restore-Consistent :
    (now : ℕ) (h : HealthState) (last_probe last_probe_at fails : ℕ) (p : Probed)
    → length p.timeline ≤ 20
    → Consistent (restore_health now h last_probe last_probe_at fails p)
unfolding restore_health restore_health_state restore_counters restore_blacklist restore_cooldown
restore-Consistent now h last_probe last_probe_at fails p l = record {
  not_banned = λ a. ground (arith, a);
  not_cooling = λ a. ground (arith, a);
  recent = l;
}

step-Consistent : (e : Event) (p : Probed) → IsHonest e p → Consistent p → Consistent (step e p)
unfolding step execute_probe_generation start_call note_completed close_call set_probe_publisher
    clear_callbacks invalidate note_failure note_success note_success_with_latency record_failure
    record_success blacklist_until clear_blacklist cooldown clear_cooldown invalidate_probe_results
    clear_runtime_callbacks mark_initial_check_done mark_available change_target clear_diagnostics
step-Consistent (mark u v latency err now) p h c = mark-Consistent u v latency err now p c
step-Consistent (execute stopped now) p h c = record {
  not_banned = λ a. ground (arith, c, a);
  not_cooling = λ a. ground (arith, c, a);
  recent = ground (arith, c);
}
step-Consistent (complete at d) p h c = record {
  not_banned = λ a. ground (arith, c, a);
  not_cooling = λ a. ground (arith, c, a);
  recent = ground (arith, c);
}
step-Consistent (finish d) p h c = record {
  not_banned = c.not_banned;
  not_cooling = c.not_cooling;
  recent = c.recent;
}
step-Consistent (install identity has_probe) p h c = record {
  not_banned = λ a. ground (arith, c, a);
  not_cooling = λ a. ground (arith, c, a);
  recent = c.recent;
}
step-Consistent retire p h c = record {
  not_banned = c.not_banned;
  not_cooling = c.not_cooling;
  recent = c.recent;
}
step-Consistent (bar now) p h c = record {
  not_banned = c.not_banned;
  not_cooling = c.not_cooling;
  recent = c.recent;
}
step-Consistent (import_check r identity started_at completed_at latency err) p h c =
    import-Consistent r identity started_at completed_at latency err p c
step-Consistent (traffic_failure now) p h c = record {
  not_banned = c.not_banned;
  not_cooling = c.not_cooling;
  recent = length-append_timeline _ p.timeline c.recent;
}
step-Consistent (traffic_success now) p h c = record {
  not_banned = c.not_banned;
  not_cooling = c.not_cooling;
  recent = length-append_timeline _ p.timeline c.recent;
}
step-Consistent (timed_success now latency) p h c = record {
  not_banned = c.not_banned;
  not_cooling = c.not_cooling;
  recent = length-append_timeline _ p.timeline c.recent;
}
step-Consistent (ban until) p h c = record {
  not_banned = λ a. ground (arith, a);
  not_cooling = λ a. ground (arith, a);
  recent = c.recent;
}
step-Consistent unban p h c = record {
  not_banned = λ _. refl;
  not_cooling = c.not_cooling;
  recent = c.recent;
}
step-Consistent (cool until) p h c = record {
  not_banned = λ a. ground (arith, a);
  not_cooling = λ a. ground (arith, a);
  recent = c.recent;
}
step-Consistent uncool p h c = record {
  not_banned = c.not_banned;
  not_cooling = λ _. refl;
  recent = c.recent;
}
step-Consistent (checked available) p h c = record {
  not_banned = λ a. (h a).0;
  not_cooling = λ a. (h a).1;
  recent = c.recent;
}
step-Consistent (told_available available) p h c = record {
  not_banned = λ a. (h a).0;
  not_cooling = λ a. (h a).1;
  recent = c.recent;
}
step-Consistent retarget p h c = record {
  not_banned = λ a. ground (arith, a);
  not_cooling = λ a. ground (arith, a);
  recent = c.recent;
}
step-Consistent (restore now s last_probe last_probe_at fails) p h c =
    restore-Consistent now s last_probe last_probe_at fails p c.recent
step-Consistent forget p h c = record {
  not_banned = c.not_banned;
  not_cooling = c.not_cooling;
  recent = omega arith;
}

-- A node that an entry shows as available is neither banned nor cooling down there, and its timeline
-- keeps at most twenty events: an entry for which this holds keeps it through every history of
-- probes, late results, traffic, bans, cooldowns, replaced callbacks, checks taken over, changed
-- targets, restored and cleared records, whatever the routing changes that the probes' publishers
-- make, if whoever tells the entry behind a connection that its node is available does so only
-- while the entry notes neither a ban nor a cooldown.
pub run-Consistent :
    (es : List Event) (p : Probed) → AllHonest es p → Consistent p → Consistent (run es p)
unfolding run
run-Consistent [] p h c = c
run-Consistent (e ∷ es) p h c = run-Consistent es (step e p) h.1 (step-Consistent e p h.0 c)
