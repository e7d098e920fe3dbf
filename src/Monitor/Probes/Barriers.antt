-- ===== src/Monitor/Probes/Barriers.antt =====
-- A new generation of an entry's probes keeps the results of the older ones out.
use proxyfleet.Base.{
  ℕ, ◌+◌, ◌≤◌, ◌<◌, ◌≡◌, ◌==◌, Bool, true, false, refl, Option, none, some, List, [], ◌∷◌,
  if◌then◌else◌, arith, Bytes,
}
use proxyfleet.Monitor.Entry.{
  record_failure, record_success, blacklist_until, clear_blacklist, cooldown, clear_cooldown,
  invalidate_probe_results, clear_runtime_callbacks, mark_initial_check_done, mark_available,
  restore_health_state, restore_counters, restore_blacklist, restore_cooldown,
}
use proxyfleet.Monitor.Probes.{
  Probed, ProbeError, canceled, superseded, failed, Version, Publisher, no_publisher, refusing,
  publishing, Routing, route, mark_probe_result_generation, mark_probe_result_at, mark_success,
  mark_failure, publish, publish_through, execute_probe_generation, start_call, note_completed,
  close_call, set_probe_publisher, clear_callbacks, invalidate, apply_validated_probe, note_failure,
  note_success, note_success_with_latency, change_target, restore_health, clear_diagnostics,
}
use proxyfleet.Monitor.Probes.History.{
  Event, mark, execute, complete, finish, install, retire, bar, import_check, traffic_failure,
  traffic_success, timed_success, ban, unban, cool, uncool, checked, told_available, retarget,
  restore, forget, step, run,
}

abbrev generation : Probed → ℕ
generation p = p.entry.probe_generation

generation-mark_at :
    (now latency : ℕ) (err : Option ProbeError) (p : Probed)
    → generation (mark_probe_result_at now latency err p) ≡ generation p
unfolding mark_probe_result_at mark_success mark_failure
generation-mark_at now latency none p = refl
generation-mark_at now latency (some canceled) p = refl
generation-mark_at now latency (some superseded) p = refl
generation-mark_at now latency (some failed) p = refl

generation-route : (r : Option Routing) (p : Probed) → generation (route r p) ≡ generation p
generation-route none p = refl
generation-route (some r) p = r.keeps_generation p.entry

generation-publish :
    (r : Option Routing) (v : Version) (latency : ℕ) (err : Option ProbeError) (now : ℕ)
    (p : Probed)
    → generation (publish r v latency err now p).1 ≡ generation p
unfolding publish
generation-publish r v latency err now p =
    let at = if v.completed_at == 0 then now else v.completed_at in
    ground (arith, generation-mark_at at latency err (route r p), generation-route r p)

generation-mark :
    (u : Publisher) (v : Version) (latency : ℕ) (err : Option ProbeError) (now : ℕ) (p : Probed)
    → generation (mark_probe_result_generation u v latency err now p).1 ≡ generation p
unfolding mark_probe_result_generation publish_through
generation-mark no_publisher v latency err now p =
    ground (arith, generation-publish none v latency err now p)
generation-mark refusing v latency err now p = ground arith
generation-mark (publishing r) v latency err now p =
    ground (arith, generation-publish (some r) v latency err now p)

generation-import :
    (r : Option Routing) (identity : Bytes) (started_at completed_at latency : ℕ)
    (err : Option ProbeError) (p : Probed)
    → generation (apply_validated_probe r identity started_at completed_at latency err p).1
      ≡ generation p
        + (if (apply_validated_probe r identity started_at completed_at latency err p).0
            then 1
            else 0)
unfolding apply_validated_probe
generation-import r identity started_at completed_at latency err p =
    let q : Probed = record p {
      entry = record p.entry { probe_generation = p.entry.probe_generation + 1 };
    } in
    ground (arith, generation-mark_at completed_at latency err (route r q), generation-route r q)

generation-execute :
    (stopped : Bool) (now : ℕ) (p : Probed)
    → generation (execute_probe_generation stopped now p).1 ≡ generation p
unfolding execute_probe_generation start_call
generation-execute stopped now p = ground arith

-- An event that overtakes what was started before it: a new callback, none, an administrator's
-- change, a new target of the probes, or the check of a candidate that is taken over.
abbrev pub raises : Event → Probed → Bool
raises (install identity has_probe) p = true
raises retire p = true
raises (bar now) p = true
raises retarget p = true
raises (import_check r identity started_at completed_at latency err) p =
    (apply_validated_probe r identity started_at completed_at latency err p).0
raises _ p = false

generation-step :
    (e : Event) (p : Probed) → generation (step e p) ≡ generation p + (if raises e p then 1 else 0)
unfolding step note_completed close_call set_probe_publisher clear_callbacks invalidate note_failure
    note_success note_success_with_latency record_failure record_success blacklist_until
    clear_blacklist cooldown clear_cooldown invalidate_probe_results clear_runtime_callbacks
    mark_initial_check_done mark_available change_target restore_health restore_health_state
    restore_counters restore_blacklist restore_cooldown clear_diagnostics
generation-step (mark u v latency err now) p = ground (arith, generation-mark u v latency err now p)
generation-step (execute stopped now) p = ground (arith, generation-execute stopped now p)
generation-step (complete at c) p = ground arith
generation-step (finish c) p = ground arith
generation-step (install identity has_probe) p = ground arith
generation-step retire p = ground arith
generation-step (bar now) p = ground arith
generation-step (import_check r identity started_at completed_at latency err) p =
    generation-import r identity started_at completed_at latency err p
generation-step (traffic_failure now) p = ground arith
generation-step (traffic_success now) p = ground arith
generation-step (timed_success now latency) p = ground arith
generation-step (ban until) p = ground arith
generation-step unban p = ground arith
generation-step (cool until) p = ground arith
generation-step uncool p = ground arith
generation-step (checked available) p = ground arith
generation-step (told_available available) p = ground arith
generation-step retarget p = ground arith
generation-step (restore now h last_probe last_probe_at fails) p = ground arith
generation-step forget p = ground arith

generation-run : (es : List Event) (p : Probed) → generation p ≤ generation (run es p)
unfolding run
generation-run [] p = omega arith
generation-run (e ∷ es) p = omega (arith, generation-step e p, generation-run es (step e p))

mark_older :
    (u : Publisher) (v : Version) (latency : ℕ) (err : Option ProbeError) (now : ℕ) (p : Probed)
    → v.generation < generation p
    → mark_probe_result_generation u v latency err now p ≡ (false, p)
unfolding mark_probe_result_generation publish_through publish
mark_older no_publisher v latency err now p h = ground (arith, h)
mark_older refusing v latency err now p h = ground (arith, h)
mark_older (publishing r) v latency err now p h = ground (arith, h)

-- Results of overtaken probes never count: after a callback is installed or taken away, after an
-- administrator's change, after the target of the probes has changed and after a candidate's check
-- has been taken over, whatever happens then,
-- a result of a call that was started before is refused, and changes nothing.
pub mark-raised_refused :
    (raising : Event) (es : List Event) (u : Publisher) (v : Version) (latency : ℕ)
    (err : Option ProbeError) (now : ℕ) (p : Probed)
    → raises raising p ≡ true
    → v.generation ≤ p.entry.probe_generation
    → mark_probe_result_generation u v latency err now (run (raising ∷ es) p)
      ≡ (false, run (raising ∷ es) p)
unfolding run
mark-raised_refused raising es u v latency err now p h old =
    let q = step raising p in
    mark_older u v latency err now (run es q)
      (ground (arith, generation-step raising p, generation-run es q, h))
