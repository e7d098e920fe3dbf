-- ===== src/Monitor/Probes/History.antt =====
-- What may happen to an entry, as events, and histories of them. Probes, their waiters, traffic and
-- an administrator act on it concurrently, the pool tells it whether the node is available, and its
-- record is restored and cleared; each section holds `probeMu` or `mu`, so a history is a
-- sequence. A mark may carry any version, also one that is long overtaken.
use proxyfleet.Base.{ℕ, Bool, Option, List, [], ◌∷◌, Bytes}
use proxyfleet.Monitor.Entry.{
  HealthState, blacklist_until, clear_blacklist, cooldown, clear_cooldown, mark_initial_check_done,
  mark_available,
}
use proxyfleet.Monitor.Probes.{
  Probed, ProbeError, Version, Publisher, Routing, Call, mark_probe_result_generation,
  execute_probe_generation, note_completed, close_call, set_probe_publisher, clear_callbacks,
  invalidate, apply_validated_probe, note_failure, note_success, note_success_with_latency,
  change_target, restore_health, clear_diagnostics,
}

pub data Event : Type 0 where
  mark : Publisher → Version → ℕ → Option ProbeError → ℕ → Event
  execute : Bool → ℕ → Event
  complete : ℕ → Call → Event
  finish : Call → Event
  install : Bytes → Bool → Event
  retire : Event
  bar : ℕ → Event
  import_check : Option Routing → Bytes → ℕ → ℕ → ℕ → Option ProbeError → Event
  traffic_failure : ℕ → Event
  traffic_success : ℕ → Event
  timed_success : ℕ → ℕ → Event
  ban : ℕ → Event
  unban : Event
  cool : ℕ → Event
  uncool : Event
  checked : Bool → Event
  told_available : Bool → Event
  retarget : Event
  restore : ℕ → HealthState → ℕ → ℕ → ℕ → Event
  forget : Event

unfoldable pub step : Event → Probed → Probed
step (mark publisher v latency err now) p =
    (mark_probe_result_generation publisher v latency err now p).1
step (execute stopped now) p = (execute_probe_generation stopped now p).1
step (complete completed_at c) p = note_completed completed_at c p
step (finish c) p = close_call c p
step (install identity has_probe) p = set_probe_publisher identity has_probe p
step retire p = clear_callbacks p
step (bar now) p = invalidate now p
step (import_check routing identity started_at completed_at latency err) p =
    (apply_validated_probe routing identity started_at completed_at latency err p).1
step (traffic_failure now) p = note_failure now p
step (traffic_success now) p = note_success now p
step (timed_success now latency) p = note_success_with_latency now latency p
step (ban until) p = record p { entry = blacklist_until until p.entry }
step unban p = record p { entry = clear_blacklist p.entry }
step (cool until) p = record p { entry = cooldown until p.entry }
step uncool p = record p { entry = clear_cooldown p.entry }
step (checked available) p = record p { entry = mark_initial_check_done available p.entry }
step (told_available available) p = record p { entry = mark_available available p.entry }
step retarget p = change_target p
step (restore now h last_probe last_probe_at fails) p =
    restore_health now h last_probe last_probe_at fails p
step forget p = (clear_diagnostics p).1

unfoldable pub run : List Event → Probed → Probed
run [] p = p
run (e ∷ es) p = run es (step e p)
