-- ===== src/Monitor/Entry.antt =====
-- internal/monitor/manager.go: the part of a node's monitor entry that the pool writes. The error
-- texts, the timeline and the latency statistics are left out: nothing here reads them.
use proxyfleet.Base.{ℕ, ◌+◌, Bool, true, false, ◌||◌, ltb, if◌then◌else◌, ℤ, suc_ℤ, pred_ℤ}

-- What is kept of an entry across restarts (`PersistedHealthState`).
pub record HealthState : Type 0 where
  pub failure_count : ℕ
  pub success_count : ℕ
  pub blacklisted_until : ℕ
  pub cooldown_until : ℕ
  pub last_failure : ℕ
  pub last_success : ℕ
  pub last_passive_success : ℕ
  pub last_passive_failure : ℕ
  pub available : Bool
  pub initial_check_done : Bool
  pub diagnostics_visible : Bool

abbrev pub no_health : HealthState
no_health = record {
  failure_count = 0;
  success_count = 0;
  blacklisted_until = 0;
  cooldown_until = 0;
  last_failure = 0;
  last_success = 0;
  last_passive_success = 0;
  last_passive_failure = 0;
  available = false;
  initial_check_done = false;
  diagnostics_visible = false;
}

pub record Entry : Type 0 where
  pub failure : ℕ
  pub success : ℕ
  pub blacklist : Bool
  pub until : ℕ
  pub cooling_down : Bool
  pub cooldown_until : ℕ
  pub last_fail : ℕ
  pub last_ok : ℕ
  pub last_passive_success : ℕ
  pub last_passive_failure : ℕ
  pub active : ℤ
  -- Whether the probe, release and blacklist callbacks are installed.
  pub callbacks : Bool
  pub initial_check_done : Bool
  pub available : Bool
  pub diagnostics_visible : Bool
  pub probe_generation : ℕ
  pub probe_invalidated_at : ℕ

unfoldable pub record_failure : ℕ → Entry → Entry
record_failure now e = record e {
  failure = e.failure + 1;
  diagnostics_visible = true;
  last_fail = now;
  last_passive_failure = now;
}

-- `recordSuccess`, and `recordSuccessWithLatency` without its latency statistics.
unfoldable pub record_success : ℕ → Entry → Entry
record_success now e = record e {
  success = e.success + 1;
  diagnostics_visible = true;
  last_ok = now;
  last_passive_success = now;
}

unfoldable pub blacklist_until : ℕ → Entry → Entry
blacklist_until until e = record e { blacklist = true; until = until; available = false }

unfoldable pub clear_blacklist : Entry → Entry
clear_blacklist e = record e { blacklist = false; until = 0 }

unfoldable pub cooldown : ℕ → Entry → Entry
cooldown until e = record e { cooling_down = true; cooldown_until = until; available = false }

unfoldable pub clear_cooldown : Entry → Entry
clear_cooldown e = record e { cooling_down = false; cooldown_until = 0 }

unfoldable pub inc_active : Entry → Entry
inc_active e = record e { active = suc_ℤ e.active }

unfoldable pub dec_active : Entry → Entry
dec_active e = record e { active = pred_ℤ e.active }

unfoldable pub mark_initial_check_done : Bool → Entry → Entry
mark_initial_check_done available e = record e { initial_check_done = true; available = available }

unfoldable pub mark_available : Bool → Entry → Entry
mark_available available e = record e { available = available }

unfoldable pub invalidate_probe_results : ℕ → Entry → Entry
invalidate_probe_results now e = record e {
  probe_generation = e.probe_generation + 1;
  probe_invalidated_at = now;
}

unfoldable pub clear_runtime_callbacks : Entry → Entry
clear_runtime_callbacks e = record e {
  probe_generation = e.probe_generation + 1;
  callbacks = false;
}

unfoldable pub export_health_state : Entry → HealthState
export_health_state e = record {
  failure_count = e.failure;
  success_count = e.success;
  blacklisted_until = e.until;
  cooldown_until = e.cooldown_until;
  last_failure = e.last_fail;
  last_success = e.last_ok;
  last_passive_success = e.last_passive_success;
  last_passive_failure = e.last_passive_failure;
  available = e.available;
  initial_check_done = e.initial_check_done;
  diagnostics_visible = e.diagnostics_visible;
}

unfoldable pub restore_counters : HealthState → Entry → Entry
restore_counters h e = record e {
  failure = h.failure_count;
  success = h.success_count;
  last_fail = h.last_failure;
  last_ok = h.last_success;
  last_passive_success = h.last_passive_success;
  last_passive_failure = h.last_passive_failure;
  available = h.available;
  initial_check_done = h.initial_check_done;
  diagnostics_visible = h.diagnostics_visible || ltb 0 h.failure_count || ltb 0 h.success_count;
}

unfoldable pub restore_blacklist : ℕ → HealthState → Entry → Entry
restore_blacklist now h e =
    if ltb now h.blacklisted_until
    then record e { blacklist = true; until = h.blacklisted_until; available = false }
    else record e { blacklist = false; until = 0 }

unfoldable pub restore_cooldown : ℕ → HealthState → Entry → Entry
restore_cooldown now h e =
    if ltb now h.cooldown_until
    then record e { cooling_down = true; cooldown_until = h.cooldown_until; available = false }
    else record e { cooling_down = false; cooldown_until = 0 }

-- The two readings of the clock are one.
unfoldable pub restore_health_state : ℕ → HealthState → Entry → Entry
unfolding restore_counters restore_blacklist restore_cooldown
restore_health_state now h e =
    restore_cooldown now h (restore_blacklist now h (restore_counters h e))
