-- ===== src/Pool/Member/Retire.antt =====
-- shared_state.go: owners and connections come and go, and the last one retires the state;
-- `acquireSharedState` restores it from the saved record.
use proxyfleet.Base.{
  ℕ, is_nil, ◌+◌, ◌-◌, Bool, true, false, ◌&&◌, ◌||◌, not, Option, none, some, [], Bytes, ltb, ◌==◌,
  if◌then◌else◌, ℤ, pos, suc_ℤ, pred_ℤ,
}
use proxyfleet.Monitor.Entry
use proxyfleet.Monitor.Entry.{Entry, HealthState, no_health}
use proxyfleet.Pool.Member.State.{
  Member, MemberHealth, on_entry, schedule_blacklist_expiry, schedule_cooldown_expiry,
  persist_transition, merge_blacklist, merge_cooldown,
}

abbrev is_zero_ℤ : ℤ → Bool
is_zero_ℤ (pos n) = n == 0
is_zero_ℤ _ = false

-- `retireIfUnusedLocked`; the flag says that the state left `sharedStateStore`.
unfoldable pub retire_if_unused : ℕ → Member → Bool × Member
retire_if_unused saved_at m =
    let kept = persist_transition saved_at m in
    if m.closed || not (m.owners == 0) || not (is_zero_ℤ m.active) || not (is_nil m.watchers)
    then (false, m)
    else (
      true,
      record kept { entry = none; closed = true; blacklist_timer = none; cooldown_timer = none },
    )

unfoldable pub inc_active : Member → Member
inc_active m = record m { active = suc_ℤ m.active; entry = on_entry Entry.inc_active m.entry }

unfoldable pub dec_active : ℕ → Member → Bool × Member
dec_active saved_at m =
    retire_if_unused saved_at
      (record m { active = pred_ℤ m.active; entry = on_entry Entry.dec_active m.entry })

-- Subtraction stops at 0, as the guard `owners > 0` does.
unfoldable pub release_owner : ℕ → Member → Bool × Member
release_owner saved_at m = retire_if_unused saved_at (record m { owners = m.owners - 1 })

-- `close`.
unfoldable pub close : Member → Member
close m = record m { closed = true; blacklist_timer = none; cooldown_timer = none; watchers = [] }

-- `attachEntry` on an entry that is there.
unfoldable pub attach_entry : ℕ → ℕ → Entry → Member → Member
attach_entry now restored_at e m =
    let banned : ℕ =
      if m.blacklisted && ltb now m.blacklisted_until then m.blacklisted_until else 0 in
    let cooling : ℕ = if ltb now m.cooldown_until then m.cooldown_until else 0 in
    let health = merge_cooldown cooling (merge_blacklist banned m.restored_monitor) in
    if m.closed then m else if m.monitor_restored then record m { entry = some e } else record m {
      monitor_restored = true;
      entry = some (Entry.restore_health_state restored_at health e);
    }

abbrev pub fresh : Bytes → Member
fresh tag = record {
  tag = tag;
  owners = 1;
  failures = 0;
  blacklisted = false;
  blacklisted_until = 0;
  manual_blacklist = false;
  cooldown_until = 0;
  restored_monitor = no_health;
  monitor_restored = false;
  entry = none;
  active = pos 0;
  blacklisted_fast = false;
  closed = false;
  watchers = [];
  next_watcher = 0;
  blacklist_timer = none;
  cooldown_timer = none;
  saved = none;
}

-- The body of `if restored, ok := restoredMemberHealth(tag); ok`.
unfoldable pub restore : ℕ → MemberHealth → Member → Member
restore now h m =
    let counted = record m {
      failures = h.failures;
      restored_monitor = h.monitor;
      saved = some h;
    } in
    let banned =
      if ltb now h.blacklisted_until
      then record counted {
        blacklisted = true;
        blacklisted_until = h.blacklisted_until;
        manual_blacklist = h.manual_blacklist;
        blacklisted_fast = true;
      }
      else counted in
    if ltb now h.cooldown_until
    then record banned { cooldown_until = h.cooldown_until; blacklisted_fast = true }
    else banned

unfoldable pub arm_timers : ℕ → Member → Member
arm_timers now m =
    let banned = if m.blacklisted then schedule_blacklist_expiry m.blacklisted_until m else m in
    if ltb now m.cooldown_until then schedule_cooldown_expiry m.cooldown_until banned else banned

-- `acquireSharedState` for a tag that has no live state: the saved record, if any, is restored.
unfoldable pub acquire_new : ℕ → ℕ → Bytes → Option MemberHealth → Member
unfolding restore arm_timers
acquire_new now armed_at tag none = arm_timers armed_at (fresh tag)
acquire_new now armed_at tag (some h) = arm_timers armed_at (restore now h (fresh tag))

-- `acquireSharedState` for a tag whose state is there: a closed one is replaced.
unfoldable pub acquire : ℕ → ℕ → Bytes → Option Member → Option MemberHealth → Member
unfolding acquire_new
acquire now armed_at tag none saved = acquire_new now armed_at tag saved
acquire now armed_at tag (some m) saved =
    if m.closed then acquire_new now armed_at tag saved else record m { owners = m.owners + 1 }
