-- ===== src/Pool/Member/State.antt =====
-- The state of shared_state.go (`sharedMemberState`) and the steps that its operations share:
-- notifying the watchers, arming the timers, and saving the record for the next owner.
use proxyfleet.Base.{
  ℕ, Bool, false, ◌&&◌, ◌||◌, not, Option, none, some, List, [], map, Bytes, ltb, ◌==◌,
  if◌then◌else◌, ℤ, bytes_eq,
}
use proxyfleet.Monitor.Entry.{Entry, HealthState, no_health, export_health_state}

-- `persistedMemberHealth`.
pub record MemberHealth : Type 0 where
  pub failures : ℕ
  pub blacklisted_until : ℕ
  pub manual_blacklist : Bool
  pub cooldown_until : ℕ
  pub monitor : HealthState
  pub updated_at : ℕ

-- `sharedMemberState`. A timer is the deadline it was armed with; a watcher is its id and what its
-- callback was last told; `saved` is the node's record in `healthPersistence.records`.
pub record Member : Type 0 where
  pub tag : Bytes
  pub owners : ℕ
  pub failures : ℕ
  pub blacklisted : Bool
  pub blacklisted_until : ℕ
  pub manual_blacklist : Bool
  pub cooldown_until : ℕ
  pub restored_monitor : HealthState
  pub monitor_restored : Bool
  pub entry : Option Entry
  pub active : ℤ
  pub blacklisted_fast : Bool
  pub closed : Bool
  pub watchers : List (ℕ × Bool)
  pub next_watcher : ℕ
  pub blacklist_timer : Option ℕ
  pub cooldown_timer : Option ℕ
  pub saved : Option MemberHealth

-- The readings of `time.Now()` in one operation: what it decides by, what the monitor entry notes,
-- and what the saved record is cut by.
pub record Readings : Type 0 where
  pub decided : ℕ
  pub noted : ℕ
  pub saved : ℕ

-- A call on the monitor entry, if one is attached.
abbrev pub on_entry : (Entry → Entry) → Option Entry → Option Entry
on_entry f none = none
on_entry f (some e) = some (f e)

unfoldable pub publish_blacklist : Bool → Member → Member
publish_blacklist blacklisted m =
    if m.closed then m else record m { watchers = map (λ w. (w.0, blacklisted)) m.watchers }

unfoldable pub schedule_blacklist_expiry : ℕ → Member → Member
schedule_blacklist_expiry until m =
    if until == 0 || m.closed
    then m
    else if not m.blacklisted || not (m.blacklisted_until == until)
    then m
    else record m { blacklist_timer = some until }

unfoldable pub schedule_cooldown_expiry : ℕ → Member → Member
schedule_cooldown_expiry until m =
    if until == 0 || m.closed
    then m
    else if not (m.cooldown_until == until)
    then m
    else record m { cooldown_timer = some until }

abbrev pub exported : Option Entry → HealthState
exported none = no_health
exported (some e) = export_health_state e

-- The deadlines that still run override what the monitor exported.
unfoldable pub merge_blacklist : ℕ → HealthState → HealthState
merge_blacklist until h =
    if until == 0 then h else record h { blacklisted_until = until; available = false }

unfoldable pub merge_cooldown : ℕ → HealthState → HealthState
merge_cooldown until h =
    if until == 0 then h else record h { cooldown_until = until; available = false }

unfoldable pub health_record : ℕ → Member → MemberHealth
unfolding merge_blacklist merge_cooldown
health_record now m =
    let banned : ℕ =
      if m.blacklisted && ltb now m.blacklisted_until then m.blacklisted_until else 0 in
    let cooling : ℕ = if ltb now m.cooldown_until then m.cooldown_until else 0 in
    record {
      failures = m.failures;
      blacklisted_until = banned;
      manual_blacklist = m.manual_blacklist;
      cooldown_until = cooling;
      monitor = merge_cooldown cooling (merge_blacklist banned (exported m.entry));
      updated_at = now;
    }

-- `persistTransitionLocked` and the record that `storeMemberHealth` keeps.
unfoldable pub persist_transition : ℕ → Member → Member
persist_transition now m =
    if bytes_eq m.tag [] || m.closed then m else record m { saved = some (health_record now m) }

abbrev pub is_blocked_at : ℕ → Member → Bool
is_blocked_at now m = m.blacklisted || ltb now m.cooldown_until
