-- ===== src/Pool/Member/Run.antt =====
-- The operations of shared_state.go as events, and histories of them. Each holds `transitionMu`
-- throughout, so a history is a sequence; a timer that was stopped too late is an expiry event
-- with an old deadline.
use proxyfleet.Base.{ℕ, ◌<◌, Bool, List, [], ◌∷◌, ℤ, add_duration}
use proxyfleet.Monitor.Entry.{Entry}
use proxyfleet.Pool.Member.State.{Member, Readings}
use proxyfleet.Pool.Member.Failure.{record_failure_with_source}
use proxyfleet.Pool.Member.Success.{
  record_success, release_after_probe, force_release, blacklist_member,
}
use proxyfleet.Pool.Member.Expiry.{
  is_blacklisted, is_cooling_down, expire_blacklist, expire_cooldown,
}
use proxyfleet.Pool.Member.Watch.{subscribe, unsubscribe}
use proxyfleet.Pool.Member.Retire.{inc_active, dec_active, release_owner, attach_entry}

pub data Event : Type 0 where
  fail : Readings → Bool → ℤ → ℤ → ℤ → Bool → Event
  succeed : Readings → ℕ → Event
  probe_passed : Readings → Event
  look_banned : ℕ → ℕ → Event
  look_cooling : ℕ → ℕ → Event
  ban_timer : ℕ → ℕ → ℕ → ℕ → Event
  cooldown_timer : ℕ → ℕ → ℕ → Event
  watch : ℕ → ℕ → ℕ → ℕ → Event
  unwatch : ℕ → Event
  connect : Event
  disconnect : ℕ → Event
  drop_owner : ℕ → Event
  attach : ℕ → ℕ → Entry → Event
  admin_release : Readings → Event
  admin_ban : Readings → ℤ → Event

unfoldable pub step : Event → Member → Member
step (fail r transient threshold ban cooldown traffic) m =
    (record_failure_with_source r transient threshold ban cooldown traffic m).1
step (succeed r saved_at) m = record_success r saved_at m
step (probe_passed r) m = (release_after_probe r m).1
step (look_banned now saved_at) m = (is_blacklisted now saved_at m).1
step (look_cooling now saved_at) m = (is_cooling_down now saved_at m).1
step (ban_timer expected at now saved_at) m = expire_blacklist expected at now saved_at m
step (cooldown_timer expected at saved_at) m = expire_cooldown expected at saved_at m
step (watch now saved_at now' saved_again) m = (subscribe now saved_at now' saved_again m).1
step (unwatch id) m = unsubscribe id m
step connect m = inc_active m
step (disconnect saved_at) m = (dec_active saved_at m).1
step (drop_owner saved_at) m = (release_owner saved_at m).1
step (attach now restored_at e) m = attach_entry now restored_at e m
step (admin_release r) m = force_release r m
step (admin_ban r duration) m = blacklist_member r duration m

unfoldable pub run : List Event → Member → Member
run [] m = m
run (e ∷ es) m = run es (step e m)

-- A manual ban ends after Go's zero time.
abbrev pub IsSane : Event → Type 0
IsSane (admin_ban r duration) = 0 < add_duration r.decided duration
IsSane _ = Unit {0}
