-- ===== src/Pool/Member/Invariant.antt =====
-- The well-formedness of a shared state, and that every operation keeps it.
use proxyfleet.Base.{ℕ, ◌<◌, ◌≡◌, ◌≢◌, ◌⊎◌, true, false, some, ℤ, add_duration, arith}
use proxyfleet.Pool.Member.State.{
  Member, Readings, publish_blacklist, persist_transition, schedule_blacklist_expiry,
}
use proxyfleet.Pool.Member.Success.{
  record_success, release_after_probe, force_release, blacklist_member,
}
use proxyfleet.Pool.Member.Expiry.{
  is_blacklisted, is_cooling_down, expire_blacklist, expire_cooldown, after_blacklist_expiry,
  after_cooldown_expiry,
}

pub record Inv (m : Member) : Type 0 where
  pub ban_flagged : m.blacklisted ≡ true → m.blacklisted_fast ≡ true
  pub no_ban : m.blacklisted ≡ false → (m.blacklisted_until ≡ 0) × (m.manual_blacklist ≡ false)
  pub flag_reason : m.blacklisted_fast ≡ true → (m.blacklisted ≡ true) ⊎ (m.cooldown_until ≢ 0)
  pub ban_timed :
      m.closed ≡ false → m.blacklisted ≡ true → m.blacklist_timer ≡ some m.blacklisted_until
  pub cooldown_timed :
      m.closed ≡ false → m.cooldown_until ≢ 0 → m.cooldown_timer ≡ some m.cooldown_until

pub is_blacklisted-Inv : (now at : ℕ) (m : Member) → Inv m → Inv (is_blacklisted now at m).1
unfolding is_blacklisted after_blacklist_expiry publish_blacklist persist_transition
is_blacklisted-Inv now at m v = ground arith

pub is_cooling_down-Inv : (now at : ℕ) (m : Member) → Inv m → Inv (is_cooling_down now at m).1
unfolding is_cooling_down after_cooldown_expiry publish_blacklist persist_transition
is_cooling_down-Inv now at m v = ground arith

pub expire_blacklist-Inv :
    (expected remaining now at : ℕ) (m : Member)
    → Inv m
    → Inv (expire_blacklist expected remaining now at m)
unfolding expire_blacklist after_blacklist_expiry publish_blacklist persist_transition
expire_blacklist-Inv expected remaining now at m v = ground arith

pub expire_cooldown-Inv :
    (expected remaining at : ℕ) (m : Member) → Inv m → Inv (expire_cooldown expected remaining at m)
unfolding expire_cooldown after_cooldown_expiry publish_blacklist persist_transition
expire_cooldown-Inv expected remaining at m v = ground arith

pub record_success-Inv : (r : Readings) (at : ℕ) (m : Member) → Inv m → Inv (record_success r at m)
unfolding record_success is_cooling_down after_cooldown_expiry publish_blacklist persist_transition
record_success-Inv r at m v = ground arith

pub release_after_probe-Inv : (r : Readings) (m : Member) → Inv m → Inv (release_after_probe r m).1
unfolding release_after_probe publish_blacklist persist_transition
release_after_probe-Inv r m v = ground arith

pub force_release-Inv : (r : Readings) (m : Member) → Inv m → Inv (force_release r m)
unfolding force_release publish_blacklist persist_transition
force_release-Inv r m v = ground arith

pub blacklist_member-Inv :
    (r : Readings) (d : ℤ) (m : Member)
    → 0 < add_duration r.decided d
    → Inv m
    → Inv (blacklist_member r d m)
unfolding blacklist_member publish_blacklist persist_transition schedule_blacklist_expiry
blacklist_member-Inv r d m h v = ground arith
