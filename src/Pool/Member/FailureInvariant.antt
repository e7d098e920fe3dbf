-- ===== src/Pool/Member/FailureInvariant.antt =====
-- Recording a failure keeps the invariant of the shared state: lifting an elapsed ban, deciding and
-- announcing one after another.
use proxyfleet.Base.{ℕ, ◌<◌, ◌≡◌, ◌≢◌, Bool, true, false, some, ℤ, if_cases, positive_or_pos, arith}
use proxyfleet.Pool.Member.State.{
  Member, Readings, publish_blacklist, persist_transition, schedule_blacklist_expiry,
  schedule_cooldown_expiry,
}
use proxyfleet.Pool.Member.Failure.{
  FailurePolicy, FailureDecision, record_failure_locked, record_failure_with_source,
  under_manual_ban, lift_expired, cool_down, strike, announce_failure, decide_failure,
  record_failure_cases, day, minute,
}
use proxyfleet.Pool.Member.Invariant.{Inv}

-- The invariant without the fast flag.
record Timed (m : Member) : Type 0 where
  no_ban : m.blacklisted ≡ false → (m.blacklisted_until ≡ 0) × (m.manual_blacklist ≡ false)
  ban_timed : m.closed ≡ false → m.blacklisted ≡ true → m.blacklist_timer ≡ some m.blacklisted_until
  cooldown_timed :
      m.closed ≡ false → m.cooldown_until ≢ 0 → m.cooldown_timer ≡ some m.cooldown_until

-- A state on which a failure has been decided, its timers not yet armed.
record Decided (d : FailureDecision) (m : Member) : Type 0 where
  no_ban : m.blacklisted ≡ false → (m.blacklisted_until ≡ 0) × (m.manual_blacklist ≡ false)
  ban_timed :
      m.closed ≡ false
      → d.blacklisted ≡ false
      → m.blacklisted ≡ true
      → m.blacklist_timer ≡ some m.blacklisted_until
  cooldown_timed :
      m.closed ≡ false
      → d.cooldown ≡ false
      → m.cooldown_until ≢ 0
      → m.cooldown_timer ≡ some m.cooldown_until
  banned :
      d.blacklisted ≡ true
      → (m.blacklisted ≡ true) × (m.blacklisted_until ≡ d.until) × (d.until ≢ 0)
  cooled : d.cooldown ≡ true → (m.cooldown_until ≡ d.until) × (d.until ≢ 0)
  one_of : d.blacklisted ≡ true → d.cooldown ≡ false

lift_expired-Timed : (now : ℕ) (m : Member) → Inv m → Timed (lift_expired now m)
unfolding lift_expired
lift_expired-Timed now m v = ground arith

cool_down-Decided :
    (now : ℕ) (p : FailurePolicy) (m : Member)
    → 0 < p.transient_cooldown
    → Timed m
    → Decided (cool_down now p m).0 (cool_down now p m).1
unfolding cool_down
cool_down-Decided now p m h v = ground arith

strike-Decided :
    (now : ℕ) (p : FailurePolicy) (m : Member)
    → 0 < p.blacklist_duration
    → Timed m
    → Decided (strike now p m).0 (strike now p m).1
unfolding strike
strike-Decided now p m h v = ground arith

announce_failure-Inv :
    (r : Readings) (p : FailurePolicy) (was expired : Bool) (d : FailureDecision) (m : Member)
    → Decided d m
    → Inv (announce_failure r p was expired d m)
unfolding announce_failure publish_blacklist persist_transition schedule_blacklist_expiry
    schedule_cooldown_expiry
announce_failure-Inv r p was expired d m v = ground arith

under_manual_ban-Inv :
    (r : Readings) (p : FailurePolicy) (m : Member) → Inv m → Inv (under_manual_ban r p m).1
unfolding under_manual_ban persist_transition
under_manual_ban-Inv r p m v = ground arith

-- A ban that still runs is not lifted.
lift_expired-Inv :
    (now : ℕ) (m : Member)
    → Inv m
    → (lift_expired now m).blacklisted ≡ true
    → Inv (lift_expired now m)
unfolding lift_expired
lift_expired-Inv now m v h = ground arith

decide_failure-Decided :
    (now : ℕ) (p : FailurePolicy) (m : Member)
    → 0 < p.blacklist_duration
    → 0 < p.transient_cooldown
    → Timed m
    → Decided (decide_failure now p m).0 (decide_failure now p m).1
unfolding decide_failure
decide_failure-Decided now p m h h' v =
    if_cases (λ (o : FailureDecision × Member). Decided o.0 o.1) p.transient
      (λ _. cool_down-Decided now p m h' v) (λ _. strike-Decided now p m h v)

record_failure_locked-Inv :
    (r : Readings) (p : FailurePolicy) (m : Member)
    → 0 < p.blacklist_duration
    → 0 < p.transient_cooldown
    → Inv m
    → Inv (record_failure_locked r p m).1
record_failure_locked-Inv r p m h h' v =
    record_failure_cases (λ o. Inv o.1) r p m (λ _. v)
      (λ _ banned.
        under_manual_ban-Inv r p _ (lift_expired-Inv r.decided m v (ground (arith, banned))))
      (λ _ _.
        announce_failure-Inv r p _ _ _ _
          (decide_failure-Decided r.decided p _ h h' (lift_expired-Timed r.decided m v)))

pub record_failure_with_source-Inv :
    (r : Readings) (transient : Bool) (threshold ban cooldown : ℤ) (traffic : Bool) (m : Member)
    → Inv m
    → Inv (record_failure_with_source r transient threshold ban cooldown traffic m).1
unfolding record_failure_with_source
record_failure_with_source-Inv r transient threshold ban cooldown traffic m v =
    record_failure_locked-Inv r _ m (positive_or_pos ban day (omega arith))
      (positive_or_pos cooldown minute (omega arith)) v
