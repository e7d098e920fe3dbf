-- ===== src/Pool/Member/Holds.antt =====
-- Live holds: what no traffic, probe or timer may end before its deadline.
use proxyfleet.Base.{ℕ, ◌<◌, ◌≤◌, ◌≡◌, Bool, true, List, [], ◌∷◌, All, arith}
use proxyfleet.Pool.Member.State.{
  Member, Readings, publish_blacklist, persist_transition, schedule_blacklist_expiry,
  schedule_cooldown_expiry,
}
use proxyfleet.Pool.Member.Failure.{
  FailureDecision, FailurePolicy, record_failure_locked, record_failure_with_source,
  record_failure_cases, under_manual_ban, lift_expired, cool_down, strike, announce_failure,
  decide_failure,
}
use proxyfleet.Pool.Member.Success.{record_success, release_after_probe}
use proxyfleet.Pool.Member.Expiry.{
  is_blacklisted, is_cooling_down, expire_blacklist, expire_cooldown, after_blacklist_expiry,
  after_cooldown_expiry,
}
use proxyfleet.Pool.Member.Watch.{subscribe, unsubscribe}
use proxyfleet.Pool.Member.Retire.{
  retire_if_unused, inc_active, dec_active, release_owner, attach_entry,
}
use proxyfleet.Pool.Member.Run.{
  Event, fail, succeed, probe_passed, look_banned, look_cooling, ban_timer, cooldown_timer, watch,
  admin_release, admin_ban, step, run,
}

-- An operation that no administrator asked for, deciding by readings before `u`.
abbrev pub IsBefore : ℕ → Event → Type 0
IsBefore u (fail r _ _ _ _ _) = r.decided < u
IsBefore u (succeed r _) = r.decided < u
IsBefore u (probe_passed r) = r.decided < u
IsBefore u (look_banned now _) = now < u
IsBefore u (look_cooling now _) = now < u
IsBefore u (ban_timer _ at now _) = (at < u) × (now < u)
IsBefore u (cooldown_timer _ at _) = at < u
IsBefore u (watch now _ now' _) = (now < u) × (now' < u)
IsBefore u (admin_release _) = ⊥
IsBefore u (admin_ban _ _) = ⊥
IsBefore u _ = Unit {0}

-- A manual ban until `u`.
pub record ManualBan (u : ℕ) (m : Member) : Type 0 where
  pub blacklisted : m.blacklisted ≡ true
  pub manual : m.manual_blacklist ≡ true
  pub until : m.blacklisted_until ≡ u
  pub flagged : m.blacklisted_fast ≡ true

-- A cooldown until `u` or later.
pub record Cooling (u : ℕ) (m : Member) : Type 0 where
  pub until : u ≤ m.cooldown_until
  pub flagged : m.blacklisted_fast ≡ true

fail-ManualBan :
    (u : ℕ) (r : Readings) (p : FailurePolicy) (m : Member)
    → r.decided < u
    → ManualBan u m
    → ManualBan u (record_failure_locked r p m).1
unfolding under_manual_ban lift_expired persist_transition
fail-ManualBan u r p m h v =
    record_failure_cases (λ o. ManualBan u o.1) r p m (λ _. v) (λ _ _. ground arith)
      (λ _ automatic. absurd (ground (arith, automatic)))

step-ManualBan :
    (u : ℕ) (e : Event) (m : Member) → IsBefore u e → ManualBan u m → ManualBan u (step e m)
unfolding step unsubscribe inc_active dec_active release_owner retire_if_unused attach_entry
    subscribe is_blacklisted is_cooling_down after_blacklist_expiry after_cooldown_expiry
    expire_blacklist expire_cooldown record_success release_after_probe persist_transition
    publish_blacklist record_failure_with_source
step-ManualBan u (fail r t th b c tr) m h v = fail-ManualBan u r _ m h v
step-ManualBan u (admin_release r) m h v = absurd h
step-ManualBan u (admin_ban r d) m h v = absurd h
step-ManualBan u _ m h v = ground arith

-- A manual ban holds until its deadline: no history of failures, successes, probes, timers,
-- subscriptions and connections that decides by readings before `u`, and that no administrator
-- interferes with, lifts or shortens a manual ban until `u`, drops its manual mark, or clears the
-- fast flag that routing reads.
pub run-ManualBan :
    (u : ℕ) (es : List Event) (m : Member)
    → All (IsBefore u) es
    → ManualBan u m
    → ManualBan u (run es m)
unfolding run
run-ManualBan u [] m h v = v
run-ManualBan u (e ∷ es) m h v = run-ManualBan u es (step e m) h.1 (step-ManualBan u e m h.0 v)

announce_failure-Cooling :
    (u : ℕ) (r : Readings) (p : FailurePolicy) (was expired : Bool) (d : FailureDecision)
    (m : Member)
    → r.decided < u
    → u ≤ m.cooldown_until
    → Cooling u (announce_failure r p was expired d m)
unfolding announce_failure publish_blacklist persist_transition schedule_blacklist_expiry
    schedule_cooldown_expiry
announce_failure-Cooling u r p was expired d m h v = ground arith

decide_failure-Cooling :
    (u : ℕ) (r : Readings) (p : FailurePolicy) (m : Member)
    → u ≤ m.cooldown_until
    → u ≤ (decide_failure r.decided p (lift_expired r.decided m)).1.cooldown_until
unfolding decide_failure cool_down strike lift_expired
decide_failure-Cooling u r p m v = ground arith

fail-Cooling :
    (u : ℕ) (r : Readings) (p : FailurePolicy) (m : Member)
    → r.decided < u
    → Cooling u m
    → Cooling u (record_failure_locked r p m).1
unfolding under_manual_ban lift_expired persist_transition
fail-Cooling u r p m h v =
    record_failure_cases (λ o. Cooling u o.1) r p m (λ _. v) (λ _ _. ground arith)
      (λ _ _. announce_failure-Cooling u r p _ _ _ _ h (decide_failure-Cooling u r p m v.until))

step-Cooling : (u : ℕ) (e : Event) (m : Member) → IsBefore u e → Cooling u m → Cooling u (step e m)
unfolding step unsubscribe inc_active dec_active release_owner retire_if_unused attach_entry
    subscribe is_blacklisted is_cooling_down after_blacklist_expiry after_cooldown_expiry
    expire_blacklist expire_cooldown record_success release_after_probe persist_transition
    publish_blacklist record_failure_with_source
step-Cooling u (fail r t th b c tr) m h v = fail-Cooling u r _ m h v
step-Cooling u (admin_release r) m h v = absurd h
step-Cooling u (admin_ban r d) m h v = absurd h
step-Cooling u _ m h v = ground arith

-- A cooldown holds until its deadline: no history of failures, successes, probes, timers,
-- subscriptions and connections that decides by readings before `u`, and that no administrator
-- interferes with, ends or shortens a cooldown until `u` or clears the fast flag. In particular a
-- success, a healthy probe or a new automatic ban does not.
pub run-Cooling :
    (u : ℕ) (es : List Event) (m : Member)
    → All (IsBefore u) es
    → Cooling u m
    → Cooling u (run es m)
unfolding run
run-Cooling u [] m h v = v
run-Cooling u (e ∷ es) m h v = run-Cooling u es (step e m) h.1 (step-Cooling u e m h.0 v)
