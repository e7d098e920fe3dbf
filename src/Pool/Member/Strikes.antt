-- ===== src/Pool/Member/Strikes.antt =====
-- Transient faults and strikes: what one failure, and a row of them, does to an open state.
use proxyfleet.Base.{ℕ, suc, ◌+◌, ◌≤◌, ◌<◌, ◌≡◌, Bool, true, false, List, [], ◌∷◌, length, arith}
use proxyfleet.Pool.Member.State.{
  Member, Readings, publish_blacklist, persist_transition, schedule_blacklist_expiry,
  schedule_cooldown_expiry,
}
use proxyfleet.Pool.Member.Failure.{
  FailureDecision, FailurePolicy, record_failure_locked, record_failure_cases, under_manual_ban,
  lift_expired, cool_down, strike, announce_failure, decide_failure, manual_ban_at,
}

-- Announcing a failure changes no field that the decision set.
pub record SameDecision (m n : Member) : Type 0 where
  pub failures : n.failures ≡ m.failures
  pub blacklisted : n.blacklisted ≡ m.blacklisted
  pub blacklisted_until : n.blacklisted_until ≡ m.blacklisted_until
  pub manual_blacklist : n.manual_blacklist ≡ m.manual_blacklist
  pub cooldown_until : n.cooldown_until ≡ m.cooldown_until
  pub closed : n.closed ≡ m.closed

announce_failure-SameDecision :
    (r : Readings) (p : FailurePolicy) (was expired : Bool) (d : FailureDecision) (m : Member)
    → SameDecision m (announce_failure r p was expired d m)
unfolding announce_failure publish_blacklist persist_transition schedule_blacklist_expiry
    schedule_cooldown_expiry
announce_failure-SameDecision r p was expired d m = ground arith

-- What a transient fault leaves of a state.
pub record CooledDown (r : Readings) (p : FailurePolicy) (m n : Member) : Type 0 where
  pub failures : n.failures ≡ m.failures
  pub ban_kept : r.decided < m.blacklisted_until → n.blacklisted ≡ m.blacklisted
  pub until_kept : r.decided < m.blacklisted_until → n.blacklisted_until ≡ m.blacklisted_until
  pub no_new_ban : m.blacklisted ≡ false → n.blacklisted ≡ false
  pub covers : m.manual_blacklist ≡ false → r.decided + p.transient_cooldown ≤ n.cooldown_until
  pub not_shorter : m.cooldown_until ≤ n.cooldown_until

SameDecision-CooledDown :
    (r : Readings) (p : FailurePolicy) (m a b : Member)
    → SameDecision a b
    → CooledDown r p m a
    → CooledDown r p m b
SameDecision-CooledDown r p m a b s v = ground arith

decide-CooledDown :
    (r : Readings) (p : FailurePolicy) (m : Member)
    → p.transient ≡ true
    → CooledDown r p m (decide_failure r.decided p (lift_expired r.decided m)).1
unfolding lift_expired decide_failure cool_down
decide-CooledDown r p m t = ground arith

-- A transient fault is no strike: it leaves the failure count, never starts a ban, leaves a running
-- ban and its deadline as they are, never shortens a cooldown, and, unless the state bears a manual
-- mark, leaves the node cooling for at least the configured time from the moment of the fault. This
-- holds of every state that is not retired.
pub transient-CooledDown :
    (r : Readings) (p : FailurePolicy) (m : Member)
    → m.closed ≡ false
    → p.transient ≡ true
    → CooledDown r p m (record_failure_locked r p m).1
unfolding under_manual_ban lift_expired persist_transition
transient-CooledDown r p m live t =
    record_failure_cases (λ o. CooledDown r p m o.1) r p m (λ e. absurd (ground (arith, e)))
      (λ _ banned. ground (arith, banned))
      (λ _ _.
        SameDecision-CooledDown r p m _ _ (announce_failure-SameDecision r p _ _ _ _)
          (decide-CooledDown r p m t))

-- An open state with some strikes and no ban.
pub record Struck (n : ℕ) (m : Member) : Type 0 where
  pub strikes : m.failures ≡ n
  pub not_banned : m.blacklisted ≡ false
  pub live : m.closed ≡ false

-- A state banned automatically until some time, its strikes forgotten.
pub record Banned (until : ℕ) (m : Member) : Type 0 where
  pub strikes : m.failures ≡ 0
  pub banned : m.blacklisted ≡ true
  pub automatic : m.manual_blacklist ≡ false
  pub deadline : m.blacklisted_until ≡ until

SameDecision-Struck : (n : ℕ) (a b : Member) → SameDecision a b → Struck n a → Struck n b
SameDecision-Struck n a b s v = ground arith

SameDecision-Banned : (u : ℕ) (a b : Member) → SameDecision a b → Banned u a → Banned u b
SameDecision-Banned u a b s v = ground arith

-- A state without a ban is under no manual ban.
not_manual :
    (now n : ℕ) (m : Member) → Struck n m → manual_ban_at now (lift_expired now m) ≡ true → ⊥
unfolding lift_expired
not_manual now n m v h = ground arith

module _ (p : FailurePolicy) (durable : p.transient ≡ false) where
  decide-Struck :
      (r : Readings) (n : ℕ) (m : Member)
      → suc n < p.threshold
      → Struck n m
      → Struck (suc n) (decide_failure r.decided p (lift_expired r.decided m)).1
  unfolding lift_expired decide_failure strike
  decide-Struck r n m h v = ground arith

  decide-Banned :
      (r : Readings) (n : ℕ) (m : Member)
      → p.threshold ≤ suc n
      → Struck n m
      → Banned
          (r.decided + p.blacklist_duration)
          (decide_failure r.decided p (lift_expired r.decided m)).1
  unfolding lift_expired decide_failure strike
  decide-Banned r n m h v = ground arith

  strike-Struck :
      (r : Readings) (n : ℕ) (m : Member)
      → suc n < p.threshold
      → Struck n m
      → Struck (suc n) (record_failure_locked r p m).1
  strike-Struck r n m h v =
      record_failure_cases (λ o. Struck (suc n) o.1) r p m (λ e. absurd (ground (arith, e)))
        (λ _ banned. absurd (not_manual r.decided n m v banned))
        (λ _ _.
          SameDecision-Struck (suc n) _ _ (announce_failure-SameDecision r p _ _ _ _)
            (decide-Struck r n m h v))

  strike-Banned :
      (r : Readings) (n : ℕ) (m : Member)
      → p.threshold ≤ suc n
      → Struck n m
      → Banned (r.decided + p.blacklist_duration) (record_failure_locked r p m).1
  strike-Banned r n m h v =
      record_failure_cases (λ o. Banned (r.decided + p.blacklist_duration) o.1) r p m
        (λ e. absurd (ground (arith, e))) (λ _ banned. absurd (not_manual r.decided n m v banned))
        (λ _ _.
          SameDecision-Banned _ _ _ (announce_failure-SameDecision r p _ _ _ _)
            (decide-Banned r n m h v))

-- Failures one after another, at these readings.
unfoldable pub fail_all : FailurePolicy → List Readings → Member → Member
fail_all p [] m = m
fail_all p (r ∷ rs) m = fail_all p rs (record_failure_locked r p m).1

fail_all-Struck :
    (p : FailurePolicy) (rs : List Readings) (n : ℕ) (m : Member)
    → p.transient ≡ false
    → n + length rs < p.threshold
    → Struck n m
    → Struck (n + length rs) (fail_all p rs m)
unfolding fail_all
fail_all-Struck p [] n m d h v = ground arith
fail_all-Struck p (r ∷ rs) n m d h v = ground (
  arith,
  fail_all-Struck p rs (suc n) (record_failure_locked r p m).1 d (omega arith)
      (strike-Struck p d r n m (omega arith) v),
)

-- The threshold is exact: in an open state without strikes or a ban, as many durable failures in a
-- row as the threshold less one only count, and the next one bans the node automatically for the
-- configured time from that failure and forgets the strikes.
pub threshold_exact :
    (p : FailurePolicy) (rs : List Readings) (last : Readings) (m : Member)
    → p.transient ≡ false
    → p.threshold ≡ suc (length rs)
    → Struck 0 m
    → Struck (length rs) (fail_all p rs m)
      × Banned
          (last.decided + p.blacklist_duration)
          (record_failure_locked last p (fail_all p rs m)).1
threshold_exact p rs last m d t v =
    let counted : Struck (length rs) (fail_all p rs m) =
      ground (arith, fail_all-Struck p rs 0 m d (omega arith) v) in
    (counted, strike-Banned p d last (length rs) _ (omega arith) counted)
