-- ===== src/Pool/Member/Failure.antt =====
-- shared_state.go: `recordFailureWithSourceLocked` and its callers.
use proxyfleet.Base.{
  ℕ, ◌+◌, Bool, true, false, ◌&&◌, ◌||◌, not, none, ltb, leb, max, if◌then◌else◌, if_cases, ◌≡◌, ℤ,
  pos, positive_or,
}
use proxyfleet.Monitor.Entry
use proxyfleet.Pool.Member.State.{
  Member, Readings, on_entry, publish_blacklist, schedule_blacklist_expiry,
  schedule_cooldown_expiry, persist_transition, is_blocked_at,
}

-- `failureDecision`.
pub record FailureDecision : Type 0 where
  pub failures : ℕ
  pub blacklisted : Bool
  pub cooldown : Bool
  pub until : ℕ
  pub existing_blacklist_until : ℕ

abbrev pub no_decision : FailureDecision
no_decision = record {
  failures = 0;
  blacklisted = false;
  cooldown = false;
  until = 0;
  existing_blacklist_until = 0;
}

-- The durations in nanoseconds that stand in for missing settings.
abbrev pub day : ℕ
day = 86400000000000

abbrev pub minute : ℕ
minute = 60000000000

-- The arguments of `recordFailureWithSource` after their defaults; `transient` is the answer of
-- `isTransientError` for the cause.
pub record FailurePolicy : Type 0 where
  pub transient : Bool
  pub threshold : ℕ
  pub blacklist_duration : ℕ
  pub transient_cooldown : ℕ
  pub traffic : Bool

-- A ban whose deadline has passed is lifted before the fault is classified.
unfoldable pub lift_expired : ℕ → Member → Member
lift_expired now m =
    if m.blacklisted && leb m.blacklisted_until now
    then record m {
      blacklisted = false;
      blacklisted_until = 0;
      manual_blacklist = false;
      blacklist_timer = none;
    }
    else m

-- The branch of a live manual ban.
unfoldable pub under_manual_ban : Readings → FailurePolicy → Member → FailureDecision × Member
under_manual_ban r p m =
    let counted : ℕ = if p.transient then m.failures else m.failures + 1 in
    let noted =
      on_entry
        (λ e.
          Entry.blacklist_until m.blacklisted_until
            (if p.traffic then Entry.record_failure r.noted e else e))
        m.entry in
    (
      record {
        failures = counted;
        blacklisted = true;
        cooldown = false;
        until = m.blacklisted_until;
        existing_blacklist_until = m.blacklisted_until;
      },
      persist_transition r.saved (record m { failures = counted; entry = noted }),
    )

-- A transient fault: only the cooldown grows.
unfoldable pub cool_down : ℕ → FailurePolicy → Member → FailureDecision × Member
cool_down now p m =
    let until = max m.cooldown_until (now + p.transient_cooldown) in
    (
      record {
        failures = m.failures;
        blacklisted = false;
        cooldown = true;
        until = until;
        existing_blacklist_until = if m.blacklisted then m.blacklisted_until else 0;
      },
      record m { cooldown_until = until; blacklisted_fast = true },
    )

-- A durable fault: a strike, and a ban at the threshold.
unfoldable pub strike : ℕ → FailurePolicy → Member → FailureDecision × Member
strike now p m =
    if leb p.threshold (m.failures + 1)
    then (
      record {
        failures = m.failures + 1;
        blacklisted = true;
        cooldown = false;
        until = now + p.blacklist_duration;
        existing_blacklist_until = 0;
      },
      record m {
        failures = 0;
        blacklisted = true;
        manual_blacklist = false;
        blacklisted_until = now + p.blacklist_duration;
        blacklisted_fast = true;
      },
    )
    else (record no_decision { failures = m.failures + 1 }, record m { failures = m.failures + 1 })

-- After the decision: the fast flag, the watchers, the timers, the monitor entry, the record.
unfoldable pub announce_failure :
    Readings → FailurePolicy → Bool → Bool → FailureDecision → Member → Member
announce_failure r p was_blocked expired d m =
    let is_blocked = is_blocked_at r.decided m in
    let flagged = record m { blacklisted_fast = is_blocked } in
    let told =
      if is_blocked && not was_blocked || not is_blocked && was_blocked
      then publish_blacklist is_blocked flagged
      else flagged in
    let timed =
      if d.blacklisted
      then schedule_blacklist_expiry d.until told
      else if d.cooldown
      then schedule_cooldown_expiry d.until told
      else told in
    let clear = λ (e : Entry.Entry). if expired then Entry.clear_blacklist e else e in
    let count = λ (e : Entry.Entry). if p.traffic then Entry.record_failure r.noted e else e in
    let hold = λ (e : Entry.Entry).
      if d.blacklisted
      then Entry.blacklist_until d.until e
      else if d.cooldown
      then Entry.cooldown d.until e
      else e in
    persist_transition r.saved
      (record timed { entry = on_entry (λ e. hold (count (clear e))) timed.entry })

unfoldable pub decide_failure : ℕ → FailurePolicy → Member → FailureDecision × Member
decide_failure now p m = if p.transient then cool_down now p m else strike now p m

abbrev pub manual_ban_at : ℕ → Member → Bool
manual_ban_at now m = m.blacklisted && m.manual_blacklist && ltb now m.blacklisted_until

unfoldable pub record_failure_locked : Readings → FailurePolicy → Member → FailureDecision × Member
record_failure_locked r p m =
    let was_blocked = is_blocked_at r.decided m in
    let expired = m.blacklisted && leb m.blacklisted_until r.decided in
    let lifted = lift_expired r.decided m in
    if m.closed
    then (no_decision, m)
    else if manual_ban_at r.decided lifted
    then under_manual_ban r p lifted
    else let (d, held) = decide_failure r.decided p lifted in
      (d, announce_failure r p was_blocked expired d held)

-- `recordFailureWithSource`: the defaults of the arguments, then the locked part.
unfoldable pub record_failure_with_source :
    Readings → Bool → ℤ → ℤ → ℤ → Bool → Member → FailureDecision × Member
record_failure_with_source r transient threshold blacklist_duration transient_cooldown traffic m =
    record_failure_locked r
      (record {
        transient = transient;
        threshold = positive_or threshold 1;
        blacklist_duration = positive_or blacklist_duration day;
        transient_cooldown = positive_or transient_cooldown minute;
        traffic = traffic;
      })
      m

unfoldable pub record_failure : Readings → Bool → ℤ → ℤ → ℤ → Member → FailureDecision × Member
record_failure r transient threshold blacklist_duration transient_cooldown m =
    record_failure_with_source r transient threshold blacklist_duration transient_cooldown true m

unfoldable pub record_probe_failure : Readings → Bool → ℤ → ℤ → Member → FailureDecision × Member
record_probe_failure r transient blacklist_duration transient_cooldown m =
    record_failure_with_source r transient (pos 1) blacklist_duration transient_cooldown false m

-- The three ways through `record_failure_locked`.
pub record_failure_cases {ℓ} :
    (P : FailureDecision × Member → Type ℓ) (r : Readings) (p : FailurePolicy) (m : Member)
    → (m.closed ≡ true → P (no_decision, m))
    → (m.closed ≡ false
        → manual_ban_at r.decided (lift_expired r.decided m) ≡ true
        → P (under_manual_ban r p (lift_expired r.decided m)))
    → (m.closed ≡ false
        → manual_ban_at r.decided (lift_expired r.decided m) ≡ false
        → P (
          (decide_failure r.decided p (lift_expired r.decided m)).0,
          announce_failure r p
              (is_blocked_at r.decided m)
              (m.blacklisted && leb m.blacklisted_until r.decided)
              (decide_failure r.decided p (lift_expired r.decided m)).0
              (decide_failure r.decided p (lift_expired r.decided m)).1,
        ))
    → P (record_failure_locked r p m)
unfolding record_failure_locked
record_failure_cases P r p m retired banned decided = if_cases P m.closed retired (λ live.
    if_cases P (manual_ban_at r.decided (lift_expired r.decided m)) (banned live) (decided live))
