-- ===== src/Monitor/Backoff.antt =====
-- internal/monitor/adaptive.go: how long a failing node waits for its next probe.
use proxyfleet.Base.{
  ℕ, zero, suc, ◌-◌, ◌*◌, ◌/◌, ◌≤◌, ◌<◌, ◌≡◌, ltb, if◌then◌else◌, min, max, ℤ, positive_or, arith,
}

-- The loop of `adaptiveFailureInterval`, by the rounds left, and the clamp behind it. A round that
-- would pass the maximum returns it at once, so that doubling never overflows.
unfoldable pub doubling : ℕ → ℕ → ℕ → ℕ
doubling maximum zero interval = if ltb maximum interval then maximum else interval
doubling maximum (suc rounds) interval =
    let rest = doubling maximum rounds (interval * 2) in
    if ltb interval maximum
    then if ltb (maximum / 2) interval then maximum else rest
    else if ltb maximum interval
    then maximum
    else interval

-- One hour and one minute, in nanoseconds.
abbrev pub hour : ℕ
hour = 3600000000000

abbrev pub minute : ℕ
minute = 60000000000

-- `adaptiveFailureInterval` from arguments after their defaults.
unfoldable pub interval_from : ℕ → ℕ → ℕ → ℕ
interval_from base maximum failures = doubling maximum (max 1 failures - 1) base

unfoldable pub adaptive_failure_interval : ℤ → ℕ → ℕ → ℕ
adaptive_failure_interval base maximum failures =
    let base' = positive_or base minute in
    interval_from base' (if ltb maximum base' then hour else maximum) failures

-- `n` doublings.
pub twice_over : ℕ → ℕ → ℕ
twice_over zero x = x
twice_over (suc n) x = twice_over n (x * 2)

twice_over_ge : (n x : ℕ) → x ≤ twice_over n x
unfolding twice_over
twice_over_ge zero x = omega arith
twice_over_ge (suc n) x = omega (arith, twice_over_ge n (x * 2))

doubling-min :
    (maximum n x : ℕ) → 0 < x → x ≤ maximum → doubling maximum n x ≡ min maximum (twice_over n x)
unfolding doubling twice_over
doubling-min maximum zero x pos h = ground arith
doubling-min maximum (suc n) x pos h =
    ground (arith, doubling-min maximum n (x * 2) (omega arith), twice_over_ge n (x * 2))

-- The waiting time doubles with each failure up to the maximum: for a positive base that the
-- maximum does not undercut, it is the base doubled once for every failure after the first, cut off
-- at the maximum.
pub interval_from_lem :
    (base maximum failures : ℕ)
    → 0 < base
    → base ≤ maximum
    → interval_from base maximum failures ≡ min maximum (twice_over (max 1 failures - 1) base)
unfolding interval_from
interval_from_lem base maximum failures pos h = doubling-min maximum (max 1 failures - 1) base pos h
