-- ===== src/Monitor/Budget.antt =====
-- internal/monitor/adaptive.go: how many probes the hourly and the daily cap leave. The pacing
-- bucket holds a floating-point number; its arithmetic is a parameter, as is the start of the
-- local day.
pub mod Caps
use proxyfleet.Base.{
  ℕ, ◌+◌, ◌-◌, ◌%◌, ◌&&◌, ◌||◌, Bool, true, false, ltb, ◌==◌, if◌then◌else◌, min, max, ℤ, pos,
  positive_or,
}
use proxyfleet.Monitor.Backoff.{hour}

-- `float64`, as far as the bucket uses it. `per_hour n` and `per_day n` are the rates of `n` probes,
-- `refilled t d r` is `t + d.Seconds() * r`, `whole t` is `int(math.Floor(t + 1e-9))`, at least 0,
-- and `spent t n` is `max(0, t - n)`.
pub record Floats (F : Type 0) : Type 0 where
  pub zero_rate : F
  pub from_int : ℕ → F
  pub per_hour : ℕ → F
  pub per_day : ℕ → F
  pub is_zero : F → Bool
  pub is_positive : F → Bool
  pub less : F → F → Bool
  pub refilled : F → ℕ → F → F
  pub least : F → F → F
  pub whole : F → ℕ
  pub spent : F → ℕ → F

-- `ProbeBatchSize`, `ProbeMaxPerHour` and `ProbeMaxPerDay`; 0 or less means no cap.
pub record Limits : Type 0 where
  pub batch_size : ℤ
  pub per_hour : ℤ
  pub per_day : ℤ

pub record Budget (F : Type 0) : Type 0 where
  pub window : ℕ
  pub used : ℕ
  pub day : ℕ
  pub daily_used : ℕ
  pub tokens : F
  pub refilled : ℕ

-- A cap after its test `> 0`, 0 for none.
abbrev pub cap : ℤ → ℕ
cap d = positive_or d 0

abbrev pub default_batch : ℕ
default_batch = 100

-- `int(^uint(0) >> 1)`.
abbrev pub max_int : ℕ
max_int = 9223372036854775807

unfoldable pub burst_of : Limits → ℕ
burst_of cfg =
    let batch = positive_or cfg.batch_size default_batch in
    let hourly = if ltb 0 (cap cfg.per_hour) then min batch (cap cfg.per_hour) else batch in
    if ltb 0 (cap cfg.per_day) then min hourly (cap cfg.per_day) else hourly

module _ {F : Type 0} where
  -- `day` is the start of the local day of `now`.
  unfoldable pub reset_probe_budget : ℕ → ℕ → Budget F → Budget F
  reset_probe_budget now day b =
      let window = now - now % hour in
      let new_window = b.window == 0 || ltb b.window window in
      let new_day = b.day == 0 || ltb b.day day in
      record b {
        window = if new_window then window else b.window;
        used = if new_window then 0 else b.used;
        day = if new_day then day else b.day;
        daily_used = if new_day then 0 else b.daily_used;
      }

  unfoldable pub rate_of : Floats F → Limits → F
  rate_of f cfg =
      let hourly =
        if ltb 0 (cap cfg.per_hour) then f.per_hour (cap cfg.per_hour) else f.zero_rate in
      let daily = f.per_day (cap cfg.per_day) in
      if ltb 0 (cap cfg.per_day) && (f.is_zero hourly || f.less daily hourly) then daily else hourly

  -- `refillProbeBudgetLocked`, without the burst and the rate, which it also returns.
  unfoldable pub refill_probe_budget : Floats F → Limits → ℕ → Budget F → Budget F
  refill_probe_budget f cfg now b =
      let later =
        if b.refilled == 0
        then record b { tokens = f.from_int (burst_of cfg); refilled = now }
        else if ltb b.refilled now
        then record b {
          tokens = f.refilled b.tokens (now - b.refilled) (rate_of f cfg);
          refilled = now;
        }
        else b in
      record later { tokens = f.least (f.from_int (burst_of cfg)) later.tokens }

  -- A difference below 0 is read as 0: the result is at least 0 in the end.
  unfoldable pub probe_allowance : Floats F → Limits → F → Budget F → ℕ
  probe_allowance f cfg rate b =
      let paced = if f.is_positive rate then f.whole b.tokens else max_int in
      let hourly =
        if ltb 0 (cap cfg.per_hour) then min paced (cap cfg.per_hour - b.used) else paced in
      if ltb 0 (cap cfg.per_day) then min hourly (cap cfg.per_day - b.daily_used) else hourly

  -- How many of the `requested` probes may run, and the budget after them.
  unfoldable pub reserve_probe_budget : Floats F → Limits → ℕ → ℕ → ℕ → Budget F → ℕ × Budget F
  reserve_probe_budget f cfg requested now day b =
      let rate = rate_of f cfg in
      let ready = refill_probe_budget f cfg now (reset_probe_budget now day b) in
      let allowed = min requested (probe_allowance f cfg rate ready) in
      let taken = record ready {
        used = ready.used + allowed;
        daily_used = ready.daily_used + allowed;
        tokens = if f.is_positive rate then f.spent ready.tokens allowed else ready.tokens;
      } in
      if requested == 0 then (0, b) else if allowed == 0 then (0, ready) else (allowed, taken)
