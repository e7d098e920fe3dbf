-- ===== src/Monitor/Budget/Caps.antt =====
-- The caps of one hour and of one day.
use proxyfleet.Base.{
  ℕ, ◌+◌, ◌-◌, ◌%◌, ◌<◌, ◌≤◌, ◌≡◌, List, [], ◌∷◌, All, max, ◌==◌, if◌then◌else◌, arith,
}
use proxyfleet.Monitor.Backoff.{hour}
use proxyfleet.Monitor.Budget.{
  Floats, Limits, Budget, cap, rate_of, reset_probe_budget, refill_probe_budget, probe_allowance,
  reserve_probe_budget,
}

-- A call of `reserveProbeBudget`.
pub record Call : Type 0 where
  pub requested : ℕ
  pub now : ℕ
  pub day : ℕ

module _ {F : Type 0} (f : Floats F) (cfg : Limits) where
  -- What the calls are granted in all.
  unfoldable pub granted : List Call → Budget F → ℕ
  granted [] b = 0
  granted (c ∷ cs) b =
      let (allowed, b') = reserve_probe_budget f cfg c.requested c.now c.day b in
      allowed + granted cs b'

  pub reserve_le :
      (requested now day : ℕ) (b : Budget F)
      → (reserve_probe_budget f cfg requested now day b).0 ≤ requested
  unfolding reserve_probe_budget
  reserve_le requested now day b = ground arith

  -- What the hour that starts at `h` has cost so far, and the day that starts at `d`.
  abbrev hour_cost : ℕ → Budget F → ℕ
  hour_cost h b = if b.window == h then b.used else 0

  abbrev day_cost : ℕ → Budget F → ℕ
  day_cost d b = if b.day == d then b.daily_used else 0

  -- The refill touches the bucket only.
  record SameCounts (b b' : Budget F) : Type 0 where
    window : b'.window ≡ b.window
    used : b'.used ≡ b.used
    day : b'.day ≡ b.day
    daily_used : b'.daily_used ≡ b.daily_used

  refill-SameCounts : (now : ℕ) (b : Budget F) → SameCounts b (refill_probe_budget f cfg now b)
  unfolding refill_probe_budget
  refill-SameCounts now b = ground arith

  hourly_allowance :
      (rate : F) (b : Budget F)
      → 0 < cap cfg.per_hour
      → probe_allowance f cfg rate b ≤ cap cfg.per_hour - b.used
  unfolding probe_allowance
  hourly_allowance rate b h = ground arith

  daily_allowance :
      (rate : F) (b : Budget F)
      → 0 < cap cfg.per_day
      → probe_allowance f cfg rate b ≤ cap cfg.per_day - b.daily_used
  unfolding probe_allowance
  daily_allowance rate b h = ground arith

  -- A call adds what it grants to the cost, and grants nothing beyond the cap.
  record Charged (limit granted cost cost' : ℕ) : Type 0 where
    charged : granted + cost ≤ cost'
    capped : cost' ≤ max limit cost

  reserve-hour :
      (c : Call) (h : ℕ) (b : Budget F)
      → 0 < cap cfg.per_hour
      → c.now - c.now % hour ≡ h
      → 0 < h
      → b.window ≤ h
      → ((reserve_probe_budget f cfg c.requested c.now c.day b).1.window ≤ h)
        × Charged
            (cap cfg.per_hour)
            (reserve_probe_budget f cfg c.requested c.now c.day b).0
            (hour_cost h b)
            (hour_cost h (reserve_probe_budget f cfg c.requested c.now c.day b).1)
  unfolding reserve_probe_budget reset_probe_budget
  reserve-hour c h b capped at later before =
      let b1 = reset_probe_budget c.now c.day b in
      let same = refill-SameCounts c.now b1 in
      let room = hourly_allowance (rate_of f cfg) (refill_probe_budget f cfg c.now b1) capped in
      ground (arith, at, later, same, room)

  reserve-day :
      (c : Call) (d : ℕ) (b : Budget F)
      → 0 < cap cfg.per_day
      → c.day ≡ d
      → 0 < d
      → b.day ≤ d
      → ((reserve_probe_budget f cfg c.requested c.now c.day b).1.day ≤ d)
        × Charged
            (cap cfg.per_day)
            (reserve_probe_budget f cfg c.requested c.now c.day b).0
            (day_cost d b)
            (day_cost d (reserve_probe_budget f cfg c.requested c.now c.day b).1)
  unfolding reserve_probe_budget reset_probe_budget
  reserve-day c d b capped at later before =
      let b1 = reset_probe_budget c.now c.day b in
      let same = refill-SameCounts c.now b1 in
      let room = daily_allowance (rate_of f cfg) (refill_probe_budget f cfg c.now b1) capped in
      ground (arith, at, later, same, room)

  granted-hour :
      (h : ℕ) (cs : List Call) (b : Budget F)
      → 0 < cap cfg.per_hour
      → 0 < h
      → All (λ c. c.now - c.now % hour ≡ h) cs
      → b.window ≤ h
      → granted cs b + hour_cost h b ≤ max (cap cfg.per_hour) (hour_cost h b)
  unfolding granted
  granted-hour h [] b capped later at before = omega arith
  granted-hour h (c ∷ cs) b capped later at before =
      let r = reserve-hour c h b capped at.0 later before in
      let rest =
        granted-hour h cs (reserve_probe_budget f cfg c.requested c.now c.day b).1 capped later at.1
          r.0 in
      omega (arith, r.1.charged, r.1.capped, rest)

  granted-day :
      (d : ℕ) (cs : List Call) (b : Budget F)
      → 0 < cap cfg.per_day
      → 0 < d
      → All (λ c. c.day ≡ d) cs
      → b.day ≤ d
      → granted cs b + day_cost d b ≤ max (cap cfg.per_day) (day_cost d b)
  unfolding granted
  granted-day d [] b capped later at before = omega arith
  granted-day d (c ∷ cs) b capped later at before =
      let r = reserve-day c d b capped at.0 later before in
      let rest =
        granted-day d cs (reserve_probe_budget f cfg c.requested c.now c.day b).1 capped later at.1
          r.0 in
      omega (arith, r.1.charged, r.1.capped, rest)

  -- A positive hourly cap holds: whatever has gone before and whatever the bucket's arithmetic
  -- answers, all calls of one clock hour together are granted no more probes than the cap, if the
  -- budget has seen no later hour and the hour is not the first one after Go's zero time.
  pub granted-hour_le :
      (h : ℕ) (cs : List Call) (b : Budget F)
      → 0 < cap cfg.per_hour
      → 0 < h
      → All (λ c. c.now - c.now % hour ≡ h) cs
      → b.window ≤ h
      → granted cs b ≤ cap cfg.per_hour
  granted-hour_le h cs b capped later at before =
      omega (arith, granted-hour h cs b capped later at before)

  -- A positive daily cap holds in the same way for all calls of one local day.
  pub granted-day_le :
      (d : ℕ) (cs : List Call) (b : Budget F)
      → 0 < cap cfg.per_day
      → 0 < d
      → All (λ c. c.day ≡ d) cs
      → b.day ≤ d
      → granted cs b ≤ cap cfg.per_day
  granted-day_le d cs b capped later at before =
      omega (arith, granted-day d cs b capped later at before)
