-- ===== src/Pool/Pick/Modes.antt =====
-- Every way of picking finds an eligible candidate if there is one, the round robin as long as its
-- counter does not wrap within the pick.
use proxyfleet.Base.{ℕ, ◌+◌, ◌^◌, ◌≤◌}
use proxyfleet.Pool.Pick.{Mode, round_robin}

-- Where the mode counts, the count does not wrap within one pick.
abbrev pub IsUnwrapped : Mode → ℕ → ℕ → Type 0
IsUnwrapped round_robin counter n = counter + n ≤ 2 ^ 32
IsUnwrapped _ counter n = Unit {0}
