-- ===== src/Monitor/Picks.antt =====
-- internal/monitor/adaptive.go, `selectAdaptiveEntries`: how the due nodes share a probe batch.
pub mod Steps
pub mod Shares
use proxyfleet.Base.{ℕ, zero, suc, ◌+◌, ◌%◌, ◌==◌, Option, none, some, List, [], ◌∷◌, if◌then◌else◌}

-- Priorities 0, 1 and 2: never probed, failing, healthy.
pub data Group : Type 0 where
  fresh : Group
  recovering : Group
  healthy : Group

pub record Groups (A : Type 0) : Type 0 where
  pub fresh_ones : List A
  pub recovering_ones : List A
  pub healthy_ones : List A

-- `shares`, at a position modulo 4.
abbrev pub share : ℕ → Group
share position = if position == 1 then recovering else if position == 3 then healthy else fresh

-- The cursor is an atomic `uint64`.
unfoldable pub next_cursor : ℕ → ℕ
next_cursor cursor = (cursor + 1) % 18446744073709551616

module _ {A : Type 0} where
  -- The first of a group, and the groups without it.
  unfoldable pub take_first : Group → Groups A → Option (A × Groups A)
  take_first fresh g = elim g.fresh_ones [
    | [] ↦ none
    | x ∷ xs ↦ some (x, record g { fresh_ones = xs })
  ]
  take_first recovering g = elim g.recovering_ones [
    | [] ↦ none
    | x ∷ xs ↦ some (x, record g { recovering_ones = xs })
  ]
  take_first healthy g = elim g.healthy_ones [
    | [] ↦ none
    | x ∷ xs ↦ some (x, record g { healthy_ones = xs })
  ]

  abbrev pub also : A → Option (List A × ℕ) → Option (List A × ℕ)
  also x none = none
  also x (some (xs, cursor)) = some (x ∷ xs, cursor)

  -- The loop that picks `wanted` entries, by rounds: the entries, and the cursor that is kept.
  unfoldable pub pick : ℕ → ℕ → ℕ → Groups A → Option (List A × ℕ)
  pick rounds zero cursor g = some ([], cursor)
  pick zero (suc wanted) cursor g = none
  pick (suc rounds) (suc wanted) cursor g = elim (take_first (share (cursor % 4)) g) [
    | none ↦ pick rounds (suc wanted) (next_cursor cursor) g
    | some (x, g') ↦ also x (pick rounds wanted (next_cursor cursor) g')
  ]
