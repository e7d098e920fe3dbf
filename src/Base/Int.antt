-- ===== src/Base/Int.antt =====
-- Signed integers over the native numbers, for the counters that the source keeps as `int32` and
-- for durations, which may be negative. `negsuc n` is -(n + 1).
use Prim.Native.Nat.{ℕ, zero, suc, ◌+◌, ◌-◌, ◌<◌}
use native.Mathlib.Omega.{arith}

pub data ℤ : Type 0 where
  pos : ℕ → ℤ
  negsuc : ℕ → ℤ

abbrev pub suc_ℤ : ℤ → ℤ
suc_ℤ (pos n) = pos (suc n)
suc_ℤ (negsuc zero) = pos zero
suc_ℤ (negsuc (suc n)) = negsuc n

abbrev pub pred_ℤ : ℤ → ℤ
pred_ℤ (pos zero) = negsuc zero
pred_ℤ (pos (suc n)) = pos n
pred_ℤ (negsuc n) = negsuc (suc n)

-- An instant moved by a signed duration. Instants start at 0, Go's zero `time.Time`.
abbrev pub add_duration : ℕ → ℤ → ℕ
add_duration t (pos n) = t + n
add_duration t (negsuc n) = t - suc n

-- `if d <= 0 { d = default }`.
abbrev pub positive_or : ℤ → ℕ → ℕ
positive_or (pos zero) default = default
positive_or (pos (suc n)) default = suc n
positive_or (negsuc n) default = default

pub positive_or_pos : (d : ℤ) (default : ℕ) → 0 < default → 0 < positive_or d default
positive_or_pos (pos zero) default h = h
positive_or_pos (pos (suc n)) default h = omega arith
positive_or_pos (negsuc n) default h = h
