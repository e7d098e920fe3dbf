-- ===== src/Base/Text.antt =====
-- Constant texts as byte strings.
use Prim.Native.Char.{code}
use Prim.Native.String.{String}
use mathlib.Core.List.{[], ◌∷◌, ◌++◌}
use mathlib.Core.Bool.{Bool, false, ◌||◌}
use mathlib.Core.Option.{Option, none, some}
use mathlib.Core.Path.{◌≡◌, refl}
use native.Mathlib.Omega.{arith}
use proxyfleet.Base.Tests.{if◌then◌else◌, ◌==◌}
use Prim.Native.Nat.{ℕ}
use proxyfleet.Base.Lists.{Bytes}

-- The code points of a text: its bytes, if it is ASCII.
abbrev pub codes : String → Bytes
codes String.[] = []
codes (String.◌∷◌ c s) = code c ∷ codes s

-- `strings.CutPrefix`, `none` without the prefix.
abbrev pub cut_prefix : Bytes → Bytes → Option Bytes
cut_prefix [] s = some s
cut_prefix (p ∷ ps) [] = none
cut_prefix (p ∷ ps) (c ∷ s) = let rest = cut_prefix ps s in if p == c then rest else none

-- `strings.ContainsRune` for an ASCII character.
abbrev pub contains_byte : ℕ → Bytes → Bool
contains_byte b [] = false
contains_byte b (c ∷ s) = b == c || contains_byte b s

pub cut_prefix-append : (p s : Bytes) → cut_prefix p (p ++ s) ≡ some s
cut_prefix-append [] s = refl
cut_prefix-append (b ∷ p) s = ground (arith, cut_prefix-append p s)

pub cut_prefix-some : (p u s : Bytes) → cut_prefix p u ≡ some s → u ≡ p ++ s
cut_prefix-some [] u s h = ground (arith, h)
cut_prefix-some (b ∷ p) [] s h = absurd (ground (arith, h))
cut_prefix-some (b ∷ p) (c ∷ u) s h = ground (arith, h, cut_prefix-some p u s)
