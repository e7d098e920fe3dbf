-- ===== src/Pool/Lifetime.antt =====
-- internal/outbound/pool/probe_lifetime.go: the admission slot of a probe, which its caller and the
-- dial callbacks share. Each section under `mu` is one atomic step, and what a call does after it
-- has unlocked is a step of its own, so steps of concurrent calls may fall in between.
pub mod Slot
use proxyfleet.Base.{
  ℕ, zero, suc, ◌+◌, ◌-◌, ◌<◌, Bool, true, false, List, [], ◌∷◌, ◌++◌, ℤ, pos, negsuc, suc_ℤ,
  pred_ℤ, if◌then◌else◌,
}

pub record Lifetime : Type 0 where
  pub refs : ℤ
  pub closed : Bool

unfoldable pub new_lifetime : Lifetime
new_lifetime = record { refs = pos 1; closed = false }

-- `Hold` up to its unlocking, and whether the callback may go on.
unfoldable pub hold : Lifetime → Bool × Lifetime
hold l = if l.closed then (false, l) else (true, record l { refs = suc_ℤ l.refs })

-- `Close` up to its unlocking, and whether it goes on to `drop`.
unfoldable pub close : Lifetime → Bool × Lifetime
close l = if l.closed then (false, l) else (true, record l { closed = true })

abbrev is_zero : ℤ → Bool
is_zero (pos zero) = true
is_zero _ = false

-- `drop` up to its unlocking, and whether it goes on to `release`.
unfoldable pub drop : Lifetime → Bool × Lifetime
drop l = let refs = pred_ℤ l.refs in (is_zero refs, record l { refs = refs })

-- All that happens around one lifetime: whether the `once` of each callback that `Hold` returned
-- has run, and how many calls stand before `drop` in `Close`, stand before `release` in `drop`, and
-- have called `release`.
pub record World : Type 0 where
  pub life : Lifetime
  pub callbacks : List Bool
  pub closing : ℕ
  pub releasing : ℕ
  pub released : ℕ

unfoldable pub start : World
unfolding new_lifetime
start = record { life = new_lifetime; callbacks = []; closing = 0; releasing = 0; released = 0 }

unfoldable pub hold_in : World → World
hold_in w =
    let (admitted, life) = hold w.life in
    record w {
      life = life;
      callbacks = if admitted then w.callbacks ++ (false ∷ []) else w.callbacks;
    }

unfoldable pub close_in : World → World
close_in w =
    let (goes_on, life) = close w.life in
    record w { life = life; closing = w.closing + (if goes_on then 1 else 0) }

unfoldable pub drop_in : World → World
drop_in w =
    let (last, life) = drop w.life in
    record w { life = life; releasing = w.releasing + (if last then 1 else 0) }

abbrev pub is_unused : ℕ → List Bool → Bool
is_unused i [] = false
is_unused zero (ran ∷ rs) = if ran then false else true
is_unused (suc i) (ran ∷ rs) = is_unused i rs

abbrev pub use_up : ℕ → List Bool → List Bool
use_up i [] = []
use_up zero (ran ∷ rs) = true ∷ rs
use_up (suc i) (ran ∷ rs) = ran ∷ use_up i rs

-- `once.Do(l.drop)` of callback `i`: only its first call drops.
unfoldable pub leave_in : ℕ → World → World
leave_in i w =
    if is_unused i w.callbacks then drop_in (record w { callbacks = use_up i w.callbacks }) else w

-- What may happen next.
pub data Step : World → World → Type 0 where
  hold_step : {w : World} → Step w (hold_in w)
  close_step : {w : World} → Step w (close_in w)
  leave_step : {w : World} (i : ℕ) → Step w (leave_in i w)
  close_drops :
      {w : World} → 0 < w.closing → Step w (drop_in (record w { closing = w.closing - 1 }))
  releases :
      {w : World}
      → 0 < w.releasing
      → Step w (record w { releasing = w.releasing - 1; released = w.released + 1 })

pub data Reaches (w : World) : World → Type 0 where
  here : Reaches w w
  then_step : {v u : World} → Reaches w v → Step v u → Reaches w u
