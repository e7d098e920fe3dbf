-- ===== src/Monitor/Picks/Shares.antt =====
-- The picking ends, and no group starves.
use proxyfleet.Base.{
  ℕ, zero, suc, ◌+◌, ◌-◌, ◌*◌, ◌%◌, ◌<◌, ◌≤◌, ◌≡◌, ◌⊎◌, inl, inr, refl, ap, ◌∙◌, arith,
}
use proxyfleet.Monitor.Picks.{Groups, share, next_cursor, pick}
use proxyfleet.Monitor.Picks.Steps.{
  wrap, next_cursor_position, wait, wait_lt, wait_less, take_first-cases, nothing_wanted-Picked,
  pass, picks, total-Less, size_of, total, Picked,
}

module _ {A : Type 0} where
  -- The rounds of one pick and of all: the wait for the first, and four for each further one.
  abbrev Enough : ℕ → ℕ → ℕ → Groups A → Type 0
  Enough rounds wanted p g = (wanted ≡ 0) ⊎ (wait p g + (wanted - 1) * 4 < rounds)

  pass-Enough :
      (rounds wanted p : ℕ) (g : Groups A)
      → p < 4
      → suc wanted ≤ total g
      → size_of (share p) g ≡ 0
      → Enough (suc rounds) (suc wanted) p g
      → Enough rounds (suc wanted) (wrap p) g
  pass-Enough rounds wanted p g bound h nothing (inl e) = absurd (omega (arith, e))
  pass-Enough rounds wanted p g bound h nothing (inr enough) =
      inr (omega (arith, wait_less p g bound (omega (arith, h)) nothing, enough))

  picks-Enough :
      (rounds wanted p : ℕ) (g g' : Groups A)
      → Enough (suc rounds) (suc wanted) p g
      → Enough rounds wanted (wrap p) g'
  picks-Enough rounds zero p g g' e = inl refl
  picks-Enough rounds (suc wanted) p g g' (inl e) = absurd (omega (arith, e))
  picks-Enough rounds (suc wanted) p g g' (inr enough) =
      inr (omega (arith, wait_lt (wrap p) g', enough))

  pick_from-Picked :
      (rounds wanted cursor p : ℕ) (g : Groups A)
      → cursor % 4 ≡ p
      → p < 4
      → wanted ≤ total g
      → Enough rounds wanted p g
      → Picked wanted p g (pick rounds wanted cursor g)
  unfolding pick
  pick_from-Picked rounds zero cursor p g at bound h enough = nothing_wanted-Picked p cursor g bound
  pick_from-Picked zero (suc wanted) cursor p g at bound h enough = absurd (ground (arith, enough))
  pick_from-Picked (suc rounds) (suc wanted) cursor p g at bound h enough =
      let at' = next_cursor_position cursor ∙ ap wrap at in
      let bound' : wrap p < 4 = ground (arith, bound) in
      rw (at, pick)
        (elim (take_first-cases (share p) g) [
          | inl (nothing, e) ↦ rw e (
              pass (suc wanted) p g _ bound nothing (
                pick_from-Picked rounds (suc wanted) (next_cursor cursor) (wrap p) g at' bound' h
                  (pass-Enough rounds wanted p g bound h nothing enough)))
          | inr t ↦ rw t.answer (
              picks wanted p (share p) t.one t.rest g _ bound refl t.less (
                pick_from-Picked rounds wanted (next_cursor cursor) (wrap p) t.rest at' bound'
                  (omega (arith, total-Less t.less, h))
                  (picks-Enough rounds wanted p g t.rest enough)))
        ])

start-Enough : {A : Type 0} (wanted p : ℕ) (g : Groups A) → Enough (4 * wanted) wanted p g
start-Enough zero p g = inl refl
start-Enough (suc wanted) p g = inr (omega (arith, wait_lt p g))

-- A probe batch that may hold `wanted` of the due nodes, which are at least as many, is picked
-- in at most four rounds for each of them, wherever the cursor stands: the picking ends with
-- exactly `wanted` nodes, they are a merge of a front part of each priority's nodes in their
-- order, and no priority starves: its part is all of it, or at least as many as `wanted` rounds
-- from the cursor on visit it, which is every second round for the nodes that were never probed and
-- every fourth for the failing ones and for the healthy ones.
pub pick-Picked :
    {A : Type 0} (wanted cursor : ℕ) (g : Groups A)
    → wanted ≤ total g
    → Picked wanted (cursor % 4) g (pick (4 * wanted) wanted cursor g)
pick-Picked wanted cursor g h =
    pick_from-Picked (4 * wanted) wanted cursor (cursor % 4) g refl (omega arith) h
      (start-Enough wanted (cursor % 4) g)
