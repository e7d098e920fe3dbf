-- ===== src/Pool/Lifetime/Slot.antt =====
-- The slot is given back exactly once, and only when no work is left that could use it.
use proxyfleet.Base.{
  ℕ, zero, suc, ◌+◌, ◌<◌, ◌≤◌, ◌≡◌, ◌↔◌, ◌==◌, inl, inr, ℕ-cases, Bool, true, false, List, [], ◌∷◌,
  ◌++◌, pos, refl, ap, ◌∙◌, if◌then◌else◌, if_cases, arith,
}
use proxyfleet.Pool.Lifetime.{
  World, start, hold, close, drop, hold_in, close_in, drop_in, leave_in, is_unused, use_up, Step,
  hold_step, close_step, leave_step, close_drops, releases, Reaches, here, then_step,
}

-- Callbacks that have not left.
abbrev pub inside : List Bool → ℕ
inside [] = 0
inside (ran ∷ rs) = (if ran then 0 else 1) + inside rs

-- All that keeps the slot: callbacks, a `Close` that has not dropped, a caller that has not closed.
abbrev pub keepers : World → ℕ
keepers w = inside w.callbacks + w.closing + (if w.life.closed then 0 else 1)

pub record Inv (w : World) : Type 0 where
  pub counted : w.life.refs ≡ pos (keepers w)
  pub given_back : w.releasing + w.released ≡ (if keepers w == 0 then 1 else 0)

inside-append : (rs : List Bool) → inside (rs ++ (false ∷ [])) ≡ inside rs + 1
inside-append [] = omega arith
inside-append (r ∷ rs) = omega (arith, inside-append rs)

inside-use_up :
    (i : ℕ) (rs : List Bool) → is_unused i rs ≡ true → inside rs ≡ inside (use_up i rs) + 1
inside-use_up i [] h = absurd (ground arith)
inside-use_up zero (r ∷ rs) h = ground arith
inside-use_up (suc i) (r ∷ rs) h = omega (arith, inside-use_up i rs h)

start-Inv : Inv start
unfolding start
start-Inv = record { counted = refl; given_back = refl }

hold_in-Inv : (w : World) → Inv w → Inv (hold_in w)
unfolding hold_in hold
hold_in-Inv w v = ground (arith, v, inside-append w.callbacks)

close_in-Inv : (w : World) → Inv w → Inv (close_in w)
unfolding close_in close
close_in-Inv w v = ground (arith, v)

-- One keeper drops its reference.
drop_in-Inv :
    (w : World) → w.life.refs ≡ pos (keepers w + 1) → w.releasing + w.released ≡ 0 → Inv (drop_in w)
unfolding drop_in drop
drop_in-Inv w counted none_back = ground (arith, counted)

leave_in-Inv : (i : ℕ) (w : World) → Inv w → Inv (leave_in i w)
unfolding leave_in
leave_in-Inv i w v =
    if_cases Inv (is_unused i w.callbacks)
      (λ unused.
        let less = inside-use_up i w.callbacks unused in
        drop_in-Inv _ (v.counted ∙ ap pos (omega (arith, less)))
          (ground (arith, v.given_back, less)))
      (λ _. v)

step-Inv : {w u : World} → Step w u → Inv w → Inv u
step-Inv hold_step v = hold_in-Inv _ v
step-Inv close_step v = close_in-Inv _ v
step-Inv (leave_step i) v = leave_in-Inv i _ v
step-Inv (close_drops h) v =
    drop_in-Inv _ (v.counted ∙ ap pos (omega arith)) (ground (arith, v.given_back))
step-Inv (releases h) v = record { counted = v.counted; given_back = omega (arith, v.given_back) }

pub reaches-Inv : {w : World} → Reaches start w → Inv w
reaches-Inv here = start-Inv
reaches-Inv (then_step r s) = step-Inv s (reaches-Inv r)

pub record SlotOk (w : World) : Type 0 where
  pub once : w.releasing + w.released ≤ 1
  pub given_back : 0 < w.releasing + w.released ↔ keepers w ≡ 0
  pub late : keepers w ≡ 0 → (hold w.life).0 ≡ false

-- A probe's admission slot is given back at most once and never early: whatever the interleaving
-- of calls of `Hold`, of `Close` and of the callbacks that `Hold` returned, `release` has been
-- called or is about to be called at most once, this is so exactly when the caller has closed, no
-- `Close` is under way and every admitted callback has left, and from then on `Hold` admits none.
pub reaches-SlotOk : {w : World} → Reaches start w → SlotOk w
unfolding hold
reaches-SlotOk {w} r =
    let v = reaches-Inv r in
    record {
      once = ground (arith, v.given_back);
      given_back = (λ h. ground (arith, v.given_back), λ h. ground (arith, v.given_back));
      late = λ h. ground (arith, h);
    }

first_unused : (rs : List Bool) → 0 < inside rs → (i : ℕ) × (is_unused i rs ≡ true)
first_unused [] h = absurd (omega arith)
first_unused (false ∷ rs) h = (0, refl)
first_unused (true ∷ rs) h = let (i, unused) = first_unused rs (omega (arith, h)) in (suc i, unused)

reaches-reaches : {w v u : World} → Reaches w v → Reaches v u → Reaches w u
reaches-reaches r here = r
reaches-reaches r (then_step q s) = then_step (reaches-reaches r q) s

-- A step that takes one keeper away and leaves the lifetime closed.
record Fewer (n : ℕ) (w u : World) : Type 0 where
  step : Step w u
  closed : u.life.closed ≡ true
  left : keepers u ≡ n

keepers-Fewer :
    (n : ℕ) (w : World) → w.life.closed ≡ true → keepers w ≡ suc n → (u : World) × Fewer n w u
unfolding leave_in drop_in drop
keepers-Fewer n w closed k = elim (ℕ-cases w.closing) [
  | inr c ↦ (_, record { step = close_drops c; closed = closed; left = ground (arith, k) })
  | inl e ↦
      let (i, unused) = first_unused w.callbacks (ground (arith, e, k)) in
      (
        leave_in i w,
        record {
          step = leave_step i;
          closed = ground (arith, closed);
          left = ground (arith, inside-use_up i w.callbacks unused);
        },
      )
]

finish :
    (n : ℕ) (w : World)
    → w.life.closed ≡ true
    → keepers w ≡ n
    → Inv w
    → (u : World) × (Reaches w u × (u.released ≡ 1))
finish zero w closed k v = elim (ℕ-cases w.releasing) [
  | inr some_left ↦ (_, (then_step here (releases some_left), ground (arith, v.given_back)))
  | inl e ↦ (w, (here, ground (arith, v.given_back)))
]
finish (suc n) w closed k v =
    let (u, f) = keepers-Fewer n w closed k in
    let (t, r) = finish n u f.closed f.left (step-Inv f.step v) in
    (t, (reaches-reaches (then_step here f.step) r.0, r.1))

close_in-closed : (w : World) → (close_in w).life.closed ≡ true
unfolding close_in close
close_in-closed w = ground arith

-- The slot is never lost: whatever state calls have led to, after one more `Close` there are steps of
-- the admitted callbacks and of the calls under way, to their ends, that lead to a state in which
-- `release` has been called exactly once.
pub reaches-released :
    {w : World} → Reaches start w → (u : World) × (Reaches (close_in w) u × (u.released ≡ 1))
reaches-released {w} r =
    finish (keepers (close_in w)) (close_in w) (close_in-closed w) refl
      (close_in-Inv w (reaches-Inv r))
