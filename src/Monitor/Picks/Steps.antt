-- ===== src/Monitor/Picks/Steps.antt =====
-- One round of the picking: which group is visited, and what a pick adds to the result.
use proxyfleet.Base.{
  ℕ, zero, suc, ◌+◌, ◌-◌, ◌/◌, ◌%◌, ◌<◌, ◌≤◌, ◌≡◌, ◌==◌, ◌⊎◌, inl, inr, min, not, Option, none,
  some, List, [], ◌∷◌, length, take, refl, ap, arith, if◌then◌else◌,
}
use proxyfleet.Monitor.Picks.{
  Group, fresh, recovering, healthy, Groups, share, next_cursor, take_first, also,
}

abbrev pub wrap : ℕ → ℕ
wrap p = if p == 3 then 0 else p + 1

pub next_cursor_position : (c : ℕ) → next_cursor c % 4 ≡ wrap (c % 4)
unfolding next_cursor
next_cursor_position c = ground arith

-- A merge of three lists.
pub data Merge {A : Type 0} : List A → List A → List A → List A → Type 0 where
  done : Merge [] [] [] []
  from_fresh : {xs ys zs s : List A} (x : A) → Merge xs ys zs s → Merge (x ∷ xs) ys zs (x ∷ s)
  from_recovering : {xs ys zs s : List A} (y : A) → Merge xs ys zs s → Merge xs (y ∷ ys) zs (y ∷ s)
  from_healthy : {xs ys zs s : List A} (z : A) → Merge xs ys zs s → Merge xs ys (z ∷ zs) (z ∷ s)

module _ {A : Type 0} where
  abbrev pub total : Groups A → ℕ
  total g = length g.fresh_ones + length g.recovering_ones + length g.healthy_ones

  abbrev pub size_of : Group → Groups A → ℕ
  size_of fresh g = length g.fresh_ones
  size_of recovering g = length g.recovering_ones
  size_of healthy g = length g.healthy_ones

  -- How many rounds pass before one picks.
  abbrev pub wait : ℕ → Groups A → ℕ
  wait p g =
      if not (size_of (share p) g == 0)
      then 0
      else if not (size_of (share (wrap p)) g == 0)
      then 1
      else if not (size_of (share (wrap (wrap p))) g == 0)
      then 2
      else 3

  pub wait_lt : (p : ℕ) (g : Groups A) → wait p g < 4
  wait_lt p g = ground arith

  pub wait_less :
      (p : ℕ) (g : Groups A)
      → p < 4
      → 0 < total g
      → size_of (share p) g ≡ 0
      → wait (wrap p) g + 1 ≡ wait p g
  wait_less zero g bound some_left h = ground arith
  wait_less (suc zero) g bound some_left h = ground arith
  wait_less (suc (suc zero)) g bound some_left h = ground arith
  wait_less (suc (suc (suc zero))) g bound some_left h = ground arith
  wait_less (suc (suc (suc (suc p)))) g bound some_left h = absurd (omega (arith, bound))

  pub data Less : Group → A → Groups A → Groups A → Type 0 where
    less_fresh :
        {g : Groups A} (x : A) → Less fresh x (record g { fresh_ones = x ∷ g.fresh_ones }) g
    less_recovering :
        {g : Groups A} (x : A)
        → Less recovering x (record g { recovering_ones = x ∷ g.recovering_ones }) g
    less_healthy :
        {g : Groups A} (x : A) → Less healthy x (record g { healthy_ones = x ∷ g.healthy_ones }) g

  pub record Took (r : Group) (g : Groups A) : Type 0 where
    pub one : A
    pub rest : Groups A
    pub answer : take_first r g ≡ some (one, rest)
    pub less : Less r one g rest

  abbrev pub Split : Group → Groups A → Type 0
  Split r g = ((size_of r g ≡ 0) × (take_first r g ≡ none)) ⊎ Took r g

  abbrev groups : List A → List A → List A → Groups A
  groups xs ys zs = record { fresh_ones = xs; recovering_ones = ys; healthy_ones = zs }

  first_fresh : (xs ys zs : List A) → Split fresh (groups xs ys zs)
  unfolding take_first
  first_fresh [] ys zs = inl (refl, refl)
  first_fresh (x ∷ xs) ys zs =
      inr (record { one = x; rest = _; answer = refl; less = less_fresh x })

  first_recovering : (xs ys zs : List A) → Split recovering (groups xs ys zs)
  unfolding take_first
  first_recovering xs [] zs = inl (refl, refl)
  first_recovering xs (y ∷ ys) zs =
      inr (record { one = y; rest = _; answer = refl; less = less_recovering y })

  first_healthy : (xs ys zs : List A) → Split healthy (groups xs ys zs)
  unfolding take_first
  first_healthy xs ys [] = inl (refl, refl)
  first_healthy xs ys (z ∷ zs) =
      inr (record { one = z; rest = _; answer = refl; less = less_healthy z })

  pub take_first-cases : (r : Group) (g : Groups A) → Split r g
  take_first-cases fresh g = first_fresh g.fresh_ones g.recovering_ones g.healthy_ones
  take_first-cases recovering g = first_recovering g.fresh_ones g.recovering_ones g.healthy_ones
  take_first-cases healthy g = first_healthy g.fresh_ones g.recovering_ones g.healthy_ones

  -- What is picked from position `p` on, and how many of each group: all of it, or no fewer than
  -- `wanted` rounds visit it.
  pub record Picked (wanted p : ℕ) (g : Groups A) (o : Option (List A × ℕ)) : Type 0 where
    pub selected : List A
    pub cursor : ℕ
    pub ended : o ≡ some (selected, cursor)
    pub of_fresh : ℕ
    pub of_recovering : ℕ
    pub of_healthy : ℕ
    pub merge :
        Merge
          (take of_fresh g.fresh_ones)
          (take of_recovering g.recovering_ones)
          (take of_healthy g.healthy_ones)
          selected
    pub fresh_within : of_fresh ≤ length g.fresh_ones
    pub recovering_within : of_recovering ≤ length g.recovering_ones
    pub healthy_within : of_healthy ≤ length g.healthy_ones
    pub counted : of_fresh + of_recovering + of_healthy ≡ wanted
    pub fresh_share : min (length g.fresh_ones) ((wanted + 1 - p % 2) / 2) ≤ of_fresh
    pub recovering_share :
        min (length g.recovering_ones) ((wanted + (p + 2) % 4) / 4) ≤ of_recovering
    pub healthy_share : min (length g.healthy_ones) ((wanted + p) / 4) ≤ of_healthy

  pub nothing_wanted-Picked :
      (p cursor : ℕ) (g : Groups A) → p < 4 → Picked 0 p g (some ([], cursor))
  nothing_wanted-Picked p cursor g bound = record {
    selected = [];
    cursor = cursor;
    ended = refl;
    of_fresh = 0;
    of_recovering = 0;
    of_healthy = 0;
    merge = done;
    fresh_within = omega arith;
    recovering_within = omega arith;
    healthy_within = omega arith;
    counted = refl;
    fresh_share = omega (arith, bound);
    recovering_share = omega (arith, bound);
    healthy_share = omega arith;
  }

  -- A round that finds its group empty.
  pub pass :
      (wanted p : ℕ) (g : Groups A) (o : Option (List A × ℕ))
      → p < 4
      → size_of (share p) g ≡ 0
      → Picked wanted (wrap p) g o
      → Picked wanted p g o
  pass wanted p g o bound nothing v = record {
    selected = v.selected;
    cursor = v.cursor;
    ended = v.ended;
    of_fresh = v.of_fresh;
    of_recovering = v.of_recovering;
    of_healthy = v.of_healthy;
    merge = v.merge;
    fresh_within = v.fresh_within;
    recovering_within = v.recovering_within;
    healthy_within = v.healthy_within;
    counted = v.counted;
    fresh_share = ground (arith, nothing, bound, v.fresh_share);
    recovering_share = ground (arith, nothing, bound, v.recovering_share);
    healthy_share = ground (arith, nothing, bound, v.healthy_share);
  }

  picks_fresh :
      (wanted p : ℕ) (g : Groups A) (x : A) (o : Option (List A × ℕ))
      → (p ≡ 0) ⊎ (p ≡ 2)
      → Picked wanted (wrap p) g o
      → Picked (suc wanted) p (record g { fresh_ones = x ∷ g.fresh_ones }) (also x o)
  picks_fresh wanted p g x o at v = record {
    selected = x ∷ v.selected;
    cursor = v.cursor;
    ended = ap (also x) v.ended;
    of_fresh = suc v.of_fresh;
    of_recovering = v.of_recovering;
    of_healthy = v.of_healthy;
    merge = from_fresh x v.merge;
    fresh_within = omega (arith, v.fresh_within);
    recovering_within = v.recovering_within;
    healthy_within = v.healthy_within;
    counted = omega (arith, v.counted);
    fresh_share = ground (arith, at, v.fresh_share);
    recovering_share = ground (arith, at, v.recovering_share);
    healthy_share = ground (arith, at, v.healthy_share);
  }

  picks_recovering :
      (wanted p : ℕ) (g : Groups A) (x : A) (o : Option (List A × ℕ))
      → p ≡ 1
      → Picked wanted (wrap p) g o
      → Picked (suc wanted) p (record g { recovering_ones = x ∷ g.recovering_ones }) (also x o)
  picks_recovering wanted p g x o at v = record {
    selected = x ∷ v.selected;
    cursor = v.cursor;
    ended = ap (also x) v.ended;
    of_fresh = v.of_fresh;
    of_recovering = suc v.of_recovering;
    of_healthy = v.of_healthy;
    merge = from_recovering x v.merge;
    fresh_within = v.fresh_within;
    recovering_within = omega (arith, v.recovering_within);
    healthy_within = v.healthy_within;
    counted = omega (arith, v.counted);
    fresh_share = ground (arith, at, v.fresh_share);
    recovering_share = ground (arith, at, v.recovering_share);
    healthy_share = ground (arith, at, v.healthy_share);
  }

  picks_healthy :
      (wanted p : ℕ) (g : Groups A) (x : A) (o : Option (List A × ℕ))
      → p ≡ 3
      → Picked wanted (wrap p) g o
      → Picked (suc wanted) p (record g { healthy_ones = x ∷ g.healthy_ones }) (also x o)
  picks_healthy wanted p g x o at v = record {
    selected = x ∷ v.selected;
    cursor = v.cursor;
    ended = ap (also x) v.ended;
    of_fresh = v.of_fresh;
    of_recovering = v.of_recovering;
    of_healthy = suc v.of_healthy;
    merge = from_healthy x v.merge;
    fresh_within = v.fresh_within;
    recovering_within = v.recovering_within;
    healthy_within = omega (arith, v.healthy_within);
    counted = omega (arith, v.counted);
    fresh_share = ground (arith, at, v.fresh_share);
    recovering_share = ground (arith, at, v.recovering_share);
    healthy_share = ground (arith, at, v.healthy_share);
  }

  pub picks :
      (wanted p : ℕ) (r : Group) (x : A) (g' g : Groups A) (o : Option (List A × ℕ))
      → p < 4
      → r ≡ share p
      → Less r x g g'
      → Picked wanted (wrap p) g' o
      → Picked (suc wanted) p g (also x o)
  picks wanted p fresh x g' _ o bound at (less_fresh _) v =
      picks_fresh wanted p g' x o (ground (arith, at, bound)) v
  picks wanted p recovering x g' _ o bound at (less_recovering _) v =
      picks_recovering wanted p g' x o (ground (arith, at, bound)) v
  picks wanted p healthy x g' _ o bound at (less_healthy _) v =
      picks_healthy wanted p g' x o (ground (arith, at, bound)) v

  pub total-Less : {r : Group} {x : A} {g g' : Groups A} → Less r x g g' → total g ≡ suc (total g')
  total-Less (less_fresh x) = omega arith
  total-Less (less_recovering x) = omega arith
  total-Less (less_healthy x) = omega arith
