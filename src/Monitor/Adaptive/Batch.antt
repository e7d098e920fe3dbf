-- ===== src/Monitor/Adaptive/Batch.antt =====
-- A batch holds due nodes only, as many as the budget grants.
use proxyfleet.Base.{
  ℕ, zero, suc, ◌+◌, ◌<◌, ◌≤◌, ◌≡◌, true, Option, some, List, [], ◌∷◌, length, ◌==◌, if_cases, min,
  ℤ, positive_or, All, All-map, take, length-take, refl, ap, ◌∙◌, arith,
}
use proxyfleet.Monitor.Picks.{Groups}
use proxyfleet.Monitor.Picks.Steps.{
  Merge, Picked, total, done, from_fresh, from_recovering, from_healthy,
}
use proxyfleet.Monitor.Picks.Shares.{pick-Picked}
use proxyfleet.Monitor.Budget.{Floats, Limits, reserve_probe_budget}
use proxyfleet.Monitor.Budget.Caps.{reserve_le}
use proxyfleet.Monitor.Adaptive.{
  Reading, Intervals, Candidate, priority_of, is_candidate, candidates_of, comes_before,
  insert_sorted, sort_candidates, with_priority, groups_of, after_picking, Prober,
  select_adaptive_entries,
}

All-take {ℓ} : {A : Type ℓ} (P : A → Type 0) (n : ℕ) (xs : List A) → All P xs → All P (take n xs)
All-take P zero xs h = tt
All-take P (suc n) [] h = tt
All-take P (suc n) (x ∷ xs) h = (h.0, All-take P n xs h.1)

All-Merge :
    {A : Type 0} (P : A → Type 0) {xs ys zs s : List A}
    → Merge xs ys zs s
    → All P xs
    → All P ys
    → All P zs
    → All P s
All-Merge P done hx hy hz = tt
All-Merge P (from_fresh x m) hx hy hz = (hx.0, All-Merge P m hx.1 hy hz)
All-Merge P (from_recovering y m) hx hy hz = (hy.0, All-Merge P m hx hy.1 hz)
All-Merge P (from_healthy z m) hx hy hz = (hz.0, All-Merge P m hx hy hz.1)

length-Merge :
    {A : Type 0} {xs ys zs s : List A}
    → Merge xs ys zs s
    → length s ≡ length xs + length ys + length zs
length-Merge done = refl
length-Merge (from_fresh x m) = omega (arith, length-Merge m)
length-Merge (from_recovering y m) = omega (arith, length-Merge m)
length-Merge (from_healthy z m) = omega (arith, length-Merge m)

-- The entry of a reading that is due.
pub data Due (cfg : Intervals) (now : ℕ) : List Reading → ℕ → Type 0 where
  this :
      {r : Reading} {rs : List Reading} → is_candidate cfg now r ≡ true → Due cfg now (r ∷ rs) r.id
  later : {r : Reading} {rs : List Reading} {i : ℕ} → Due cfg now rs i → Due cfg now (r ∷ rs) i

-- A candidate of a due reading, with one of the three priorities.
abbrev Fine : Intervals → ℕ → List Reading → Candidate → Type 0
Fine cfg now rs c = Due cfg now rs c.entry × (c.priority < 3)

priority_lt : (r : Reading) → priority_of r < 3
unfolding priority_of
priority_lt r = ground arith

candidates_of-Fine :
    (cfg : Intervals) (now : ℕ) (rs : List Reading)
    → All (Fine cfg now rs) (candidates_of cfg now rs)
unfolding candidates_of
candidates_of-Fine cfg now [] = tt
candidates_of-Fine cfg now (r ∷ rs) =
    let rest =
      All-map (Fine cfg now rs) (Fine cfg now (r ∷ rs)) (λ c h. (later h.0, h.1)) _
        (candidates_of-Fine cfg now rs) in
    if_cases (All (Fine cfg now (r ∷ rs))) (is_candidate cfg now r)
      (λ h. ((this h, priority_lt r), rest)) (λ _. rest)

module _ (P : Candidate → Type 0) where
  insert_sorted-All :
      (c : Candidate) (cs : List Candidate) → P c → All P cs → All P (insert_sorted c cs)
  unfolding insert_sorted
  insert_sorted-All c [] p h = (p, tt)
  insert_sorted-All c (d ∷ cs) p h =
      if_cases (All P) (comes_before d c) (λ _. (h.0, insert_sorted-All c cs p h.1)) (λ _. (p, h))

  sort_candidates-All : (cs : List Candidate) → All P cs → All P (sort_candidates cs)
  unfolding sort_candidates
  sort_candidates-All [] h = tt
  sort_candidates-All (c ∷ cs) h = insert_sorted-All c _ h.0 (sort_candidates-All cs h.1)

with_priority-All :
    (Q : ℕ → Type 0) (p : ℕ) (cs : List Candidate)
    → All (λ c. Q c.entry) cs
    → All Q (with_priority p cs)
with_priority-All Q p [] h = tt
with_priority-All Q p (c ∷ cs) h =
    let rest = with_priority-All Q p cs h.1 in
    if_cases (All Q) (c.priority == p) (λ _. (h.0, rest)) (λ _. rest)

total-groups_of :
    (cs : List Candidate) → All (λ c. c.priority < 3) cs → total (groups_of cs) ≡ length cs
unfolding groups_of
total-groups_of [] h = refl
total-groups_of (c ∷ cs) h = ground (arith, h.0, total-groups_of cs h.1)

length-insert_sorted :
    (c : Candidate) (cs : List Candidate) → length (insert_sorted c cs) ≡ suc (length cs)
unfolding insert_sorted
length-insert_sorted c [] = refl
length-insert_sorted c (d ∷ cs) = ground (arith, length-insert_sorted c cs)

length-sort_candidates : (cs : List Candidate) → length (sort_candidates cs) ≡ length cs
unfolding sort_candidates
length-sort_candidates [] = refl
length-sort_candidates (c ∷ cs) =
    length-insert_sorted c (sort_candidates cs) ∙ ap suc (length-sort_candidates cs)

length-take_within : {A : Type 0} (n : ℕ) (xs : List A) → n ≤ length xs → length (take n xs) ≡ n
length-take_within n xs h = omega (arith, length-take n xs)

module _ {A : Type 0} {wanted p : ℕ} {g : Groups A} {o : Option (List A × ℕ)}
    (v : Picked wanted p g o) where
  length-Picked : length v.selected ≡ wanted
  length-Picked =
      length-Merge v.merge
      ∙ omega (
        arith,
        length-take_within v.of_fresh g.fresh_ones v.fresh_within,
        length-take_within v.of_recovering g.recovering_ones v.recovering_within,
        length-take_within v.of_healthy g.healthy_ones v.healthy_within,
        v.counted,
      )

  All-Picked :
      (P : A → Type 0)
      → All P g.fresh_ones
      → All P g.recovering_ones
      → All P g.healthy_ones
      → All P v.selected
  All-Picked P hx hy hz =
      All-Merge P v.merge (All-take P v.of_fresh _ hx) (All-take P v.of_recovering _ hy)
        (All-take P v.of_healthy _ hz)

-- The probes that are asked of the budget.
abbrev pub requested : Intervals → ℤ → ℕ → List Reading → ℕ
requested cfg limit now entries =
    min (length (candidates_of cfg now entries)) (positive_or limit (length entries))

pub record Taken {F : Type 0} (f : Floats F) (caps : Limits) (cfg : Intervals) (limit : ℤ)
    (now day : ℕ) (entries : List Reading) (p : Prober F) : Type 0 where
  pub selected : List ℕ
  pub ended : (select_adaptive_entries f caps cfg limit now day entries p).0 ≡ some selected
  pub granted :
      length selected
      ≡ (reserve_probe_budget f caps (requested cfg limit now entries) now day p.budget).0
  pub due : All (Due cfg now entries) selected

-- A round of adaptive probing ends with exactly as many nodes as the budget grants of those that
-- are due, or of the round's limit if that is less, and takes only nodes that are due: it has a
-- probe, no recent traffic vouches for it, and it was never probed or its interval has passed.
pub select_adaptive_entries-Taken :
    {F : Type 0} (f : Floats F) (caps : Limits) (cfg : Intervals) (limit : ℤ) (now day : ℕ)
    (entries : List Reading) (p : Prober F)
    → Taken f caps cfg limit now day entries p
unfolding select_adaptive_entries groups_of
select_adaptive_entries-Taken f caps cfg limit now day entries p =
    let found = candidates_of cfg now entries in
    let sorted = sort_candidates found in
    let same_length = length-sort_candidates found in
    let wanted = min (length sorted) (positive_or limit (length entries)) in
    let (allowed, budget) = reserve_probe_budget f caps wanted now day p.budget in
    let fine : All (Fine cfg now entries) sorted =
      sort_candidates-All (Fine cfg now entries) found (candidates_of-Fine cfg now entries) in
    let all_due : All (λ c. Due cfg now entries c.entry) sorted =
      All-map (Fine cfg now entries) _ (λ _ h. h.0) sorted fine in
    let all_low : All (λ c. c.priority < 3) sorted =
      All-map (Fine cfg now entries) _ (λ _ h. h.1) sorted fine in
    let part = λ (n : ℕ). with_priority-All (Due cfg now entries) n sorted all_due in
    let enough : allowed ≤ total (groups_of sorted) =
      omega (arith, reserve_le f caps wanted now day p.budget, total-groups_of sorted all_low) in
    let v = pick-Picked allowed p.cursor (groups_of sorted) enough in
    record {
      selected = v.selected;
      ended = ap (λ o. (after_picking budget p.cursor o).0) v.ended;
      granted =
          length-Picked v
          ∙ ap (λ n. (reserve_probe_budget f caps n now day p.budget).0)
              (ap (λ n. min n (positive_or limit (length entries))) same_length);
      due = All-Picked v (Due cfg now entries) (part 0) (part 1) (part 2);
    }
