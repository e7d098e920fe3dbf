-- ===== src/Pool/Selection/Fairness.antt =====
-- Random, balanced and latency picking.
use proxyfleet.Base.{
  ℕ, zero, suc, ◌-◌, ◌≤◌, ◌≡◌, ◌⊎◌, Bool, true, false, Option, none, some, List, [], ◌∷◌, ◌++◌,
  length, take, drop, take-append-drop, if_cases, inl, inr, refl, sym, subst, leb, min, max, arith,
}
use proxyfleet.Pool.Selection.{
  Candidate, visit_from, first_eligible, select_random, less_loaded, first_two, select_balanced,
  better_latency, or_better, sample, select_latency, max_attempts,
}

-- The candidate stands in the list.
pub data IsIn (x : Candidate) : List Candidate → Type 0 where
  here : {xs : List Candidate} → IsIn x (x ∷ xs)
  there : {y : Candidate} {xs : List Candidate} → IsIn x xs → IsIn x (y ∷ xs)

-- A pick from a list: an eligible candidate of it, or none, and then nobody in it is eligible.
abbrev pub IsPick : List Candidate → Option Candidate → Type 0
IsPick xs none = (x : Candidate) → IsIn x xs → x.eligible ≡ false
IsPick xs (some x) = IsIn x xs × (x.eligible ≡ true)

nobody : (x : Candidate) → IsIn x [] → x.eligible ≡ false
nobody x m = elim m [ ]

behind :
    (x : Candidate) (xs : List Candidate)
    → x.eligible ≡ false
    → ((y : Candidate) → IsIn y xs → y.eligible ≡ false)
    → (y : Candidate) → IsIn y (x ∷ xs)
    → y.eligible ≡ false
behind x xs e p y here = e
behind x xs e p y (there m) = p y m

-- A pick from the rest is a pick from the whole, if the head is not eligible.
IsPick-there :
    (x : Candidate) (xs : List Candidate) (o : Option Candidate)
    → x.eligible ≡ false
    → IsPick xs o
    → IsPick (x ∷ xs) o
IsPick-there x xs none e p = behind x xs e p
IsPick-there x xs (some y) e p = (there p.0, p.1)

first_eligible-IsPick : (xs : List Candidate) → IsPick xs (first_eligible xs)
unfolding first_eligible
first_eligible-IsPick [] = nobody
first_eligible-IsPick (x ∷ xs) =
    if_cases (IsPick (x ∷ xs)) x.eligible (λ e. (here, e))
      (λ e. IsPick-there x xs (first_eligible xs) e (first_eligible-IsPick xs))

less_loaded-IsPick :
    (x : Candidate) (xs : List Candidate) (o : Option Candidate)
    → x.eligible ≡ true
    → IsPick xs o
    → IsPick (x ∷ xs) (some (less_loaded x o))
unfolding less_loaded
less_loaded-IsPick x xs none e p = (here, e)
less_loaded-IsPick x xs (some y) e p =
    if_cases (λ z. IsPick (x ∷ xs) (some z)) (leb x.active y.active) (λ _. (here, e))
      (λ _. (there p.0, p.1))

first_two-IsPick : (xs : List Candidate) → IsPick xs (first_two xs)
unfolding first_two
first_two-IsPick [] = nobody
first_two-IsPick (x ∷ xs) =
    if_cases (IsPick (x ∷ xs)) x.eligible
      (λ e. less_loaded-IsPick x xs (first_eligible xs) e (first_eligible-IsPick xs))
      (λ e. IsPick-there x xs (first_two xs) e (first_two-IsPick xs))

-- With a best so far, sampling stays inside the list and that best.
abbrev IsKept : Candidate → List Candidate → Option Candidate → Type 0
IsKept b xs none = ⊥
IsKept b xs (some x) = (x ≡ b) ⊎ IsPick xs (some x)

IsKept-there :
    (b x : Candidate) (xs : List Candidate) (o : Option Candidate)
    → IsKept b xs o
    → IsKept b (x ∷ xs) o
IsKept-there b x xs none k = k
IsKept-there b x xs (some y) (inl e) = inl e
IsKept-there b x xs (some y) (inr p) = inr (there p.0, p.1)

IsKept-new :
    (tolerance : ℕ) (b x : Candidate) (xs : List Candidate) (o : Option Candidate)
    → x.eligible ≡ true
    → IsKept (or_better tolerance x (some b)) xs o
    → IsKept b (x ∷ xs) o
IsKept-new tolerance b x xs none e k = k
IsKept-new tolerance b x xs (some y) e (inr p) = inr (there p.0, p.1)
IsKept-new tolerance b x xs (some y) e (inl same) =
    if_cases (λ z. y ≡ z → IsKept b (x ∷ xs) (some y)) (better_latency tolerance x b)
      (λ _ new. inr (subst (λ z. IsPick (x ∷ xs) (some z)) (sym new) (here, e))) (λ _ old. inl old)
      same

sample-IsKept :
    (tolerance n : ℕ) (b : Candidate) (xs : List Candidate)
    → IsKept b xs (sample tolerance n (some b) xs)
unfolding sample
sample-IsKept tolerance zero b xs = inl refl
sample-IsKept tolerance (suc n) b [] = inl refl
sample-IsKept tolerance (suc n) b (x ∷ xs) =
    if_cases (IsKept b (x ∷ xs)) x.eligible
      (λ e. IsKept-new tolerance b x xs _ e (sample-IsKept tolerance n _ xs))
      (λ _. IsKept-there b x xs _ (sample-IsKept tolerance (suc n) b xs))

IsKept-IsPick :
    (x : Candidate) (xs : List Candidate) (o : Option Candidate)
    → x.eligible ≡ true
    → IsKept x xs o
    → IsPick (x ∷ xs) o
IsKept-IsPick x xs none e k = absurd k
IsKept-IsPick x xs (some y) e (inl same) =
    subst (λ z. IsPick (x ∷ xs) (some z)) (sym same) (here, e)
IsKept-IsPick x xs (some y) e (inr p) = (there p.0, p.1)

sample-IsPick :
    (tolerance n : ℕ) (xs : List Candidate) → IsPick xs (sample tolerance (suc n) none xs)
unfolding sample
sample-IsPick tolerance n [] = nobody
sample-IsPick tolerance n (x ∷ xs) =
    if_cases (IsPick (x ∷ xs)) x.eligible
      (λ e. IsKept-IsPick x xs _ e (sample-IsKept tolerance n x xs))
      (λ e. IsPick-there x xs _ e (sample-IsPick tolerance n xs))

-- Visiting from any start reaches everyone.
IsIn-append_right : (x : Candidate) (xs ys : List Candidate) → IsIn x ys → IsIn x (xs ++ ys)
IsIn-append_right x [] ys m = m
IsIn-append_right x (y ∷ xs) ys m = there (IsIn-append_right x xs ys m)

IsIn-append_left :
    {x : Candidate} {xs : List Candidate} (ys : List Candidate) → IsIn x xs → IsIn x (xs ++ ys)
IsIn-append_left ys here = here
IsIn-append_left ys (there m) = there (IsIn-append_left ys m)

split :
    (x y : Candidate) (xs ys : List Candidate)
    → IsIn x (y ∷ (xs ++ ys))
    → (IsIn x (xs ++ ys) → IsIn x xs ⊎ IsIn x ys)
    → IsIn x (y ∷ xs) ⊎ IsIn x ys
split x y xs ys here rec = inl here
split x y xs ys (there m) rec = elim (rec m) [ inl l ↦ inl (there l) | inr r ↦ inr r ]

IsIn-append : (x : Candidate) (xs ys : List Candidate) → IsIn x (xs ++ ys) → IsIn x xs ⊎ IsIn x ys
IsIn-append x [] ys m = inr m
IsIn-append x (y ∷ xs) ys m = split x y xs ys m (IsIn-append x xs ys)

visit_swap : (x : Candidate) (xs ys : List Candidate) → IsIn x (xs ++ ys) → IsIn x (ys ++ xs)
visit_swap x xs ys m = elim (IsIn-append x xs ys m) [
  | inl l ↦ IsIn-append_right x ys xs l
  | inr r ↦ IsIn-append_left xs r
]

IsPick-visit_from :
    (start : ℕ) (cs : List Candidate) (o : Option Candidate)
    → IsPick (visit_from start cs) o
    → IsPick cs o
unfolding visit_from
IsPick-visit_from start cs none p = λ x m. p x (
    visit_swap x (take start cs) (drop start cs)
      (subst (IsIn x) (sym (take-append-drop start cs)) m))
IsPick-visit_from start cs (some x) p = (
  subst (IsIn x) (take-append-drop start cs) (visit_swap x (drop start cs) (take start cs) p.0),
  p.1,
)

length-pos :
    (c : Candidate) (cs : List Candidate) (k : ℕ)
    → (n : ℕ) × (min (max 1 k) (length (c ∷ cs)) ≡ suc n)
length-pos c cs k = (min (max 1 k) (length (c ∷ cs)) - 1, omega arith)

min_zero : (k : ℕ) → min k 0 ≡ 0
min_zero k = omega arith

none_sampled : (tolerance : ℕ) (xs : List Candidate) → sample tolerance 0 none xs ≡ none
unfolding sample
none_sampled tolerance xs = refl

select_latency-IsPick :
    (tolerance k start : ℕ) (cs : List Candidate) → IsPick cs (select_latency tolerance k start cs)
unfolding select_latency
select_latency-IsPick tolerance k start [] =
    rw (min_zero (max 1 k), none_sampled tolerance (visit_from start [])) nobody
select_latency-IsPick tolerance k start (c ∷ cs) =
    let (n, e) = length-pos c cs k in
    rw e
      (IsPick-visit_from start (c ∷ cs) _ (sample-IsPick tolerance n (visit_from start (c ∷ cs))))

-- Random, balanced and latency picking find an eligible candidate if there is one: from any start,
-- with any tolerance and sample size, each of the three returns an eligible candidate of the list,
-- or none, and then no candidate of the list is eligible.
pub select-IsPick :
    (start tolerance k : ℕ) (cs : List Candidate)
    → IsPick cs (select_random start cs)
      × IsPick cs (select_balanced start cs)
      × IsPick cs (select_latency tolerance k start cs)
unfolding select_random select_balanced
select-IsPick start tolerance k cs = (
  IsPick-visit_from start cs _ (first_eligible-IsPick (visit_from start cs)),
  IsPick-visit_from start cs _ (first_two-IsPick (visit_from start cs)),
  select_latency-IsPick tolerance k start cs,
)

-- Of two candidates at most one is better for latency, whatever the tolerance.
pub better_latency_asym :
    (tolerance : ℕ) (a b : Candidate)
    → better_latency tolerance a b ≡ true
    → better_latency tolerance b a ≡ false
unfolding better_latency
better_latency_asym tolerance a b h = ground arith

-- A request tries at least one node, never more than there are members if there are any, and just one if retries are
-- off or its listener serves one node.
pub max_attempts_bounds :
    (retry dedicated : Bool) (attempts members : ℕ)
    → (1 ≤ max_attempts retry dedicated attempts members)
      × (max_attempts retry dedicated attempts members ≤ max 1 members)
      × (retry ≡ false → max_attempts retry dedicated attempts members ≡ 1)
      × (dedicated ≡ true → max_attempts retry dedicated attempts members ≡ 1)
unfolding max_attempts
max_attempts_bounds retry dedicated attempts members =
    (ground arith, ground arith, ground arith, ground arith)
