-- ===== src/Pool/Selection.antt =====
-- internal/outbound/pool/pool.go: how a member is picked among the eligible candidates, and how many
-- nodes a request may try. The loops over offsets visit the candidates from the start on and then
-- those before it.
pub mod Fairness
use proxyfleet.Base.{
  ℕ, zero, suc, ◌+◌, ◌-◌, Bool, true, false, not, ◌&&◌, ◌||◌, Option, none, some, List, [], ◌∷◌,
  ◌++◌, ltb, leb, ◌==◌, length, take, drop, if◌then◌else◌, min, max,
}

-- What selection reads of a member: whether the caller's filter lets it through, its open
-- connections, and its latency for the target, 0 if none is known.
pub record Candidate : Type 0 where
  pub id : ℕ
  pub eligible : Bool
  pub active : ℕ
  pub latency : ℕ

unfoldable pub visit_from : ℕ → List Candidate → List Candidate
visit_from start cs = drop start cs ++ take start cs

-- `modeRandom`.
unfoldable pub first_eligible : List Candidate → Option Candidate
first_eligible [] = none
first_eligible (x ∷ xs) = if x.eligible then some x else first_eligible xs

unfoldable pub select_random : ℕ → List Candidate → Option Candidate
unfolding visit_from
select_random start cs = first_eligible (visit_from start cs)

-- The second eligible candidate, behind the first.
unfoldable pub less_loaded : Candidate → Option Candidate → Candidate
less_loaded first none = first
less_loaded first (some second) = if leb first.active second.active then first else second

unfoldable pub first_two : List Candidate → Option Candidate
first_two [] = none
first_two (x ∷ xs) = if x.eligible then some (less_loaded x (first_eligible xs)) else first_two xs

-- `selectBalancedCandidate`: two choices.
unfoldable pub select_balanced : ℕ → List Candidate → Option Candidate
select_balanced start cs = first_two (visit_from start cs)

-- `betterLatencyCandidateForTarget`, on two candidates that are there.
unfoldable pub better_latency : ℕ → Candidate → Candidate → Bool
better_latency tolerance a b =
    if a.latency == 0 && ltb 0 b.latency
    then false
    else if ltb 0 a.latency && b.latency == 0
    then true
    else if ltb 0 a.latency && ltb 0 b.latency && ltb (a.latency + tolerance) b.latency
    then true
    else if ltb 0 a.latency && ltb 0 b.latency && ltb (b.latency + tolerance) a.latency
    then false
    else if not (a.active == b.active)
    then ltb a.active b.active
    else ltb 0 a.latency && (b.latency == 0 || ltb a.latency b.latency)

abbrev pub or_better : ℕ → Candidate → Option Candidate → Candidate
or_better tolerance x none = x
or_better tolerance x (some best) = if better_latency tolerance x best then x else best

-- The loop of `selectLatencyCandidateForTarget`, by the samples left.
unfoldable pub sample : ℕ → ℕ → Option Candidate → List Candidate → Option Candidate
sample tolerance zero best xs = best
sample tolerance (suc n) best [] = best
sample tolerance (suc n) best (x ∷ xs) =
    let skipped = sample tolerance (suc n) best xs in
    let taken = sample tolerance n (some (or_better tolerance x best)) xs in
    if x.eligible then taken else skipped

unfoldable pub select_latency : ℕ → ℕ → ℕ → List Candidate → Option Candidate
select_latency tolerance sample_size start cs =
    sample tolerance (min (max 1 sample_size) (length cs)) none (visit_from start cs)

-- `maxAttempts` outside a pinned job; `dedicated` says that the listener serves one node.
unfoldable pub max_attempts : Bool → Bool → ℕ → ℕ → ℕ
max_attempts retry_enabled dedicated retry_attempts members =
    if not retry_enabled || leb members 1
    then 1
    else if dedicated
    then 1
    else min (max 1 retry_attempts) members
