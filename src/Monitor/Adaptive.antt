-- ===== src/Monitor/Adaptive.antt =====
-- internal/monitor/adaptive.go, `selectAdaptiveEntries`: which nodes are due for a probe, in which
-- order, and which of them a batch takes.
pub mod Batch
use proxyfleet.Base.{
  ℕ, zero, suc, ◌+◌, ◌-◌, ◌*◌, ◌&&◌, ◌||◌, Bool, true, false, not, Option, none, some, List, [],
  ◌∷◌, Bytes, length, keep, ltb, leb, ◌==◌, if◌then◌else◌, min, ℤ, pos, positive_or,
}
use proxyfleet.Monitor.Backoff.{hour, minute, adaptive_failure_interval}
use proxyfleet.Monitor.Picks.{Groups, pick}
use proxyfleet.Monitor.Budget.{Floats, Limits, Budget, reserve_probe_budget}

-- What is read of an entry under its lock.
pub record Reading : Type 0 where
  pub id : ℕ
  pub tag : Bytes
  pub probe_available : Bool
  pub initial_check_done : Bool
  pub available : Bool
  pub last_probe_at : ℕ
  pub last_passive_success : ℕ
  pub last_failure : ℕ
  pub failures : ℕ

pub record Intervals : Type 0 where
  pub healthy_interval : ℤ
  pub failure_retry_interval : ℤ
  pub failure_max_interval : ℕ
  pub passive_grace : ℤ

pub record Candidate : Type 0 where
  pub entry : ℕ
  pub priority : ℕ
  pub last : ℕ
  pub tag : Bytes

-- `d >= interval` for the signed difference `now - last`, and an interval that is positive.
abbrev pub has_passed : ℕ → ℕ → ℕ → Bool
has_passed now last interval = leb (last + interval) now

-- Traffic vouches for the node.
unfoldable pub is_vouched : Intervals → ℕ → Reading → Bool
is_vouched cfg now r =
    r.initial_check_done
    && r.available
    && ltb r.last_failure r.last_passive_success
    && leb r.last_passive_success now
    && ltb (now - r.last_passive_success) (positive_or cfg.passive_grace (10 * minute))

unfoldable pub priority_of : Reading → ℕ
priority_of r =
    if not r.initial_check_done || r.last_probe_at == 0
    then 0
    else if ltb 0 r.failures || not r.available
    then 1
    else 2

unfoldable pub is_due : Intervals → ℕ → Reading → Bool
unfolding priority_of
is_due cfg now r =
    let retry =
      adaptive_failure_interval cfg.failure_retry_interval cfg.failure_max_interval r.failures in
    let healthy = positive_or cfg.healthy_interval (30 * minute) in
    if not r.initial_check_done || r.last_probe_at == 0
    then true
    else if ltb 0 r.failures || not r.available
    then has_passed now r.last_probe_at retry
    else has_passed now r.last_probe_at healthy

unfoldable pub is_candidate : Intervals → ℕ → Reading → Bool
is_candidate cfg now r = r.probe_available && not (is_vouched cfg now r) && is_due cfg now r

unfoldable pub candidates_of : Intervals → ℕ → List Reading → List Candidate
candidates_of cfg now [] = []
candidates_of cfg now (r ∷ rs) =
    let rest = candidates_of cfg now rs in
    if is_candidate cfg now r
    then record { entry = r.id; priority = priority_of r; last = r.last_probe_at; tag = r.tag }
      ∷ rest
    else rest

-- `a < b` on Go strings.
unfoldable pub bytes_less : Bytes → Bytes → Bool
bytes_less a [] = false
bytes_less [] (y ∷ ys) = true
bytes_less (x ∷ xs) (y ∷ ys) = let rest = bytes_less xs ys in ltb x y || x == y && rest

unfoldable pub comes_before : Candidate → Candidate → Bool
comes_before a b =
    if not (a.priority == b.priority)
    then ltb a.priority b.priority
    else if a.last == b.last
    then bytes_less a.tag b.tag
    else ltb a.last b.last

-- A stable sort.
unfoldable pub insert_sorted : Candidate → List Candidate → List Candidate
insert_sorted a [] = a ∷ []
insert_sorted a (b ∷ bs) =
    let rest = insert_sorted a bs in if comes_before b a then b ∷ rest else a ∷ b ∷ bs

unfoldable pub sort_candidates : List Candidate → List Candidate
sort_candidates [] = []
sort_candidates (a ∷ rest) = insert_sorted a (sort_candidates rest)

abbrev pub with_priority : ℕ → List Candidate → List ℕ
with_priority p [] = []
with_priority p (c ∷ cs) =
    let rest = with_priority p cs in if c.priority == p then c.entry ∷ rest else rest

unfoldable pub groups_of : List Candidate → Groups ℕ
groups_of cs = record {
  fresh_ones = with_priority 0 cs;
  recovering_ones = with_priority 1 cs;
  healthy_ones = with_priority 2 cs;
}

pub record Prober (F : Type 0) : Type 0 where
  pub budget : Budget F
  pub cursor : ℕ

abbrev pub after_picking :
    {F : Type 0} → Budget F → ℕ → Option (List ℕ × ℕ) → Option (List ℕ) × Prober F
after_picking budget cursor none = (none, record { budget = budget; cursor = cursor })
after_picking budget cursor (some (selected, cursor')) =
    (some selected, record { budget = budget; cursor = cursor' })

-- The entries to probe now, `none` if the picking had not ended by its last round; `limit` 0 or less
-- stands for all entries.
unfoldable pub select_adaptive_entries :
    {F : Type 0}
    → Floats F
    → Limits
    → Intervals
    → ℤ
    → ℕ
    → ℕ
    → List Reading
    → Prober F
    → Option (List ℕ) × Prober F
select_adaptive_entries f caps cfg limit now day entries p =
    let sorted = sort_candidates (candidates_of cfg now entries) in
    let wanted = min (length sorted) (positive_or limit (length entries)) in
    let (allowed, budget) = reserve_probe_budget f caps wanted now day p.budget in
    after_picking budget p.cursor (pick (4 * allowed) allowed p.cursor (groups_of sorted))
