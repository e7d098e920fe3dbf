-- ===== src/Monitor/Query.antt =====
-- internal/monitor/query.go: the filters, the order and the pages of the list of nodes, and their
-- summary. Go's text functions are parameters, as are floating-point scores and their order.
pub mod Request
pub mod Listing
pub mod Pages
pub mod Bounds
pub mod Summary
use proxyfleet.Base.{
  ℕ, zero, suc, ◌+◌, ◌-◌, ◌*◌, ◌/◌, ◌^◌, Bool, true, false, not, ◌&&◌, ◌||◌, ◌==◌, ltb, leb,
  if◌then◌else◌, Option, none, some, List, [], ◌∷◌, ◌++◌, take, drop, length, keep, Bytes, bytes_eq,
  is_nil, codes, ℤ, pos, negsuc, lookup, min, max, sort_by, bytes_key, or_else,
}
use proxyfleet.Monitor.Adaptive.{bytes_less}

-- `strings.ToLower`, `strings.TrimSpace`, `strings.Contains` (of the second in the first),
-- `strconv.Atoi` and `strconv.Itoa`, and `displayRegion` by name, tag, country and region.
pub record Texts : Type 0 where
  pub to_lower : Bytes → Bytes
  pub trim_space : Bytes → Bytes
  pub contains : Bytes → Bytes → Bool
  pub atoi : Bytes → Option ℤ
  pub itoa : ℕ → Bytes
  pub display_region : Bytes → Bytes → Bytes → Bytes → Bytes

-- What the queries read of a node's snapshot; `F` stands for `float64`.
pub record Snapshot (F : Type 0) : Type 0 where
  pub name : Bytes
  pub tag : Bytes
  pub region : Bytes
  pub country : Bytes
  pub port : ℕ
  pub initial_check_done : Bool
  pub available : Bool
  pub blacklisted : Bool
  pub cooling_down : Bool
  pub active_connections : ℤ
  pub failure_count : ℕ
  pub quality_score : F
  pub last_latency_ms : ℤ

-- The texts that `Status`, `Activity` and `Sort` may hold.
pub data StatusFilter : Type 0 where
  any_status : StatusFilter
  healthy : StatusFilter
  unavailable : StatusFilter
  blacklisted_ones : StatusFilter
  cooling : StatusFilter
  unknown : StatusFilter

pub data ActivityFilter : Type 0 where
  any_activity : ActivityFilter
  active : ActivityFilter
  idle : ActivityFilter

pub data SortKey : Type 0 where
  by_status : SortKey
  by_region : SortKey
  by_name : SortKey
  by_port : SortKey
  by_latency : SortKey
  by_connections : SortKey
  by_failures : SortKey
  by_score : SortKey

pub record NodeQuery : Type 0 where
  pub page : ℕ
  pub page_size : ℕ
  pub search : Bytes
  pub region : Bytes
  pub status : StatusFilter
  pub activity : ActivityFilter
  pub sort : SortKey
  pub descending : Bool

abbrev pub is_above_zero : ℤ → Bool
is_above_zero (pos n) = ltb 0 n
is_above_zero (negsuc _) = false

module _ {F : Type 0} where
  unfoldable pub node_matches_status : Snapshot F → StatusFilter → Bool
  node_matches_status s any_status = true
  node_matches_status s healthy =
      s.initial_check_done && s.available && not s.blacklisted && not s.cooling_down
  node_matches_status s unavailable =
      s.blacklisted || s.cooling_down || s.initial_check_done && not s.available
  node_matches_status s blacklisted_ones = s.blacklisted
  node_matches_status s cooling = s.cooling_down
  node_matches_status s unknown =
      not s.initial_check_done && not s.blacklisted && not s.cooling_down

  unfoldable pub node_matches_activity : Snapshot F → ActivityFilter → Bool
  node_matches_activity s any_activity = true
  node_matches_activity s active = is_above_zero s.active_connections
  node_matches_activity s idle = not (is_above_zero s.active_connections)

  unfoldable pub node_status_rank : Snapshot F → ℕ
  node_status_rank s =
      if s.blacklisted
      then 4
      else if s.cooling_down
      then 3
      else if not s.initial_check_done
      then 2
      else if not s.available
      then 1
      else 0

  abbrev pub display_region : Texts → Snapshot F → Bytes
  display_region t s = t.to_lower (t.display_region s.name s.tag s.country s.region)

  -- `strings.Join` with blanks, lowered.
  abbrev haystack : Texts → Bytes → Snapshot F → Bytes
  haystack t region s =
      t.to_lower
        (s.name ++ (32 ∷ s.tag ++ (32 ∷ region ++ (32 ∷ s.country ++ (32 ∷ t.itoa s.port)))))

  unfoldable pub matches : Texts → NodeQuery → Snapshot F → Bool
  matches t q s =
      let region = display_region t s in
      (bytes_eq q.region (codes "all") || bytes_eq region q.region)
      && node_matches_status s q.status
      && node_matches_activity s q.activity
      && (is_nil q.search || t.contains (haystack t region s) q.search)

  -- The loop over the snapshots, which also sets the region that is shown.
  unfoldable pub filtered : Texts → NodeQuery → List (Snapshot F) → List (Snapshot F)
  filtered t q [] = []
  filtered t q (s ∷ ss) =
      let rest = filtered t q ss in
      if matches t q s then record s { region = display_region t s } ∷ rest else rest
