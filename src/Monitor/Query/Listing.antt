-- ===== src/Monitor/Query/Listing.antt =====
-- internal/monitor/query.go, `queryNodes` behind its filter: the order of the nodes, and the page that
-- is cut out. The page size is not 0, as `parseNodeQuery` makes sure.
use proxyfleet.Base.{
  ℕ, ◌+◌, ◌-◌, ◌*◌, ◌/◌, ◌^◌, Bool, true, false, ◌||◌, ◌==◌, ltb, if◌then◌else◌, List, take, drop,
  length, ℤ, pos, negsuc, min, sort_by,
}
use proxyfleet.Monitor.Adaptive.{bytes_less}
use proxyfleet.Monitor.Query.{
  Texts, Snapshot, SortKey, by_status, by_region, by_name, by_port, by_latency, by_connections,
  by_failures, by_score, NodeQuery, node_status_rank, display_region, filtered,
}

-- The sign of a comparison.
pub data Compared : Type 0 where
  below : Compared
  level : Compared
  above : Compared

-- `compareInt64`, `compareFloat` and `strings.Compare`, by the order that they compare with.
unfoldable pub compare_by {ℓ} : {A : Type ℓ} → (A → A → Bool) → A → A → Compared
compare_by less a b = if less a b then below else if less b a then above else level

abbrev pub less_ℤ : ℤ → ℤ → Bool
less_ℤ (pos a) (pos b) = ltb a b
less_ℤ (pos a) (negsuc b) = false
less_ℤ (negsuc a) (pos b) = true
less_ℤ (negsuc a) (negsuc b) = ltb b a

-- An unknown latency counts as the greatest `int64`.
abbrev pub shown_latency : ℤ → ℕ
shown_latency (pos n) = n
shown_latency (negsuc _) = 2 ^ 63 - 1

abbrev pub or_then : Compared → Compared → Compared
or_then level c = c
or_then c _ = c

abbrev pub is_below : Compared → Bool
is_below below = true
is_below _ = false

abbrev pub is_above : Compared → Bool
is_above above = true
is_above _ = false

pub record NodePagination : Type 0 where
  pub page : ℕ
  pub page_size : ℕ
  pub total_items : ℕ
  pub total_pages : ℕ

abbrev pub pages_of : ℕ → ℕ → ℕ
pages_of total size = if ltb 0 total then (total + size - 1) / size else 0

abbrev pub clamp : ℕ → ℕ → ℕ
clamp pages page = if pages == 0 then 1 else if ltb pages page then pages else page

abbrev pub start_of : ℕ → ℕ → ℕ → ℕ
start_of total size page =
    if page == 0 || ltb total ((page - 1) * size) then total else (page - 1) * size

module _ {F : Type 0} (less_float : F → F → Bool) (t : Texts) where
  unfoldable pub compare_snapshots : Snapshot F → Snapshot F → SortKey → Compared
  compare_snapshots a b by_status = compare_by ltb (node_status_rank a) (node_status_rank b)
  compare_snapshots a b by_region = compare_by bytes_less (display_region t a) (display_region t b)
  compare_snapshots a b by_name = compare_by bytes_less (t.to_lower a.name) (t.to_lower b.name)
  compare_snapshots a b by_port = compare_by ltb a.port b.port
  compare_snapshots a b by_connections = compare_by less_ℤ a.active_connections b.active_connections
  compare_snapshots a b by_failures = compare_by ltb a.failure_count b.failure_count
  compare_snapshots a b by_score = compare_by less_float a.quality_score b.quality_score
  compare_snapshots a b by_latency =
      compare_by ltb (shown_latency a.last_latency_ms) (shown_latency b.last_latency_ms)

  unfoldable pub comes_first : NodeQuery → Snapshot F → Snapshot F → Bool
  comes_first q a b =
      let c =
        or_then (compare_snapshots a b q.sort)
          (compare_by bytes_less (t.to_lower a.name) (t.to_lower b.name)) in
      if q.descending then is_above c else is_below c

  unfoldable pub listed : NodeQuery → List (Snapshot F) → List (Snapshot F)
  listed q nodes = sort_by (comes_first q) (filtered t q nodes)

  unfoldable pub query_nodes : List (Snapshot F) → NodeQuery → List (Snapshot F) × NodePagination
  query_nodes nodes q =
      let found = listed q nodes in
      let total = length found in
      let pages = pages_of total q.page_size in
      let page = clamp pages q.page in
      let start = start_of total q.page_size page in
      (
        take (min total (start + q.page_size) - start) (drop start found),
        record { page = page; page_size = q.page_size; total_items = total; total_pages = pages },
      )
