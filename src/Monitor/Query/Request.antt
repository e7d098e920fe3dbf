-- ===== src/Monitor/Query/Request.antt =====
-- internal/monitor/query.go, `parseNodeQuery`: what a request for the list of nodes asks for. The
-- value that a rejected request returns beside its error is not read.
use proxyfleet.Base.{
  ℕ, zero, suc, Bool, true, false, ltb, if◌then◌else◌, Option, none, some, List, [], length, Bytes,
  bytes_eq, is_nil, codes, ℤ, pos, negsuc, lookup, bytes_key,
}
use proxyfleet.Monitor.Query.{
  Texts, StatusFilter, any_status, healthy, unavailable, blacklisted_ones, cooling, unknown,
  ActivityFilter, any_activity, active, idle, SortKey, by_status, by_region, by_name, by_port,
  by_latency, by_connections, by_failures, by_score, NodeQuery,
}

abbrev pub maximum_node_page_size : ℕ
maximum_node_page_size = 500

unfoldable pub status_of : Bytes → Option StatusFilter
status_of s =
    if bytes_eq s (codes "all")
    then some any_status
    else if bytes_eq s (codes "healthy")
    then some healthy
    else if bytes_eq s (codes "unavailable")
    then some unavailable
    else if bytes_eq s (codes "blacklisted")
    then some blacklisted_ones
    else if bytes_eq s (codes "cooling")
    then some cooling
    else if bytes_eq s (codes "unknown")
    then some unknown
    else none

unfoldable pub activity_of : Bytes → Option ActivityFilter
activity_of s =
    if bytes_eq s (codes "all")
    then some any_activity
    else if bytes_eq s (codes "active")
    then some active
    else if bytes_eq s (codes "idle")
    then some idle
    else none

unfoldable pub sort_of : Bytes → Option SortKey
sort_of s =
    if bytes_eq s (codes "status")
    then some by_status
    else if bytes_eq s (codes "region")
    then some by_region
    else if bytes_eq s (codes "name")
    then some by_name
    else if bytes_eq s (codes "port")
    then some by_port
    else if bytes_eq s (codes "latency")
    then some by_latency
    else if bytes_eq s (codes "connections")
    then some by_connections
    else if bytes_eq s (codes "failures")
    then some by_failures
    else if bytes_eq s (codes "score")
    then some by_score
    else none

unfoldable pub order_of : Bytes → Option Bool
order_of s =
    if bytes_eq s (codes "asc")
    then some false
    else if bytes_eq s (codes "desc")
    then some true
    else none

-- `url.Values`, as far as `Get` and `Has` read them: the first value of a key.
abbrev pub Values : Type 0
Values = List (Bytes × Bytes)

abbrev or_empty : Option Bytes → Bytes
or_empty none = []
or_empty (some s) = s

abbrev pub value_of : Texts → Bytes → Values → Bytes
value_of t key values = t.trim_space (or_empty (lookup key values))

-- A number of at least 1.
abbrev pub positive_number : Option ℤ → Option ℕ
positive_number none = none
positive_number (some (pos zero)) = none
positive_number (some (pos (suc n))) = some (suc n)
positive_number (some (negsuc _)) = none

unfoldable pub page_of : Texts → Values → Option ℕ
page_of t values =
    let value = value_of t (codes "page") values in
    if is_nil value then some 1 else positive_number (t.atoi value)

abbrev pub up_to_maximum : Option ℕ → Option ℕ
up_to_maximum none = none
up_to_maximum (some n) = if ltb maximum_node_page_size n then none else some n

unfoldable pub page_size_of : Texts → Values → Option ℕ
page_size_of t values =
    let value = value_of t (codes "page_size") values in
    if is_nil value then some 50 else up_to_maximum (positive_number (t.atoi value))

-- A lowered value, or the default for an empty one.
abbrev pub lowered : Texts → Bytes → Bytes → Values → Bytes
lowered t key default values =
    let value = t.to_lower (value_of t key values) in if is_nil value then default else value

pub data QueryError : Type 0 where
  bad_page : QueryError
  bad_page_size : QueryError
  long_search : QueryError
  bad_status : QueryError
  bad_activity : QueryError
  bad_sort : QueryError
  bad_order : QueryError

pub data Parsed : Type 0 where
  query : NodeQuery → Parsed
  rejected : QueryError → Parsed

abbrev pub with_order : NodeQuery → Option Bool → Parsed
with_order q none = rejected bad_order
with_order q (some descending) = query (record q { descending = descending })

abbrev pub with_sort : Texts → Values → NodeQuery → Option SortKey → Parsed
with_sort t values q none = rejected bad_sort
with_sort t values q (some sort) =
    with_order (record q { sort = sort })
      (order_of (lowered t (codes "order") (codes "asc") values))

abbrev pub with_activity : Texts → Values → NodeQuery → Option ActivityFilter → Parsed
with_activity t values q none = rejected bad_activity
with_activity t values q (some activity) =
    with_sort t values (record q { activity = activity })
      (sort_of (lowered t (codes "sort") (codes "latency") values))

abbrev pub with_status : Texts → Values → NodeQuery → Option StatusFilter → Parsed
with_status t values q none = rejected bad_status
with_status t values q (some status) =
    with_activity t values (record q { status = status })
      (activity_of (lowered t (codes "activity") (codes "all") values))

abbrev pub default_query : NodeQuery
default_query = record {
  page = 1;
  page_size = 50;
  search = [];
  region = codes "all";
  status = any_status;
  activity = any_activity;
  sort = by_latency;
  descending = false;
}

abbrev pub with_search : Texts → Values → NodeQuery → Parsed
with_search t values q =
    let search = t.to_lower (value_of t (codes "search") values) in
    if ltb 256 (length search)
    then rejected long_search
    else with_status t values
        (record q { search = search; region = lowered t (codes "region") (codes "all") values })
        (status_of (lowered t (codes "status") (codes "all") values))

abbrev pub with_page_size : Texts → Values → NodeQuery → Option ℕ → Parsed
with_page_size t values q none = rejected bad_page_size
with_page_size t values q (some size) = with_search t values (record q { page_size = size })

abbrev pub with_page : Texts → Values → NodeQuery → Option ℕ → Parsed
with_page t values q none = rejected bad_page
with_page t values q (some page) =
    with_page_size t values (record q { page = page }) (page_size_of t values)

unfoldable pub parse_node_query : Texts → Values → Parsed
parse_node_query t values = with_page t values default_query (page_of t values)
