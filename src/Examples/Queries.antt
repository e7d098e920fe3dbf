-- ===== src/Examples/Queries.antt =====
-- The list of nodes at a concrete request.
use proxyfleet.Base.{
  ℕ, ◌≡◌, ◌≤◌, Bool, true, false, refl, Option, none, some, List, [], ◌∷◌, Bytes, ℤ, pos, negsuc,
  ltb, ◌-◌, arith, codes,
}
use proxyfleet.Monitor.Query.{Texts, Snapshot, NodeQuery, any_status, any_activity, by_latency}
use proxyfleet.Monitor.Query.Request.{
  Values, query, parse_node_query, page_of, page_size_of, status_of, activity_of, sort_of, order_of,
}
use proxyfleet.Monitor.Query.Listing.{listed, query_nodes}
use proxyfleet.Monitor.Query.Pages.{first_pages, page_count, first_pages-listed}
use proxyfleet.Monitor.Query.Bounds.{Paged, query_nodes-Paged}
use proxyfleet.Monitor.Query.Summary.{Counted, summarize_nodes, summarize_nodes-Counted}

-- Texts without capitals and blanks, and numbers of one digit.
abbrev digit : Bytes → Option ℤ
digit [] = none
digit (c ∷ []) = some (pos (c - 48))
digit (_ ∷ _ ∷ _) = none

abbrev plain : Texts
plain = record {
  to_lower = λ s. s;
  trim_space = λ s. s;
  contains = λ s t. true;
  atoi = digit;
  itoa = λ n. [];
  display_region = λ name tag country region. region;
}

abbrev node : Bytes → ℤ → Bool → Snapshot ℕ
node name latency available = record {
  name = name;
  tag = name;
  region = codes "hk";
  country = [];
  port = 1080;
  initial_check_done = true;
  available = available;
  blacklisted = false;
  cooling_down = false;
  active_connections = pos 1;
  failure_count = 0;
  quality_score = 5;
  last_latency_ms = latency;
}

abbrev three_nodes : List (Snapshot ℕ)
three_nodes =
    node (codes "c") (pos 30) true
    ∷ node (codes "a") (negsuc 0) false
    ∷ node (codes "b") (pos 20) true
    ∷ []

abbrev second_page : Values
second_page = (codes "page", codes "2") ∷ (codes "page_size", codes "2") ∷ []

abbrev second_query : NodeQuery
second_query = record {
  page = 2;
  page_size = 2;
  search = [];
  region = codes "all";
  status = any_status;
  activity = any_activity;
  sort = by_latency;
  descending = false;
}

first_pages-listed_example :
    first_pages ltb plain three_nodes second_query (page_count ltb plain three_nodes second_query)
    ≡ listed ltb plain second_query three_nodes
first_pages-listed_example = first_pages-listed ltb plain three_nodes second_query (omega arith)

parsed_second : parse_node_query plain second_page ≡ query second_query
unfolding parse_node_query page_of page_size_of status_of activity_of sort_of order_of
    proxyfleet.Base.lookup proxyfleet.Base.bytes_discrete
parsed_second = refl

query_nodes-Paged_example :
    (2 ≤ 500)
    × Paged 2
        (query_nodes ltb plain three_nodes second_query).0
        (query_nodes ltb plain three_nodes second_query).1
query_nodes-Paged_example =
    query_nodes-Paged ltb plain second_page three_nodes second_query parsed_second

summarize_nodes-Counted_example : Counted three_nodes (summarize_nodes three_nodes)
summarize_nodes-Counted_example = summarize_nodes-Counted three_nodes
