-- ===== src/Monitor/Query/Bounds.antt =====
-- What an accepted request asks for, and what it gets, is bounded.
use proxyfleet.Base.{
  ℕ, zero, suc, ◌+◌, ◌-◌, ◌*◌, ◌≤◌, ◌<◌, ◌≡◌, Bool, Option, none, some, List, take, drop, length,
  length-take, length-drop, min, max, ltb, is_nil, if_cases, ℤ, pos, negsuc, arith, codes, subst,
}
use proxyfleet.Monitor.Query.{Texts, Snapshot, NodeQuery, StatusFilter, ActivityFilter, SortKey}
use proxyfleet.Monitor.Query.Request.{
  Values, value_of, lowered, default_query, Parsed, query, rejected, positive_number, up_to_maximum,
  page_of, page_size_of, with_order, with_sort, with_activity, with_status, with_search,
  with_page_size, with_page, parse_node_query,
}
use proxyfleet.Monitor.Query.Listing.{
  NodePagination, pages_of, clamp, start_of, listed, query_nodes,
}
use proxyfleet.Monitor.Query.Pages.{begins_inside, pages_bound, positive_factor, start_in}

pub record ValidQuery (q : NodeQuery) : Type 0 where
  pub page : 1 ≤ q.page
  pub some_size : 1 ≤ q.page_size
  pub size : q.page_size ≤ 500
  pub search : length q.search ≤ 256

abbrev IfQuery : Parsed → Type 0
IfQuery (query q) = ValidQuery q
IfQuery (rejected _) = Unit {0}

module _ (t : Texts) (values : Values) where
  with_order-Valid : (q : NodeQuery) (o : Option Bool) → ValidQuery q → IfQuery (with_order q o)
  with_order-Valid q none v = tt
  with_order-Valid q (some d) v = record {
    page = v.page;
    some_size = v.some_size;
    size = v.size;
    search = v.search;
  }

  with_sort-Valid :
      (q : NodeQuery) (o : Option SortKey) → ValidQuery q → IfQuery (with_sort t values q o)
  with_sort-Valid q none v = tt
  with_sort-Valid q (some k) v =
      with_order-Valid (record q { sort = k }) _
        (record { page = v.page; some_size = v.some_size; size = v.size; search = v.search })

  with_activity-Valid :
      (q : NodeQuery) (o : Option ActivityFilter)
      → ValidQuery q
      → IfQuery (with_activity t values q o)
  with_activity-Valid q none v = tt
  with_activity-Valid q (some k) v =
      with_sort-Valid (record q { activity = k }) _
        (record { page = v.page; some_size = v.some_size; size = v.size; search = v.search })

  with_status-Valid :
      (q : NodeQuery) (o : Option StatusFilter) → ValidQuery q → IfQuery (with_status t values q o)
  with_status-Valid q none v = tt
  with_status-Valid q (some k) v =
      with_activity-Valid (record q { status = k }) _
        (record { page = v.page; some_size = v.some_size; size = v.size; search = v.search })

  with_search-Valid :
      (q : NodeQuery)
      → 1 ≤ q.page
      → 1 ≤ q.page_size
      → q.page_size ≤ 500
      → IfQuery (with_search t values q)
  with_search-Valid q page some_size size =
      if_cases IfQuery (ltb 256 (length (t.to_lower (value_of t (codes "search") values))))
        (λ _. tt)
        (λ short.
          with_status-Valid
            (record q {
              search = t.to_lower (value_of t (codes "search") values);
              region = lowered t (codes "region") (codes "all") values;
            })
            _
            (record {
              page = page;
              some_size = some_size;
              size = size;
              search = ground (arith, short);
            }))

  abbrev IsPageSize : Option ℕ → Type 0
  IsPageSize none = Unit
  IsPageSize (some n) = (1 ≤ n) × (n ≤ 500)

  abbrev IsPage : Option ℕ → Type 0
  IsPage none = Unit
  IsPage (some n) = 1 ≤ n

  positive_number-IsPage : (o : Option ℤ) → IsPage (positive_number o)
  positive_number-IsPage none = tt
  positive_number-IsPage (some (pos zero)) = tt
  positive_number-IsPage (some (pos (suc n))) = omega arith
  positive_number-IsPage (some (negsuc n)) = tt

  up_to_maximum-IsPageSize : (o : Option ℕ) → IsPage o → IsPageSize (up_to_maximum o)
  up_to_maximum-IsPageSize none h = tt
  up_to_maximum-IsPageSize (some n) h =
      if_cases IsPageSize (ltb 500 n) (λ _. tt) (λ e. (h, ground (arith, e)))

  page_of-IsPage : IsPage (page_of t values)
  unfolding page_of
  page_of-IsPage =
      if_cases IsPage (is_nil (value_of t (codes "page") values)) (λ _. omega arith)
        (λ _. positive_number-IsPage (t.atoi (value_of t (codes "page") values)))

  page_size_of-IsPageSize : IsPageSize (page_size_of t values)
  unfolding page_size_of
  page_size_of-IsPageSize =
      if_cases IsPageSize (is_nil (value_of t (codes "page_size") values))
        (λ _. (omega arith, omega arith))
        (λ _.
          up_to_maximum-IsPageSize
            (positive_number (t.atoi (value_of t (codes "page_size") values)))
            (positive_number-IsPage (t.atoi (value_of t (codes "page_size") values))))

  with_page_size-Valid :
      (q : NodeQuery) (o : Option ℕ)
      → 1 ≤ q.page
      → IsPageSize o
      → IfQuery (with_page_size t values q o)
  with_page_size-Valid q none p h = tt
  with_page_size-Valid q (some n) p h = with_search-Valid (record q { page_size = n }) p h.0 h.1

  with_page-Valid : (q : NodeQuery) (o : Option ℕ) → IsPage o → IfQuery (with_page t values q o)
  with_page-Valid q none h = tt
  with_page-Valid q (some n) h =
      with_page_size-Valid (record q { page = n }) _ h page_size_of-IsPageSize

  -- A request that is accepted asks for a page numbered from 1 on, of 1 to 500 nodes, and for a text of
  -- at most 256 bytes, whatever its values are.
  pub parse_node_query-Valid : (q : NodeQuery) → parse_node_query t values ≡ query q → ValidQuery q
  unfolding parse_node_query
  parse_node_query-Valid q e = subst IfQuery e (with_page-Valid default_query _ page_of-IsPage)

-- The page that is answered: as long as asked for at most, one that exists, and not empty if any
-- node was found.
pub record Paged {F : Type 0} (size : ℕ) (nodes : List (Snapshot F)) (p : NodePagination)
    : Type 0 where
  pub short : length nodes ≤ size
  pub inside : (1 ≤ p.page) × (p.page ≤ max 1 p.total_pages)
  pub filled : 0 < p.total_items → 0 < length nodes

clamp-suc :
    (pages page : ℕ) → 0 < pages → 1 ≤ page → (n : ℕ) × ((clamp pages page ≡ suc n) × (n < pages))
clamp-suc pages page some_pages p = (clamp pages page - 1, (ground arith, ground arith))

some_pages_of : (total s : ℕ) → 0 < s → 0 < total → 0 < pages_of total s
some_pages_of total s h p =
    positive_factor (pages_of total s) s (omega (arith, (pages_bound total s h).0))

cut_filled :
    {A : Type 0} (xs : List A) (s page : ℕ)
    → 0 < s
    → 1 ≤ page
    → 0 < length xs
    → (let start = start_of (length xs) s (clamp (pages_of (length xs) s) page) in
        0 < length (take (min (length xs) (start + s) - start) (drop start xs)))
cut_filled xs s page h p some_items =
    let pages = pages_of (length xs) s in
    let (n, (e, l)) = clamp-suc pages page (some_pages_of (length xs) s h some_items) p in
    let inside = begins_inside (length xs) s n h l in
    rw (e, start_in (length xs) s n (omega (arith, inside)))
      (omega (
        arith,
        inside,
        length-take (min (length xs) (n * s + s) - n * s) (drop (n * s) xs),
        length-drop (n * s) xs,
      ))

cut_short :
    {A : Type 0} (xs : List A) (s start : ℕ)
    → length (take (min (length xs) (start + s) - start) (drop start xs)) ≤ s
cut_short xs s start =
    omega (arith, length-take (min (length xs) (start + s) - start) (drop start xs))

-- What an accepted request is answered with is bounded: a page of at most 500 nodes, and no more than
-- asked for, with a number from 1 to the number of pages (or 1 if there are none), and not empty if
-- the filters let any node through, whatever page the request asks for.
pub query_nodes-Paged :
    {F : Type 0} (less_float : F → F → Bool) (t : Texts) (values : Values)
    (nodes : List (Snapshot F)) (q : NodeQuery)
    → parse_node_query t values ≡ query q
    → (q.page_size ≤ 500)
      × Paged q.page_size (query_nodes less_float t nodes q).0 (query_nodes less_float t nodes q).1
unfolding query_nodes
query_nodes-Paged less_float t values nodes q e =
    let v = parse_node_query-Valid t values q e in
    let found = listed less_float t q nodes in
    (
      v.size,
      record {
        short = cut_short found q.page_size _;
        inside = (ground (arith, v.page), ground arith);
        filled = cut_filled found q.page_size q.page v.some_size v.page;
      },
    )
