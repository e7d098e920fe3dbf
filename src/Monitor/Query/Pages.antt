-- ===== src/Monitor/Query/Pages.antt =====
-- The pages of a listing hold each node once, and none is too long.
use proxyfleet.Base.{
  ℕ, zero, suc, ◌+◌, ◌-◌, ◌*◌, ◌/◌, ◌≤◌, ◌<◌, ◌≡◌, Bool, refl, sym, ap, ◌∙◌, List, [], ◌∷◌, ◌++◌,
  take, drop, length, min, length-drop, take_add, take-min, take_all, arith,
}
use native.Mathlib.Nat.{suc-mul, zero-mul, mul-le-mul_right, div-mul-le_self, lt-div-mul-add}
use proxyfleet.Monitor.Query.{Texts, Snapshot, NodeQuery, filtered, matches}
use proxyfleet.Monitor.Query.Listing.{pages_of, clamp, start_of, listed, comes_first, query_nodes}

suc_pred : (n : ℕ) → suc n - 1 ≡ n
suc_pred n = omega arith

pred_mul : (d s : ℕ) → 0 < d → (d - 1) * s + s ≡ d * s
pred_mul zero s h = absurd (omega arith)
pred_mul (suc n) s h = rw (suc_pred n) (sym (suc-mul n s))

pub positive_factor : (d s : ℕ) → 0 < d * s → 0 < d
positive_factor zero s h = absurd (omega (arith, zero-mul s))
positive_factor (suc n) s h = omega arith

last_begins : (total d s : ℕ) → 0 < total → total ≤ d * s → d * s < total + s → (d - 1) * s < total
last_begins total zero s p high low = absurd (omega (arith, zero-mul s))
last_begins total (suc n) s p high low = omega (arith, pred_mul (suc n) s (omega arith))

-- The pages are enough for all items, and the last one begins inside.
pub pages_bound :
    (total s : ℕ)
    → 0 < s
    → (total ≤ pages_of total s * s) × (0 < total → (pages_of total s - 1) * s < total)
pages_bound total s h =
    let d = (total + s - 1) / s in
    let low = div-mul-le_self (total + s - 1) s in
    let high : total + s - 1 < d * s + s = lt-div-mul-add h in
    (
      ground (arith, low, high),
      λ p.
          let e : pages_of total s ≡ d = ground (arith, p) in
          rw e (last_begins total d s p (omega (arith, high, h)) (omega (arith, low, h))),
    )

clamp_in : (pages n : ℕ) → n < pages → clamp pages (suc n) ≡ suc n
clamp_in pages n h = ground arith

pub start_in : (total s n : ℕ) → n * s ≤ total → start_of total s (suc n) ≡ n * s
start_in total s n h = rw (suc_pred n) (ground arith)

pub begins_inside : (total s n : ℕ) → 0 < s → n < pages_of total s → n * s < total
begins_inside total s n h l =
    let more : n ≤ pages_of total s - 1 = omega (arith, l) in
    let some_items : 0 < total = ground (arith, l) in
    omega (arith, (pages_bound total s h).1 some_items, mul-le-mul_right s more)

-- A page that is there starts behind the pages before it.
cut_page :
    {A : Type 0} (xs : List A) (s n : ℕ)
    → 0 < s
    → n < pages_of (length xs) s
    → (let start = start_of (length xs) s (clamp (pages_of (length xs) s) (suc n)) in
        take (min (length xs) (start + s) - start) (drop start xs) ≡ take s (drop (n * s) xs))
cut_page xs s n h l =
    let inside = begins_inside (length xs) s n h l in
    rw (clamp_in (pages_of (length xs) s) n l, start_in (length xs) s n (omega (arith, inside)))
      (ap (λ k. take k (drop (n * s) xs)) (omega (arith, inside, length-drop (n * s) xs))
        ∙ take-min s (drop (n * s) xs))

module _ {F : Type 0} (less_float : F → F → Bool) (t : Texts) where
  -- The page numbered `n`, and the first `n` pages one after the other.
  abbrev pub page_at : List (Snapshot F) → NodeQuery → ℕ → List (Snapshot F)
  page_at nodes q n = (query_nodes less_float t nodes (record q { page = n })).0

  abbrev pub first_pages : List (Snapshot F) → NodeQuery → ℕ → List (Snapshot F)
  first_pages nodes q zero = []
  first_pages nodes q (suc n) = first_pages nodes q n ++ page_at nodes q (suc n)

  abbrev pub page_count : List (Snapshot F) → NodeQuery → ℕ
  page_count nodes q = (query_nodes less_float t nodes q).1.total_pages

  filtered_page :
      (nodes : List (Snapshot F)) (q : NodeQuery) (n : ℕ)
      → filtered t (record q { page = n }) nodes ≡ filtered t q nodes
  unfolding filtered matches
  filtered_page [] q n = refl
  filtered_page (x ∷ nodes) q n = rw (filtered_page nodes q n) refl

  listed_page :
      (nodes : List (Snapshot F)) (q : NodeQuery) (n : ℕ)
      → listed less_float t (record q { page = n }) nodes ≡ listed less_float t q nodes
  unfolding listed comes_first
  listed_page nodes q n = rw (filtered_page nodes q n) refl

  page_at_lem :
      (nodes : List (Snapshot F)) (q : NodeQuery) (n : ℕ)
      → 0 < q.page_size
      → n < page_count nodes q
      → page_at nodes q (suc n)
        ≡ take q.page_size (drop (n * q.page_size) (listed less_float t q nodes))
  unfolding query_nodes
  page_at_lem nodes q n h l =
      rw (listed_page nodes q (suc n)) (cut_page (listed less_float t q nodes) q.page_size n h l)

  first_pages-take :
      (nodes : List (Snapshot F)) (q : NodeQuery) (n : ℕ)
      → 0 < q.page_size
      → n ≤ page_count nodes q
      → first_pages nodes q n ≡ take (n * q.page_size) (listed less_float t q nodes)
  first_pages-take nodes q zero h l = rw (zero-mul q.page_size) refl
  first_pages-take nodes q (suc n) h l =
      let found = listed less_float t q nodes in
      rw
        (
          first_pages-take nodes q n h (omega (arith, l)),
          page_at_lem nodes q n h (omega (arith, l)),
          suc-mul n q.page_size,
        )
        (sym (take_add (n * q.page_size) q.page_size found))

  -- The pages of a listing, one after the other, are the whole listing: each node that the filters let
  -- through is on exactly one page, in the order asked for, for every query with a page size
  -- above 0.
  pub first_pages-listed :
      (nodes : List (Snapshot F)) (q : NodeQuery)
      → 0 < q.page_size
      → first_pages nodes q (page_count nodes q) ≡ listed less_float t q nodes
  unfolding query_nodes
  first_pages-listed nodes q h =
      let found = listed less_float t q nodes in
      first_pages-take nodes q (page_count nodes q) h (omega arith)
      ∙ take_all (page_count nodes q * q.page_size) found
          (pages_bound (length found) q.page_size h).0
