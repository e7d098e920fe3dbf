-- ===== src/Pool/Sticky/Laws.antt =====
-- The affinity cache is bounded, never doubles a client, forgets what has expired, and answers with
-- what was set last.
use proxyfleet.Base.{
  ℕ, zero, suc, ◌+◌, ◌-◌, ◌≤◌, ◌<◌, ◌≡◌, ◌≢◌, none, some, List, [], ◌∷◌, Bytes, bytes_key,
  bytes_discrete, lookup, delete, length, length-delete-le, Distinct, lookup-cons, lookup-delete,
  lookup-delete_self, lookup-nil, if_cases, if◌then◌else◌, ℤ, positive_or_pos, arith, Option-cases,
  inl, inr, ltb,
}
use proxyfleet.Pool.Sticky.{
  Binding, StickyCache, refresh, new_sticky_cache, get, set, remove, remove_back, evict,
}

-- No client has two bindings, and there are no more than allowed.
pub record IsValid (c : StickyCache) : Type 0 where
  pub distinct : Distinct c.items
  pub bounded : length c.items ≤ c.max_entries
  pub room : 0 < c.max_entries

lookup-delete-none :
    (j k : Bytes) (m : List (Bytes × Binding)) → lookup j m ≡ none → lookup j (delete k m) ≡ none
lookup-delete-none j k m h = ground (arith, lookup-delete k j m)

-- Deleting keeps keys distinct.
Distinct-delete : (k : Bytes) (m : List (Bytes × Binding)) → Distinct m → Distinct (delete k m)
unfolding delete bytes_discrete
Distinct-delete k [] d = tt
Distinct-delete k ((j, v) ∷ m) d =
    (elim (bytes_discrete j k)
      as (λ t. Distinct (elim t [ yes _ ↦ delete k m | no _ ↦ (j, v) ∷ delete k m ])) [
        | yes _ ↦ Distinct-delete k m d.1
        | no _ ↦ (lookup-delete-none j k m d.0, Distinct-delete k m d.1)
      ])

remove_back-none :
    (j : Bytes) (m : List (Bytes × Binding)) → lookup j m ≡ none → lookup j (remove_back m) ≡ none
unfolding remove_back
remove_back-none j [] h = h
remove_back-none j ((k, v) ∷ []) h = lookup-nil j
remove_back-none j ((k, v) ∷ e ∷ m) h = ground (
  arith,
  lookup-cons j k v (e ∷ m),
  lookup-cons j k v (remove_back (e ∷ m)),
  remove_back-none j (e ∷ m),
)

Distinct-remove_back : (m : List (Bytes × Binding)) → Distinct m → Distinct (remove_back m)
unfolding remove_back
Distinct-remove_back [] d = tt
Distinct-remove_back ((k, v) ∷ []) d = tt
Distinct-remove_back ((k, v) ∷ e ∷ m) d =
    (remove_back-none k (e ∷ m) d.0, Distinct-remove_back (e ∷ m) d.1)

length-remove_back : (m : List (Bytes × Binding)) → length (remove_back m) ≡ length m - 1
unfolding remove_back
length-remove_back [] = omega arith
length-remove_back (e ∷ []) = omega arith
length-remove_back (e ∷ e' ∷ m) = omega (arith, length-remove_back (e' ∷ m))

Distinct-evict :
    (n limit : ℕ) (m : List (Bytes × Binding)) → Distinct m → Distinct (evict n limit m)
unfolding evict
Distinct-evict zero limit m d = d
Distinct-evict (suc n) limit m d =
    if_cases Distinct (ltb limit (length m))
      (λ _. Distinct-evict n limit (remove_back m) (Distinct-remove_back m d)) (λ _. d)

-- The loop ends by its test.
length-evict :
    (n limit : ℕ) (m : List (Bytes × Binding))
    → length m ≤ limit + n
    → length (evict n limit m) ≤ limit
unfolding evict
length-evict zero limit m h = omega arith
length-evict (suc n) limit m h =
    ground (arith, length-evict n limit (remove_back m), length-remove_back m)

front : (k : Bytes) (b : Binding) (m : List (Bytes × Binding)) → lookup k ((k, b) ∷ m) ≡ some b
front k b m = ground (arith, lookup-cons k k b m)

length-delete_lt :
    (k : Bytes) (b : Binding) (m : List (Bytes × Binding))
    → lookup k m ≡ some b
    → length (delete k m) < length m
unfolding lookup delete
length-delete_lt k b [] h = ground arith
length-delete_lt k b ((j, w) ∷ m) h = ground (arith, length-delete_lt k b m, length-delete-le k m)

-- With room for one, the front survives.
evict-front :
    (n limit : ℕ) (k : Bytes) (b : Binding) (m : List (Bytes × Binding))
    → 0 < limit
    → lookup k (evict n limit ((k, b) ∷ m)) ≡ some b
unfolding evict remove_back
evict-front zero limit k b m h = front k b m
evict-front (suc n) limit k b [] h =
    if_cases (λ x. lookup k x ≡ some b) (ltb limit 1) (λ big. absurd (ground (arith, big)))
      (λ _. front k b [])
evict-front (suc n) limit k b (e ∷ m) h =
    if_cases (λ x. lookup k x ≡ some b) (ltb limit (length ((k, b) ∷ e ∷ m)))
      (λ _. evict-front n limit k b (remove_back (e ∷ m)) h) (λ _. front k b (e ∷ m))

pub data Call : Type 0 where
  gets : Bytes → ℕ → Call
  sets : Bytes → Bytes → ℕ → Call
  removes : Bytes → Call

pub step : StickyCache → Call → StickyCache
step c (gets key now) = (get key now c).1
step c (sets key tag now) = set key tag now c
step c (removes key) = remove key c

pub run : StickyCache → List Call → StickyCache
run c [] = c
run c (e ∷ es) = run (step c e) es

refresh-IsValid :
    (key tag : Bytes) (now : ℕ) (b : Binding) (c : StickyCache)
    → lookup key c.items ≡ some b
    → IsValid c
    → IsValid (refresh key tag now c)
refresh-IsValid key tag now b c found v = record {
  distinct = (lookup-delete_self key c.items, Distinct-delete key c.items v.distinct);
  bounded = omega (arith, length-delete_lt key b c.items found, v.bounded);
  room = v.room;
}

pub get-IsValid : (key : Bytes) (now : ℕ) (c : StickyCache) → IsValid c → IsValid (get key now c).1
unfolding get
get-IsValid key now c v = elim (Option-cases (lookup key c.items)) [
  | inl absent ↦ ground (arith, absent)
  | inr (b, found) ↦ ground (
    arith,
    found,
    refresh-IsValid key b.tag now b c found v,
    Distinct-delete key c.items v.distinct,
    length-delete-le key c.items,
  )
]

set-IsValid :
    (key tag : Bytes) (now : ℕ) (c : StickyCache) → IsValid c → IsValid (set key tag now c)
unfolding set
set-IsValid key tag now c v = elim (Option-cases (lookup key c.items)) [
  | inl absent ↦
      let b : Binding = record { tag = tag; expires_at = now + c.ttl } in
      ground (
        arith,
        absent,
        Distinct-evict (length c.items + 1) c.max_entries ((key, b) ∷ c.items) (absent, v.distinct),
        length-evict (length c.items + 1) c.max_entries ((key, b) ∷ c.items),
      )
  | inr (b, found) ↦ ground (arith, found, refresh-IsValid key tag now b c found v)
]

pub remove-IsValid : (key : Bytes) (c : StickyCache) → IsValid c → IsValid (remove key c)
unfolding remove
remove-IsValid key c v =
    ground (arith, Distinct-delete key c.items v.distinct, length-delete-le key c.items)

step-IsValid : (c : StickyCache) (e : Call) → IsValid c → IsValid (step c e)
unfolding step
step-IsValid c (gets key now) v = get-IsValid key now c v
step-IsValid c (sets key tag now) v = set-IsValid key tag now c v
step-IsValid c (removes key) v = remove-IsValid key c v

-- The affinity cache never outgrows its limit: from a valid cache, and a new one is valid whatever
-- its settings, any sequence of lookups, bindings and removals leaves at most the allowed number of
-- bindings and at most one for each client.
pub run-IsValid : (c : StickyCache) (es : List Call) → IsValid c → IsValid (run c es)
unfolding run
run-IsValid c [] v = v
run-IsValid c (e ∷ es) v = run-IsValid (step c e) es (step-IsValid c e v)

pub new-IsValid : (ttl max_entries : ℤ) → IsValid (new_sticky_cache ttl max_entries)
unfolding new_sticky_cache
new-IsValid ttl max_entries = record {
  distinct = tt;
  bounded = omega arith;
  room = positive_or_pos max_entries 4096 (omega arith);
}

set_stored :
    (key tag : Bytes) (now : ℕ) (c : StickyCache)
    → IsValid c
    → key ≢ []
    → tag ≢ []
    → lookup key (set key tag now c).items ≡ some (record { tag = tag; expires_at = now + c.ttl })
unfolding set bytes_discrete
set_stored key tag now c v k t = elim (Option-cases (lookup key c.items)) [
  | inl absent ↦
      let b : Binding = record { tag = tag; expires_at = now + c.ttl } in
      ground (arith, absent, evict-front (length c.items + 1) c.max_entries key b c.items v.room)
  | inr (b, found) ↦
      let b' : Binding = record { tag = tag; expires_at = now + c.ttl } in
      ground (arith, found, front key b' (delete key c.items))
]

get_answer :
    (key : Bytes) (now : ℕ) (b : Binding) (c : StickyCache)
    → key ≢ []
    → lookup key c.items ≡ some b
    → (get key now c).0 ≡ (if ltb now b.expires_at then some b.tag else none)
unfolding get bytes_discrete
get_answer key now b c k found = ground (arith, found)

-- A client keeps its node for the time to live and no longer: after a client with a name is bound to
-- a node with a name in a valid cache, a lookup of the client answers with exactly that node if it
-- comes before the binding's time to live is over, and with none if it comes later.
pub get-set :
    (key tag : Bytes) (now later : ℕ) (c : StickyCache)
    → IsValid c
    → key ≢ []
    → tag ≢ []
    → (get key later (set key tag now c)).0 ≡ (if ltb later (now + c.ttl) then some tag else none)
get-set key tag now later c v k t =
    get_answer key later _ (set key tag now c) k (set_stored key tag now c v k t)

-- A binding that is found is as good as set anew.
pub get_refreshed :
    (key tag : Bytes) (now : ℕ) (c : StickyCache)
    → tag ≢ []
    → (get key now c).0 ≡ some tag
    → (get key now c).1 ≡ set key tag now c
unfolding get set bytes_discrete
get_refreshed key tag now c t = elim (Option-cases (lookup key c.items)) [
  | inl absent ↦ rw absent (λ h. ground (arith, h))
  | inr (b, found) ↦ rw found (λ h. ground (arith, h, t))
]

-- The operations keep the time to live.
pub get_ttl : (key : Bytes) (now : ℕ) (c : StickyCache) → (get key now c).1.ttl ≡ c.ttl
unfolding get
get_ttl key now c = ground arith

pub remove_ttl : (key : Bytes) (c : StickyCache) → (remove key c).ttl ≡ c.ttl
unfolding remove
remove_ttl key c = ground arith
