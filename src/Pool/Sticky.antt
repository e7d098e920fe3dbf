-- ===== src/Pool/Sticky.antt =====
-- internal/outbound/pool/sticky.go: the bounded, expiring affinity of clients to nodes. The map
-- only indexes the list, so the list alone is the state, most recent first.
pub mod Laws
use proxyfleet.Base.{
  ℕ, zero, suc, ◌+◌, ◌||◌, Option, none, some, List, [], ◌∷◌, Bytes, bytes_eq, bytes_key, ltb,
  length, if◌then◌else◌, lookup, delete, ℤ, positive_or,
}

-- `stickyBinding`, without its key.
pub record Binding : Type 0 where
  pub tag : Bytes
  pub expires_at : ℕ

pub record StickyCache : Type 0 where
  pub ttl : ℕ
  pub max_entries : ℕ
  pub items : List (Bytes × Binding)

-- Thirty minutes, in nanoseconds.
abbrev pub default_ttl : ℕ
default_ttl = 1800000000000

unfoldable pub new_sticky_cache : ℤ → ℤ → StickyCache
new_sticky_cache ttl max_entries = record {
  ttl = positive_or ttl default_ttl;
  max_entries = positive_or max_entries 4096;
  items = [];
}

-- Moved to the front with a new lease of life.
abbrev pub refresh : Bytes → Bytes → ℕ → StickyCache → StickyCache
refresh key tag now c = record c {
  items = (key, record { tag = tag; expires_at = now + c.ttl }) ∷ delete key c.items;
}

unfoldable pub get : Bytes → ℕ → StickyCache → Option Bytes × StickyCache
get key now c = if bytes_eq key [] then (none, c) else elim (lookup key c.items) [
  | none ↦ (none, c)
  | some b ↦
      if ltb now b.expires_at
      then (some b.tag, refresh key b.tag now c)
      else (none, record c { items = delete key c.items })
]

-- `removeElement(c.lru.Back())`.
unfoldable pub remove_back : List (Bytes × Binding) → List (Bytes × Binding)
remove_back [] = []
remove_back (x ∷ []) = []
remove_back (x ∷ y ∷ xs) = x ∷ remove_back (y ∷ xs)

-- `for len(c.items) > c.maxEntries`, with fuel; a round for each item is enough.
unfoldable pub evict : ℕ → ℕ → List (Bytes × Binding) → List (Bytes × Binding)
evict zero limit items = items
evict (suc rounds) limit items =
    let rest = evict rounds limit (remove_back items) in
    if ltb limit (length items) then rest else items

unfoldable pub set : Bytes → Bytes → ℕ → StickyCache → StickyCache
set key tag now c = if bytes_eq key [] || bytes_eq tag [] then c else elim (lookup key c.items) [
  | some _ ↦ refresh key tag now c
  | none ↦ record c {
    items =
        evict (length c.items + 1) c.max_entries
          ((key, record { tag = tag; expires_at = now + c.ttl }) ∷ c.items);
  }
]

unfoldable pub remove : Bytes → StickyCache → StickyCache
remove key c = if bytes_eq key [] then c else record c { items = delete key c.items }

unfoldable pub len : StickyCache → ℕ
len c = length c.items
