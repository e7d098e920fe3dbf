-- ===== src/Base/Maps.antt =====
-- Go maps as association lists: a write replaces the first entry with the key, or appends one.
use Prim.Native.Nat.{ℕ, ◌+◌, ◌≤◌}
use mathlib.Core.Path.{◌≡◌, refl, ap, sym}
use mathlib.Core.Logic.{◌≢◌}
use mathlib.Core.Bool.{Bool, true, false}
use mathlib.Core.List.{List, [], ◌∷◌}
use mathlib.Core.Option.{Option, none, some}
use native.Mathlib.Omega.{arith}
use native.Mathlib.Decide.{ℕ_discrete}
use proxyfleet.Base.Lists.{Bytes, length}
use proxyfleet.Base.Tests.{if◌then◌else◌}

-- Keys that can be compared.
pub record Key {ℓ} (K : Type ℓ) : Type ℓ where
  pub same : Discrete K

unfoldable pub bytes_discrete : Discrete Bytes
unfolding ℕ_discrete
bytes_discrete = hlevel ℕ_discrete

instance abbrev pub bytes_key : Key Bytes
bytes_key = record { same = bytes_discrete }

instance abbrev pub ℕ_key : Key ℕ
ℕ_key = record { same = ℕ_discrete }

-- `a == b` on Go strings.
abbrev pub bytes_eq : Bytes → Bytes → Bool
bytes_eq a b = elim (bytes_discrete a b) [ yes _ ↦ true | no _ ↦ false ]

abbrev pub or_else {ℓ} : {V : Type ℓ} → Option V → Option V → Option V
or_else none o = o
or_else (some v) o = some v

module _ {ℓ κ} {K : Type ℓ} {V : Type κ} ⦃key : Key K⦄ where
  unfoldable pub lookup : K → List (K × V) → Option V
  lookup k [] = none
  lookup k ((j, v) ∷ m) = elim (key.same j k) [ yes _ ↦ some v | no _ ↦ lookup k m ]

  unfoldable pub insert : K → V → List (K × V) → List (K × V)
  insert k v [] = (k, v) ∷ []
  insert k v ((j, w) ∷ m) = elim (key.same j k) [
    | yes _ ↦ (k, v) ∷ m
    | no _ ↦ (j, w) ∷ insert k v m
  ]

  unfoldable pub delete : K → List (K × V) → List (K × V)
  delete k [] = []
  delete k ((j, w) ∷ m) = elim (key.same j k) [ yes _ ↦ delete k m | no _ ↦ (j, w) ∷ delete k m ]

  pub lookup-nil : (k : K) → lookup k [] ≡ none
  unfolding lookup
  lookup-nil k = refl

  pub lookup-cons :
      (k j : K) (v : V) (m : List (K × V))
      → lookup k ((j, v) ∷ m) ≡ (elim (key.same j k) [ yes _ ↦ some v | no _ ↦ lookup k m ])
  unfolding lookup
  lookup-cons k j v m = refl

  pub lookup-insert_self : (k : K) (v : V) (m : List (K × V)) → lookup k (insert k v m) ≡ some v
  unfolding lookup insert
  lookup-insert_self k v [] = ground arith
  lookup-insert_self k v ((j, w) ∷ m) = ground (arith, lookup-insert_self k v m)

  pub lookup-insert_ne :
      (k j : K) (v : V) (m : List (K × V)) → k ≢ j → lookup j (insert k v m) ≡ lookup j m
  unfolding lookup insert
  lookup-insert_ne k j v [] h = ground arith
  lookup-insert_ne k j v ((i, w) ∷ m) h = ground (arith, lookup-insert_ne k j v m h)

  pub lookup-delete_self : (k : K) (m : List (K × V)) → lookup k (delete k m) ≡ none
  unfolding lookup delete
  lookup-delete_self k [] = refl
  lookup-delete_self k ((j, w) ∷ m) = ground (arith, lookup-delete_self k m)

  pub lookup-delete_ne : (k j : K) (m : List (K × V)) → k ≢ j → lookup j (delete k m) ≡ lookup j m
  unfolding lookup delete
  lookup-delete_ne k j [] h = refl
  lookup-delete_ne k j ((i, w) ∷ m) h = ground (arith, lookup-delete_ne k j m h)

  pub length-insert :
      (k : K) (v : V) (m : List (K × V)) → lookup k m ≡ none → length (insert k v m) ≡ length m + 1
  unfolding lookup insert
  length-insert k v [] h = omega arith
  length-insert k v ((j, w) ∷ m) h = ground (arith, length-insert k v m)

  pub length-insert_old :
      (k : K) (v w : V) (m : List (K × V)) → lookup k m ≡ some w → length (insert k v m) ≡ length m
  unfolding lookup insert
  length-insert_old k v w [] h = ground arith
  length-insert_old k v w ((j, u) ∷ m) h = ground (arith, length-insert_old k v w m)

  pub length-delete-le : (k : K) (m : List (K × V)) → length (delete k m) ≤ length m
  unfolding delete
  length-delete-le k [] = omega arith
  length-delete-le k ((j, w) ∷ m) = ground (arith, length-delete-le k m)

  -- The two laws of a write as one.
  pub lookup-insert :
      (k j : K) (v : V) (m : List (K × V))
      → lookup j (insert k v m) ≡ (elim (key.same k j) [ yes _ ↦ some v | no _ ↦ lookup j m ])
  lookup-insert k j v m = ground (arith, lookup-insert_self k v m, lookup-insert_ne k j v m)

  -- The two laws of a removal as one.
  pub lookup-delete :
      (k j : K) (m : List (K × V))
      → lookup j (delete k m) ≡ (elim (key.same k j) [ yes _ ↦ none | no _ ↦ lookup j m ])
  lookup-delete k j m = ground (arith, lookup-delete_self k m, lookup-delete_ne k j m)

  delete_absent : (k : K) (m : List (K × V)) → lookup k m ≡ none → delete k m ≡ m
  unfolding lookup delete
  delete_absent k [] h = refl
  delete_absent k ((j, w) ∷ m) h = ground (arith, delete_absent k m)

  -- A new entry is taken back by its removal, a write by a write of the old value.
  pub delete-insert :
      (k : K) (v : V) (m : List (K × V)) → lookup k m ≡ none → delete k (insert k v m) ≡ m
  unfolding lookup insert delete
  delete-insert k v [] h = ground arith
  delete-insert k v ((j, w) ∷ m) h = ground (arith, delete-insert k v m)

  pub insert-insert_old :
      (k : K) (v w : V) (m : List (K × V)) → lookup k m ≡ some w → insert k w (insert k v m) ≡ m
  unfolding lookup insert
  insert-insert_old k v w [] h = ground arith
  insert-insert_old k v w ((j, u) ∷ m) h = ground (arith, insert-insert_old k v w m)

  -- The entries that pass a test.
  abbrev pub keep_entries : (K → V → Bool) → List (K × V) → List (K × V)
  keep_entries p [] = []
  keep_entries p ((j, v) ∷ m) = elim (p j v) [
    | true ↦ (j, v) ∷ keep_entries p m
    | false ↦ keep_entries p m
  ]

  -- Writes all entries of the first map into the second.
  abbrev pub insert_all : List (K × V) → List (K × V) → List (K × V)
  insert_all [] m = m
  insert_all ((j, v) ∷ xs) m = insert j v (insert_all xs m)

  -- No key has two entries.
  abbrev pub Distinct : List (K × V) → Type (ℓ ⊔ κ)
  Distinct [] = Unit
  Distinct ((j, v) ∷ m) = (lookup j m ≡ none) × Distinct m

  abbrev pub kept : (K → V → Bool) → K → Option V → Option V
  kept p k none = none
  kept p k (some v) = if p k v then some v else none

  pub lookup-keep_entries :
      (p : K → V → Bool) (k : K) (m : List (K × V))
      → Distinct m
      → lookup k (keep_entries p m) ≡ kept p k (lookup k m)
  unfolding lookup
  lookup-keep_entries p k [] d = refl
  lookup-keep_entries p k ((j, v) ∷ m) d = ground (arith, d.0, lookup-keep_entries p k m d.1)

  pub lookup-insert_all :
      (k : K) (xs m : List (K × V))
      → lookup k (insert_all xs m) ≡ or_else (lookup k xs) (lookup k m)
  lookup-insert_all k [] m = ap (λ o. or_else o (lookup k m)) (sym (lookup-nil k))
  lookup-insert_all k ((j, v) ∷ xs) m =
      ground (
        arith,
        lookup-insert j k v (insert_all xs m),
        lookup-cons k j v xs,
        lookup-insert_all k xs m,
      )

  -- How many values pass a test.
  abbrev pub count_values : (V → Bool) → List (K × V) → ℕ
  count_values p [] = 0
  count_values p ((j, v) ∷ m) = (if p v then 1 else 0) + count_values p m

  pub count_values-insert :
      (p : V → Bool) (k : K) (v : V) (m : List (K × V))
      → lookup k m ≡ none
      → count_values p (insert k v m) ≡ count_values p m + (if p v then 1 else 0)
  unfolding lookup insert
  count_values-insert p k v [] h = ground arith
  count_values-insert p k v ((j, w) ∷ m) h = ground (arith, count_values-insert p k v m)

  pub count_values-insert_old :
      (p : V → Bool) (k : K) (v w : V) (m : List (K × V))
      → lookup k m ≡ some w
      → count_values p (insert k v m) + (if p w then 1 else 0)
        ≡ count_values p m + (if p v then 1 else 0)
  unfolding lookup insert
  count_values-insert_old p k v w [] h = ground arith
  count_values-insert_old p k v w ((j, u) ∷ m) h = ground (arith, count_values-insert_old p k v w m)
