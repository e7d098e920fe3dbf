-- ===== src/Base/Sort.antt =====
-- Stable sorting (`sort.SliceStable`) as insertion, and cutting a list into pages.
use Prim.Native.Nat.{ℕ, zero, suc, ◌+◌, min}
use mathlib.Core.Path.{◌≡◌, refl, ap}
use mathlib.Core.Bool.{Bool}
use mathlib.Core.List.{List, [], ◌∷◌, ◌++◌}
use native.Mathlib.Omega.{arith}
use proxyfleet.Base.Tests.{if◌then◌else◌}
use proxyfleet.Base.Lists.{length, take, drop}

min_zero : (n : ℕ) → min 0 n ≡ 0
min_zero n = omega arith

min-suc : (m n : ℕ) → min (suc m) (suc n) ≡ suc (min m n)
min-suc m n = omega arith

min_nil : (n : ℕ) → min n 0 ≡ 0
min_nil n = omega arith

zero_add : (n : ℕ) → 0 + n ≡ n
zero_add n = omega arith

suc_add : (m n : ℕ) → suc m + n ≡ suc (m + n)
suc_add m n = omega arith

module _ {ℓ} {A : Type ℓ} where
  -- Before the first item that is not less.
  abbrev pub insert_by : (A → A → Bool) → A → List A → List A
  insert_by less a [] = a ∷ []
  insert_by less a (b ∷ bs) =
      let rest = insert_by less a bs in if less b a then b ∷ rest else a ∷ b ∷ bs

  abbrev pub sort_by : (A → A → Bool) → List A → List A
  sort_by less [] = []
  sort_by less (a ∷ bs) = insert_by less a (sort_by less bs)

  length-insert_by :
      (less : A → A → Bool) (a : A) (bs : List A) → length (insert_by less a bs) ≡ length bs + 1
  length-insert_by less a [] = omega arith
  length-insert_by less a (b ∷ bs) = ground (arith, length-insert_by less a bs)

  pub length-sort_by : (less : A → A → Bool) (bs : List A) → length (sort_by less bs) ≡ length bs
  length-sort_by less [] = refl
  length-sort_by less (a ∷ bs) =
      omega (arith, length-insert_by less a (sort_by less bs), length-sort_by less bs)

  nil_cuts : (m n : ℕ) → [] ≡ take n (drop {A = A} (suc m) [])
  nil_cuts m zero = refl
  nil_cuts m (suc n) = refl

  pub take_add : (m n : ℕ) (xs : List A) → take (m + n) xs ≡ take m xs ++ take n (drop m xs)
  take_add zero n xs = rw (zero_add n) refl
  take_add (suc m) n [] = rw (suc_add m n) (nil_cuts m n)
  take_add (suc m) n (x ∷ xs) = rw (suc_add m n) (ap (◌∷◌ x) (take_add m n xs))

  pub take-min : (n : ℕ) (xs : List A) → take (min n (length xs)) xs ≡ take n xs
  take-min zero xs = rw (min_zero (length xs)) refl
  take-min (suc n) [] = rw (min_nil (suc n)) refl
  take-min (suc n) (x ∷ xs) = rw (min-suc n (length xs)) (ap (◌∷◌ x) (take-min n xs))
