-- ===== src/Base/Cuts.antt =====
-- Cutting lists by native numbers.
use Prim.Native.Nat.{ℕ, zero, suc, ◌+◌, ◌-◌, ◌≤◌}
use mathlib.Core.Path.{◌≡◌, refl, ap, sym, ◌∙◌}
use mathlib.Core.List.{List, [], ◌∷◌, ◌++◌}
use native.Mathlib.Omega.{arith}
use proxyfleet.Base.Lists.{
  length, take, drop, take-append-drop, length-take, length-drop, length-append,
}

module _ {ℓ} {A : Type ℓ} where
  -- The last items of a list, all of them if there are fewer.
  abbrev pub suffix : ℕ → List A → List A
  suffix n xs = drop (length xs - n) xs

  pub take-append_left : (n : ℕ) (xs ys : List A) → length xs ≡ n → take n (xs ++ ys) ≡ xs
  take-append_left zero [] ys h = refl
  take-append_left (suc n) [] ys h = absurd (omega arith)
  take-append_left zero (x ∷ xs) ys h = absurd (omega arith)
  take-append_left (suc n) (x ∷ xs) ys h = ap (◌∷◌ x) (take-append_left n xs ys (omega arith))

  pub drop-append_left : (n : ℕ) (xs ys : List A) → length xs ≡ n → drop n (xs ++ ys) ≡ ys
  drop-append_left zero [] ys h = refl
  drop-append_left (suc n) [] ys h = absurd (omega arith)
  drop-append_left zero (x ∷ xs) ys h = absurd (omega arith)
  drop-append_left (suc n) (x ∷ xs) ys h = drop-append_left n xs ys (omega arith)

  pub take_all : (n : ℕ) (xs : List A) → length xs ≤ n → take n xs ≡ xs
  take_all zero [] h = refl
  take_all zero (x ∷ xs) h = absurd (omega arith)
  take_all (suc n) [] h = refl
  take_all (suc n) (x ∷ xs) h = ap (◌∷◌ x) (take_all n xs (omega arith))

  pub drop_all : (n : ℕ) (xs : List A) → length xs ≤ n → drop n xs ≡ []
  drop_all zero [] h = refl
  drop_all zero (x ∷ xs) h = absurd (omega arith)
  drop_all (suc n) [] h = refl
  drop_all (suc n) (x ∷ xs) h = drop_all n xs (omega arith)

  drop_at : {n m : ℕ} (xs : List A) → n ≡ m → drop n xs ≡ drop m xs
  drop_at xs e = ap (λ k. drop k xs) e

  pub drop-nil : (n : ℕ) → drop {A = A} n [] ≡ []
  drop-nil zero = refl
  drop-nil (suc n) = refl

  pub drop-append :
      (n : ℕ) (xs ys : List A) → drop n (xs ++ ys) ≡ drop n xs ++ drop (n - length xs) ys
  drop-append zero xs ys = ap (◌++◌ xs) (drop_at {n = 0} ys (omega arith))
  drop-append (suc n) [] ys = drop_at {n = suc n} ys (omega arith)
  drop-append (suc n) (x ∷ xs) ys =
      drop-append n xs ys ∙ ap (◌++◌ (drop n xs)) (drop_at ys (omega arith))

  pub drop-drop : (n m : ℕ) (xs : List A) → drop n (drop m xs) ≡ drop (m + n) xs
  drop-drop n zero xs = drop_at xs (omega arith)
  drop-drop n (suc m) [] = drop-nil n ∙ sym (drop-nil (suc m + n))
  drop-drop n (suc m) (x ∷ xs) = drop-drop n m xs ∙ drop_at {n = suc (m + n)} (x ∷ xs) (omega arith)

  -- A list falls into any two lengths that make it up.
  pub append-parts :
      (n : ℕ) (xs : List A)
      → n ≤ length xs
      → (ys : List A) × (zs : List A) × (xs ≡ ys ++ zs) × (length ys ≡ n)
  append-parts n xs h =
      (take n xs, drop n xs, sym (take-append-drop n xs), length-take n xs ∙ omega (arith, h))

  -- Keeping the last items as a list grows needs the last items only.
  pub suffix-append : (n : ℕ) (xs ys : List A) → suffix n (suffix n xs ++ ys) ≡ suffix n (xs ++ ys)
  suffix-append n xs ys =
      let d = length xs - n in
      let whole : drop d (xs ++ ys) ≡ drop d xs ++ ys =
        drop-append d xs ys
        ∙ ap (◌++◌ (drop d xs)) (drop_at {n = d - length xs} {m = 0} ys (omega arith)) in
      ap (suffix n) (sym whole)
      ∙ drop-drop (length (drop d (xs ++ ys)) - n) d (xs ++ ys)
      ∙ drop_at (xs ++ ys) (omega (arith, length-drop d (xs ++ ys), length-append xs ys))
