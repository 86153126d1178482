-- ===== src/Prelude/Lists.antt =====
-- Lists measured by native numbers and searched by Boolean tests.
use Prim.Native.Nat.{ℕ, zero, suc, ◌+◌, ◌≤◌}
use mathlib.Core.Path.{◌≡◌, refl, ap}
use mathlib.Core.Bool.{Bool, true, false, ◌&&◌, ◌||◌}
use mathlib.Core.Logic.{◌↔◌, ◌⊎◌, inl, inr}
use mathlib.Core.List.{List, [], ◌∷◌, ◌++◌}
use mathlib.Core.Option.{Option, none, some}
use native.Mathlib.Omega.{arith}
use routeweiler_python_sdk.Prelude.Tests.{if◌then◌else◌, Bool-cases}

module _ {ℓ} {A : Type ℓ} where
  abbrev pub length : List A → ℕ
  length [] = 0
  length (x ∷ xs) = suc (length xs)

  -- `fetchone` of a SELECT: the first row that passes the WHERE clause.
  abbrev pub find? : (A → Bool) → List A → Option A
  find? p [] = none
  find? p (x ∷ xs) = if p x then some x else find? p xs

  abbrev pub any : (A → Bool) → List A → Bool
  any p [] = false
  any p (x ∷ xs) = p x || any p xs

  abbrev pub filter : (A → Bool) → List A → List A
  filter p [] = []
  filter p (x ∷ xs) = let rest = filter p xs in if p x then x ∷ rest else rest

  -- Every entry satisfies a predicate.
  abbrev pub All {κ} : (A → Type κ) → List A → Type κ
  All P [] = Unit
  All P (x ∷ xs) = P x × All P xs

  pub All-append {κ} : (P : A → Type κ) (xs ys : List A) → All P xs → All P ys → All P (xs ++ ys)
  All-append P [] ys h k = k
  All-append P (x ∷ xs) ys h k = (h.0, All-append P xs ys h.1 k)

  pub length-append : (xs ys : List A) → length (xs ++ ys) ≡ length xs + length ys
  length-append [] ys = omega arith
  length-append (x ∷ xs) ys = omega (arith, length-append xs ys)

  pub length-filter-le : (p : A → Bool) (xs : List A) → length (filter p xs) ≤ length xs
  length-filter-le p [] = omega arith
  length-filter-le p (x ∷ xs) = ground (arith, length-filter-le p xs)

  -- What a search finds passes the test.
  pub find?-some : (p : A → Bool) (xs : List A) {x : A} → find? p xs ≡ some x → p x ≡ true
  find?-some p [] h = cc
  find?-some p (y ∷ xs) {x} h = ground (arith, find?-some p xs {x = x})

  pub any_of_find?-none :
      (p q : A → Bool) (xs : List A) → find? p xs ≡ none → any (λ x. p x && q x) xs ≡ false
  any_of_find?-none p q [] h = refl
  any_of_find?-none p q (y ∷ xs) h = ground (arith, any_of_find?-none p q xs)

  pub any-filter : (p : A → Bool) (xs : List A) → (length (filter p xs) ≡ 0) ↔ (any p xs ≡ false)
  any-filter p [] = ground arith
  any-filter p (x ∷ xs) = ground (arith, any-filter p xs)

  -- `xs[:n]` and `xs[n:]`
  abbrev pub take : ℕ → List A → List A
  take zero xs = []
  take (suc n) [] = []
  take (suc n) (x ∷ xs) = x ∷ take n xs

  abbrev pub drop : ℕ → List A → List A
  drop zero xs = xs
  drop (suc n) [] = []
  drop (suc n) (x ∷ xs) = drop n xs

  pub take-append : (xs ys : List A) → take (length xs) (xs ++ ys) ≡ xs
  take-append [] ys = refl
  take-append (x ∷ xs) ys = ap (λ zs. x ∷ zs) (take-append xs ys)

  pub drop-append : (xs ys : List A) → drop (length xs) (xs ++ ys) ≡ ys
  drop-append [] ys = refl
  drop-append (x ∷ xs) ys = drop-append xs ys

module _ {A : Type 0} where
  -- `x in xs`
  abbrev pub Among : A → List A → Type 0
  Among x [] = ⊥
  Among x (y ∷ xs) = (y ≡ x) ⊎ Among x xs

  pub All-Among : (P : A → Type 0) (xs : List A) {x : A} → All P xs → Among x xs → P x
  All-Among P [] h there = elim there [ ]
  All-Among P (y ∷ xs) {x} h (inl same) = rw (← same) h.0
  All-Among P (y ∷ xs) h (inr later) = All-Among P xs h.1 later

  pub find?-Among : (p : A → Bool) (xs : List A) {x : A} → find? p xs ≡ some x → Among x xs
  find?-Among p [] h = cc
  find?-Among p (y ∷ xs) {x} h = elim (Bool-cases (p y)) [
    | inl here ↦ inl (cc (rw here at h))
    | inr other ↦ inr (find?-Among p xs (rw other at h))
  ]
