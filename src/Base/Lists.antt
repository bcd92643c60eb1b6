-- ===== src/Base/Lists.antt =====
-- Lists measured by native numbers and searched by Boolean tests.
use Prim.Native.Nat.{ℕ, zero, suc, ◌+◌, ◌-◌, ◌≤◌, min}
use mathlib.Core.Path.{◌≡◌, refl}
use mathlib.Core.Bool.{Bool, true, false, ◌&&◌, ◌||◌}
use mathlib.Core.List.{List, [], ◌∷◌, ◌++◌}
use mathlib.Core.Option.{Option, none, some}
use native.Mathlib.Omega.{arith}
use quad_control.Base.Tests.{if◌then◌else◌}

module _ {ℓ} {A : Type ℓ} where
  abbrev pub length : List A → ℕ
  length [] = 0
  length (x ∷ xs) = suc (length xs)

  abbrev pub is_empty : List A → Bool
  is_empty [] = true
  is_empty (x ∷ xs) = false

  abbrev pub take : ℕ → List A → List A
  take zero xs = []
  take (suc n) [] = []
  take (suc n) (x ∷ xs) = x ∷ take n xs

  abbrev pub drop : ℕ → List A → List A
  drop zero xs = xs
  drop (suc n) [] = []
  drop (suc n) (x ∷ xs) = drop n xs

  abbrev pub any : (A → Bool) → List A → Bool
  any p [] = false
  any p (x ∷ xs) = p x || any p xs

  abbrev pub all : (A → Bool) → List A → Bool
  all p [] = true
  all p (x ∷ xs) = p x && all p xs

  abbrev pub find : (A → Bool) → List A → Option A
  find p [] = none
  find p (x ∷ xs) = if p x then some x else find p xs

  abbrev pub filter : (A → Bool) → List A → List A
  filter p [] = []
  filter p (x ∷ xs) = let rest = filter p xs in if p x then x ∷ rest else rest

  abbrev pub All {κ} : (A → Type κ) → List A → Type κ
  All P [] = Unit
  All P (x ∷ xs) = P x × All P xs

module _ {ℓ κ} {A : Type ℓ} {B : Type κ} where
  abbrev pub find_map : (A → Option B) → List A → Option B
  find_map f [] = none
  find_map f (x ∷ xs) = let rest = find_map f xs in elim (f x) [ none ↦ rest | some y ↦ some y ]

  abbrev pub filter_map : (A → Option B) → List A → List B
  filter_map f [] = []
  filter_map f (x ∷ xs) =
      let rest = filter_map f xs in elim (f x) [ none ↦ rest | some y ↦ y ∷ rest ]

module _ {ℓ} {A : Type ℓ} where
  pub length-append : (xs ys : List A) → length (xs ++ ys) ≡ length xs + length ys
  length-append [] ys = omega arith
  length-append (x ∷ xs) ys = omega (arith, length-append xs ys)

  pub length-take : (n : ℕ) (xs : List A) → length (take n xs) ≡ min n (length xs)
  length-take zero xs = omega arith
  length-take (suc n) [] = omega arith
  length-take (suc n) (x ∷ xs) = omega (arith, length-take n xs)

  pub length-drop : (n : ℕ) (xs : List A) → length (drop n xs) ≡ length xs - n
  length-drop zero xs = omega arith
  length-drop (suc n) [] = omega arith
  length-drop (suc n) (x ∷ xs) = omega (arith, length-drop n xs)

  pub length-filter-le : (p : A → Bool) (xs : List A) → length (filter p xs) ≤ length xs
  length-filter-le p [] = omega arith
  length-filter-le p (x ∷ xs) = ground (arith, length-filter-le p xs)

  pub all-filter : (p q : A → Bool) (xs : List A) → all p xs ≡ true → all p (filter q xs) ≡ true
  all-filter p q [] h = h
  all-filter p q (x ∷ xs) h = ground (arith, all-filter p q xs)

  pub all-filter_self : (p : A → Bool) (xs : List A) → all p (filter p xs) ≡ true
  all-filter_self p [] = refl
  all-filter_self p (x ∷ xs) = ground (arith, all-filter_self p xs)

  pub all-take : (p : A → Bool) (n : ℕ) (xs : List A) → all p xs ≡ true → all p (take n xs) ≡ true
  all-take p zero xs h = refl
  all-take p (suc n) [] h = h
  all-take p (suc n) (x ∷ xs) h = ground (arith, all-take p n xs)

  pub filter-all : (p : A → Bool) (xs : List A) → all p xs ≡ true → filter p xs ≡ xs
  filter-all p [] h = refl
  filter-all p (x ∷ xs) h = ground (arith, filter-all p xs)

  pub take-take : (n : ℕ) (xs : List A) → take n (take n xs) ≡ take n xs
  take-take zero xs = refl
  take-take (suc n) [] = refl
  take-take (suc n) (x ∷ xs) = ground (arith, take-take n xs)
