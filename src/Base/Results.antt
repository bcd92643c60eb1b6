-- ===== src/Base/Results.antt =====
-- `Result<A, E>`, with the `?` operator as bind.
use mathlib.Core.Path.{◌≡◌, refl}
use mathlib.Core.Option.{Option, none, some}
use mathlib.Core.Bool.{Bool, true, false}
use mathlib.Core.Logic.{◌⊎◌, inl, inr}
use quad_control.Base.Tests.{if◌then◌else◌}

pub data Result {ℓ κ} (A : Type ℓ) (E : Type κ) : Type (ℓ ⊔ κ) where
  ok : A → Result A E
  err : E → Result A E

module _ {ℓ κ μ} {A : Type ℓ} {B : Type κ} {E : Type μ} where
  infixl 5 ◌>>=◌
  abbrev pub ◌>>=◌ : Result A E → (A → Result B E) → Result B E
  ok a >>= f = f a
  err e >>= f = err e

  pub bind-eq-ok :
      (m : Result A E) (f : A → Result B E) {b : B}
      → (m >>= f) ≡ ok b
      → (a : A) × (m ≡ ok a) × (f a ≡ ok b)
  bind-eq-ok (ok a) f h = (a, refl, h)
  bind-eq-ok (err e) f h = cc

-- what holds of a value, if there is one
abbrev pub Holds {ℓ κ} : {A : Type ℓ} {E : Type κ} → (A → Type 0) → Result A E → Type 0
Holds P (ok a) = P a
Holds P (err e) = Unit

pub bind-Holds {ℓ κ μ} :
    {A : Type ℓ} {B : Type κ} {E : Type μ} (P : B → Type 0) (m : Result A E) (f : A → Result B E)
    → ((a : A) → Holds P (f a))
    → Holds P (m >>= f)
bind-Holds P (ok a) f h = h a
bind-Holds P (err e) f h = tt

pub if-Holds {ℓ κ} :
    {A : Type ℓ} {E : Type κ} (P : A → Type 0) (b : Bool) (m n : Result A E)
    → Holds P m
    → Holds P n
    → Holds P (if b then m else n)
if-Holds P true m n h k = h
if-Holds P false m n h k = k

module _ {ℓ κ} {A : Type ℓ} {E : Type κ} where
  abbrev pub is_ok : Result A E → Bool
  is_ok (ok a) = true
  is_ok (err e) = false

  -- `Option::ok_or`
  abbrev pub ok_or : Option A → E → Result A E
  ok_or none e = err e
  ok_or (some a) e = ok a

  -- `Result::ok`
  abbrev pub to_option : Result A E → Option A
  to_option (ok a) = some a
  to_option (err e) = none

  pub Result-cases : (r : Result A E) → ((a : A) × (r ≡ ok a)) ⊎ ((e : E) × (r ≡ err e))
  Result-cases (ok a) = inl (a, refl)
  Result-cases (err e) = inr (e, refl)
