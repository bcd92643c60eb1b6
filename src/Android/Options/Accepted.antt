-- ===== src/Android/Options/Accepted.antt =====
-- Which passed-on arguments are accepted, and that they are passed on unchanged.
use quad_control.Base.{
  ℕ, ◌==◌, ◌≡◌, refl, ◌⊎◌, inl, inr, Bool, true, false, not, ◌&&◌, ◌||◌, List, [], ◌∷◌, Option,
  none, some, ok, arith, any, Option-cases, is_ok,
}
use quad_control.Base.Text.{Text, codes, text_eq, strip_prefix}
use quad_control.Android.Options.{
  deny, conflict, other, is_conflict, is_denied, long_kind, short_kind, separator, option_name,
  check_long, check_short, keep, separate, check_arg, first_of, filter_from, filtered_args,
}

-- The short options that the wrapper owns or denies.
abbrev reserved_letters : Text
reserved_letters = codes "sbdewtNr"

unfoldable pub is_reserved_letter : ℕ → Bool
is_reserved_letter c = any (λ r. c == r) reserved_letters

-- A long option is admitted unless its name is owned or denied; a group of short options unless a
-- letter of it is; any other argument is.
unfoldable pub admits : Text → Bool
unfolding strip_prefix option_name is_conflict is_denied is_reserved_letter
admits arg = elim (strip_prefix separator arg) [
  | some rest ↦ not (is_conflict (option_name rest) || is_denied (option_name rest))
  | none ↦ elim (strip_prefix (b'-' ∷ []) arg) [
    | some shorts ↦ not (any is_reserved_letter shorts)
    | none ↦ true
  ]
]

-- What follows a separator is not looked at.
unfoldable pub accepts : List Text → Bool
unfolding admits text_eq
accepts [] = true
accepts (arg ∷ rest) = text_eq arg separator || (admits arg && accepts rest)

short_kind-cases :
    (c : ℕ)
    → ((is_reserved_letter c ≡ false) × (short_kind c ≡ (other, false)))
      ⊎ ((is_reserved_letter c ≡ true)
          × (((short_kind c).0 ≡ deny) ⊎ ((short_kind c).0 ≡ conflict)))
unfolding is_reserved_letter short_kind
short_kind-cases c = ground arith

check_short-cases :
    (shorts : Text) (next : Option Text)
    → ((any is_reserved_letter shorts ≡ false) × (check_short shorts next ≡ ok false))
      ⊎ ((any is_reserved_letter shorts ≡ true) × (is_ok (check_short shorts next) ≡ false))
unfolding check_short
check_short-cases [] next = inl (refl, refl)
check_short-cases (c ∷ cs) next = ground (arith, check_short-cases cs next, short_kind-cases c)

check_long-cases :
    (rest : Text)
    → let name = option_name rest in
      let reserved = is_conflict name || is_denied name in
      ((reserved ≡ false) × (check_long rest ≡ ok tt))
      ⊎ ((reserved ≡ true) × (is_ok (check_long rest) ≡ false))
unfolding check_long long_kind
check_long-cases rest = ground arith

check_arg-cases :
    (arg : Text) (next : Option Text)
    → ((text_eq arg separator ≡ true) × (check_arg arg next ≡ ok separate))
      ⊎ ((text_eq arg separator ≡ false) × (admits arg ≡ true) × (check_arg arg next ≡ ok keep))
      ⊎ ((text_eq arg separator ≡ false)
          × (admits arg ≡ false)
          × (is_ok (check_arg arg next) ≡ false))
unfolding check_arg admits
check_arg-cases arg next = elim (Option-cases (strip_prefix separator arg)) [
  | inr (rest, e) ↦ ground (arith, check_long-cases rest)
  | inl e ↦ elim (Option-cases (strip_prefix (b'-' ∷ []) arg)) [
    | inr (shorts, e') ↦ ground (arith, check_short-cases shorts next)
    | inl e' ↦ ground arith
  ]
]

filter_from-cases :
    (args : List Text)
    → ((accepts args ≡ true) × (filter_from false args ≡ ok args))
      ⊎ ((accepts args ≡ false) × (is_ok (filter_from false args) ≡ false))
unfolding filter_from accepts
filter_from-cases [] = inl (refl, refl)
filter_from-cases (arg ∷ rest) =
    ground (arith, check_arg-cases arg (first_of rest), filter_from-cases rest)

-- Arguments of which each one before the first separator is admitted are passed on as they are,
-- in their order and with nothing dropped; any others are refused.
pub filtered_args-accepts :
    (args : List Text)
    → ((accepts args ≡ true) × (filtered_args args ≡ ok args))
      ⊎ ((accepts args ≡ false) × (is_ok (filtered_args args) ≡ false))
unfolding filtered_args
filtered_args-accepts args = filter_from-cases args
