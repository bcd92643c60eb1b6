-- ===== src/Base/Text/Decimal/Laws.antt =====
-- A number that is printed in decimal is read back.
use quad_control.Base.{
  ℕ, zero, suc, ◌+◌, ◌-◌, ◌*◌, ◌/◌, ◌%◌, ◌<◌, ◌≤◌, ◌≡◌, refl, ◌∙◌, true, false, [], ◌∷◌, some, ltb,
  ◌==◌, all, is_empty, arith, Bool-cases, inl, inr, ltb→lt, lt→ltb,
}
use quad_control.Base.Text.{Text, is_ascii_digit, parse_digits, parse_uint}
use quad_control.Base.Text.Decimal.{decimal, decimal_onto}

is_ascii_digit-add : (d : ℕ) → d < 10 → is_ascii_digit (48 + d) ≡ true
is_ascii_digit-add d h = ground arith

parse_digits-cons :
    (bound acc d : ℕ) (t : Text)
    → d < 10
    → acc * 10 + d < bound
    → parse_digits bound acc ((48 + d) ∷ t) ≡ parse_digits bound (acc * 10 + d) t
unfolding parse_digits
parse_digits-cons bound acc d t h le =
    let same : acc * 10 + (48 + d - 48) ≡ acc * 10 + d = omega arith in
    rw (same, is_ascii_digit-add d h, lt→ltb _ _ le) refl

parse_digits-decimal_onto :
    (bound f n : ℕ) (t : Text)
    → n < f
    → n < bound
    → parse_digits bound 0 (decimal_onto f n t) ≡ parse_digits bound n t
unfolding decimal_onto
parse_digits-decimal_onto bound zero n t h le = absurd (omega arith)
parse_digits-decimal_onto bound (suc f) n t h le = elim (Bool-cases (ltb n 10)) [
  | inl e ↦
      let small = ltb→lt n 10 e in
      let same : 0 * 10 + n ≡ n = omega arith in
      rw e (parse_digits-cons bound 0 n t small (omega arith) ∙ rw same refl)
  | inr e ↦
      let big : 10 ≤ n = ground arith in
      rw e (
        parse_digits-decimal_onto bound f (n / 10) ((48 + n % 10) ∷ t) (omega arith) (omega arith)
        ∙ parse_digits-cons bound (n / 10) (n % 10) t (omega arith) (omega arith)
        ∙ (let same : n / 10 * 10 + n % 10 ≡ n = omega arith in rw same refl))
]

all-decimal_onto :
    (f n : ℕ) (t : Text)
    → all is_ascii_digit t ≡ true
    → all is_ascii_digit (decimal_onto f n t) ≡ true
unfolding decimal_onto
all-decimal_onto zero n t h = h
all-decimal_onto (suc f) n t h = elim (Bool-cases (ltb n 10)) [
  | inl e ↦ let digit = is_ascii_digit-add n (ltb→lt n 10 e) in rw e (rw (digit, h) refl)
  | inr e ↦
      let digit = is_ascii_digit-add (n % 10) (omega arith) in
      rw e (all-decimal_onto f (n / 10) ((48 + n % 10) ∷ t) (rw (digit, h) refl))
]

decimal_onto-cons :
    (f n : ℕ) (t : Text) → is_empty t ≡ false → is_empty (decimal_onto f n t) ≡ false
unfolding decimal_onto
decimal_onto-cons zero n t h = h
decimal_onto-cons (suc f) n t h = elim (Bool-cases (ltb n 10)) [
  | inl e ↦ rw e refl
  | inr e ↦ rw e (decimal_onto-cons f (n / 10) ((48 + n % 10) ∷ t) refl)
]

pub all-decimal : (n : ℕ) → all is_ascii_digit (decimal n) ≡ true
unfolding decimal
all-decimal n = all-decimal_onto (suc n) n [] refl

pub decimal-cons : (n : ℕ) → is_empty (decimal n) ≡ false
unfolding decimal decimal_onto
decimal-cons n = elim (Bool-cases (ltb n 10)) [
  | inl e ↦ rw e refl
  | inr e ↦ rw e (decimal_onto-cons n (n / 10) ((48 + n % 10) ∷ []) refl)
]

parse_uint-digits :
    (bound : ℕ) (t : Text)
    → is_empty t ≡ false
    → all is_ascii_digit t ≡ true
    → parse_uint bound t ≡ parse_digits bound 0 t
unfolding parse_uint
parse_uint-digits bound [] h d = cc
parse_uint-digits bound (c ∷ t) h d = let other : (c == 43) ≡ false = ground arith in rw other refl

-- An unsigned integer below the bound is read from what it is printed as.
pub parse_uint-decimal : (bound n : ℕ) → n < bound → parse_uint bound (decimal n) ≡ some n
unfolding parse_digits decimal
parse_uint-decimal bound n h =
    parse_uint-digits bound (decimal n) (decimal-cons n) (all-decimal n)
    ∙ parse_digits-decimal_onto bound (suc n) n [] (omega arith) h
