-- ===== src/Ios/Downstream/Lines.antt =====
-- Texts of lines and of numbers, as the reader in crates/quadcontrol-ios/src/mjpeg.rs cuts and trims them.
use mathlib.Core.List.{reverse, reverse-append, reverse-cons, reverse-reverse}
use quad_control.Base.{
  ℕ, ◌≡◌, refl, ap, ◌∙◌, Bool, true, false, [], ◌∷◌, ◌++◌, arith, ltb, ◌==◌, is_empty, all, take,
  drop, length, Bool-cases, inl, inr,
}
use quad_control.Base.Text.{
  Text, codes, is_ascii_digit, is_whitespace, trim, trim_end, trim_end_while, trim_start_while,
}
use quad_control.Ios.Frames.{cut_line, has_newline}
use quad_control.Ios.Downstream.{crlf}

crlf_run : codes "\r\n" ≡ crlf
crlf_run = refl

abbrev pub is_ascii : ℕ → Bool
is_ascii c = ltb c 128

pub cut_line-append :
    (l rest : Text) → has_newline l ≡ false → cut_line (l ++ 10 ∷ rest) ≡ (l ++ 10 ∷ [], rest)
unfolding cut_line
cut_line-append [] rest h = refl
cut_line-append (c ∷ l) rest h =
    let other : (c == 10) ≡ false = ground arith in
    let later : has_newline l ≡ false = ground arith in
    rw (other, cut_line-append l rest later) refl

pub has_newline-append : (l rest : Text) → has_newline (l ++ 10 ∷ rest) ≡ true
has_newline-append [] rest = refl
has_newline-append (c ∷ l) rest = ground (arith, has_newline-append l rest)

pub all-append :
    (p : ℕ → Bool) (xs ys : Text) → all p xs ≡ true → all p ys ≡ true → all p (xs ++ ys) ≡ true
all-append p [] ys h k = k
all-append p (x ∷ xs) ys h k = ground (arith, all-append p xs ys)

pub take-append : (xs ys : Text) → take (length xs) (xs ++ ys) ≡ xs
take-append [] ys = refl
take-append (x ∷ xs) ys = ap {B = Text} (λ r. x ∷ r) (take-append xs ys)

pub drop-append : (xs ys : Text) → drop (length xs) (xs ++ ys) ≡ ys
drop-append [] ys = refl
drop-append (x ∷ xs) ys = drop-append xs ys

trim_start-digits : (t : Text) → all is_ascii_digit t ≡ true → trim_start_while is_whitespace t ≡ t
unfolding trim_start_while is_whitespace
trim_start-digits [] h = refl
trim_start-digits (c ∷ t) h = let other : is_whitespace c ≡ false = ground arith in rw other refl

all-reverse : (p : ℕ → Bool) (xs : Text) → all p xs ≡ true → all p (reverse xs) ≡ true
all-reverse p [] h = refl
all-reverse p (x ∷ xs) h =
    rw (reverse-cons x xs)
      (all-append p (reverse xs) (x ∷ []) (all-reverse p xs (ground arith)) (ground arith))

reverse-ended : (d : Text) → reverse ((d ++ 13 ∷ []) ++ 10 ∷ []) ≡ 10 ∷ 13 ∷ reverse d
reverse-ended d =
    reverse-append (d ++ 13 ∷ []) (10 ∷ [])
    ∙ ap {B = Text} (λ r. 10 ∷ r) (reverse-append d (13 ∷ []))

trim_end-ended : (d : Text) → all is_ascii_digit d ≡ true → trim_end ((d ++ 13 ∷ []) ++ 10 ∷ []) ≡ d
unfolding trim_end trim_end_while trim_start_while is_whitespace
trim_end-ended d h = rw (reverse-ended d) (
    ap reverse (trim_start-digits (reverse d) (all-reverse is_ascii_digit d h)) ∙ reverse-reverse d)

pub trim-value :
    (d : Text)
    → is_empty d ≡ false
    → all is_ascii_digit d ≡ true
    → trim (32 ∷ ((d ++ 13 ∷ []) ++ 10 ∷ [])) ≡ d
unfolding trim trim_start_while is_whitespace
trim-value [] h k = cc
trim-value (c ∷ t) h k =
    let other : is_whitespace c ≡ false = ground arith in rw other (trim_end-ended (c ∷ t) k)

trim_start-filled :
    (p : ℕ → Bool) (c : ℕ) (t : Text)
    → p c ≡ false
    → is_empty (trim_start_while p (t ++ c ∷ [])) ≡ false
unfolding trim_start_while
trim_start-filled p c [] h = rw h refl
trim_start-filled p c (x ∷ t) h = elim (Bool-cases (p x)) [
  | inl e ↦ rw e (trim_start-filled p c t h)
  | inr e ↦ rw e refl
]

is_empty-reverse : (t : Text) → is_empty t ≡ false → is_empty (reverse t) ≡ false
is_empty-reverse [] h = h
is_empty-reverse (c ∷ t) h = rw (reverse-cons c t) (filled (reverse t))
  where
    filled : (xs : Text) → is_empty (xs ++ c ∷ []) ≡ false
    filled [] = refl
    filled (x ∷ xs) = refl

trim_end-filled : (c : ℕ) (t : Text) → is_whitespace c ≡ false → is_empty (trim_end (c ∷ t)) ≡ false
unfolding trim_end trim_end_while
trim_end-filled c t h =
    let first : is_empty (trim_start_while is_whitespace (reverse (c ∷ t))) ≡ false =
      rw (reverse-cons c t) (trim_start-filled is_whitespace c (reverse t) h) in
    is_empty-reverse (trim_start_while is_whitespace (reverse (c ∷ t))) first

-- A text whose first character is no blank is not blank.
pub trim-filled : (c : ℕ) (t : Text) → is_whitespace c ≡ false → is_empty (trim (c ∷ t)) ≡ false
unfolding trim trim_start_while
trim-filled c t h = rw h (trim_end-filled c t h)
