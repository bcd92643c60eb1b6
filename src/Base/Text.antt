-- ===== src/Base/Text.antt =====
-- The part of Rust's `str` that the crates use. A text is the list of its `char`s as code points;
-- where a module works on bytes it says so.
pub mod Decimal
pub mod Equality
pub mod Map
use Prim.Native.Char.{code}
use Prim.Native.String.{String}
use mathlib.Core.List.{reverse}
use quad_control.Base.{
  ℕ, ◌+◌, ◌-◌, ◌*◌, Bool, true, false, ◌&&◌, ◌||◌, List, [], ◌∷◌, ◌++◌, map, Option, none, some,
  leb, ltb, ◌==◌, if◌then◌else◌, is_empty, any,
}

abbrev pub Text : Type 0
Text = List ℕ

-- A literal of the source.
abbrev pub codes : String → Text
codes String.[] = []
codes (String.◌∷◌ c s) = code c ∷ codes s

unfoldable pub text_eq : Text → Text → Bool
text_eq [] [] = true
text_eq (x ∷ xs) (y ∷ ys) = x == y && text_eq xs ys
text_eq _ _ = false

abbrev pub one_of : List Text → Text → Bool
one_of ts t = any (text_eq t) ts

abbrev within : ℕ → ℕ → ℕ → Bool
within lo hi c = leb lo c && leb c hi

-- `char::is_whitespace`, the Unicode property White_Space
unfoldable pub is_whitespace : ℕ → Bool
is_whitespace c =
    within 9 13 c
    || c == 0x20
    || c == 0x85
    || c == 0xa0
    || c == 0x1680
    || within 0x2000 0x200a c
    || within 0x2028 0x2029 c
    || c == 0x202f
    || c == 0x205f
    || c == 0x3000

abbrev pub is_ascii_digit : ℕ → Bool
is_ascii_digit c = within b'0' b'9' c

abbrev pub is_ascii_alphanumeric : ℕ → Bool
is_ascii_alphanumeric c = is_ascii_digit c || within b'A' b'Z' c || within b'a' b'z' c

unfoldable pub to_ascii_lowercase : Text → Text
to_ascii_lowercase = map (λ c. if within b'A' b'Z' c then c + 32 else c)

unfoldable pub eq_ignore_ascii_case : Text → Text → Bool
unfolding text_eq to_ascii_lowercase
eq_ignore_ascii_case a b = text_eq (to_ascii_lowercase a) (to_ascii_lowercase b)

unfoldable pub strip_prefix : Text → Text → Option Text
strip_prefix [] t = some t
strip_prefix (p ∷ ps) [] = none
strip_prefix (p ∷ ps) (c ∷ cs) = let rest = strip_prefix ps cs in if p == c then rest else none

abbrev is_some {ℓ} : {A : Type ℓ} → Option A → Bool
is_some none = false
is_some (some a) = true

unfoldable pub starts_with : Text → Text → Bool
unfolding strip_prefix
starts_with p t = is_some (strip_prefix p t)

unfoldable pub strip_suffix : Text → Text → Option Text
unfolding strip_prefix
strip_suffix p t = elim (strip_prefix (reverse p) (reverse t)) [
  | none ↦ none
  | some r ↦ some (reverse r)
]

unfoldable pub ends_with : Text → Text → Bool
unfolding strip_suffix
ends_with p t = is_some (strip_suffix p t)

unfoldable pub contains : Text → Text → Bool
unfolding starts_with
contains p [] = is_empty p
contains p (c ∷ cs) = starts_with p (c ∷ cs) || contains p cs

unfoldable pub trim_start_while : (ℕ → Bool) → Text → Text
trim_start_while p [] = []
trim_start_while p (c ∷ cs) = let rest = trim_start_while p cs in if p c then rest else c ∷ cs

unfoldable pub trim_end_while : (ℕ → Bool) → Text → Text
unfolding trim_start_while
trim_end_while p t = reverse (trim_start_while p (reverse t))

unfoldable pub trim_end : Text → Text
unfolding trim_end_while is_whitespace
trim_end = trim_end_while is_whitespace

unfoldable pub trim : Text → Text
unfolding trim_start_while trim_end is_whitespace
trim t = trim_end (trim_start_while is_whitespace t)

-- `str::split(c)`: at least one part
unfoldable pub split : ℕ → Text → List Text
split d t = parts [] t
  where
    parts : Text → Text → List Text
    parts piece [] = piece ∷ []
    parts piece (c ∷ cs) = elim (c == d) [
      | true ↦ piece ∷ parts [] cs
      | false ↦ parts (piece ++ c ∷ []) cs
    ]

-- `str::split_once(c)`
unfoldable pub split_once : ℕ → Text → Option (Text × Text)
split_once d [] = none
split_once d (c ∷ cs) =
    let rest = split_once d cs in
    if c == d then some ([], cs) else elim rest [ none ↦ none | some (a, b) ↦ some (c ∷ a, b) ]

-- `str::rsplit_once(c)`
unfoldable pub rsplit_once : ℕ → Text → Option (Text × Text)
rsplit_once d [] = none
rsplit_once d (c ∷ cs) = elim (rsplit_once d cs) [
  | some (a, b) ↦ some (c ∷ a, b)
  | none ↦ if c == d then some ([], cs) else none
]

-- `str::lines`: a `\r` is part of the line end only before `\n`
abbrev strip_cr : Text → Text
strip_cr t = elim (reverse t) [ [] ↦ [] | c ∷ r ↦ if c == 13 then reverse r else t ]

lines_onto : Text → Text → List Text
lines_onto line [] = if is_empty line then [] else line ∷ []
lines_onto line (c ∷ cs) = elim (c == 10) [
  | true ↦ strip_cr line ∷ lines_onto [] cs
  | false ↦ lines_onto (line ++ c ∷ []) cs
]

unfoldable pub lines : Text → List Text
unfolding lines_onto
lines = lines_onto []

words_onto : Text → Text → List Text
unfolding is_whitespace
words_onto word [] = if is_empty word then [] else word ∷ []
words_onto word (c ∷ cs) = elim (is_whitespace c) [
  | true ↦ let rest = words_onto [] cs in if is_empty word then rest else word ∷ rest
  | false ↦ words_onto (word ++ c ∷ []) cs
]

unfoldable pub split_whitespace : Text → List Text
unfolding words_onto
split_whitespace = words_onto []

-- `str::parse` to an unsigned integer below `bound`: an optional `+`, then digits, no overflow
parse_digits : ℕ → ℕ → Text → Option ℕ
parse_digits bound n [] = some n
parse_digits bound n (c ∷ cs) =
    let m = n * 10 + (c - b'0') in
    let rest = parse_digits bound m cs in if is_ascii_digit c && ltb m bound then rest else none

unfoldable pub parse_uint : ℕ → Text → Option ℕ
unfolding parse_digits
parse_uint bound [] = none
parse_uint bound (c ∷ cs) =
    if c == b'+'
    then (if is_empty cs then none else parse_digits bound 0 cs)
    else parse_digits bound 0 (c ∷ cs)
