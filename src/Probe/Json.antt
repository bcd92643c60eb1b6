-- ===== src/Probe/Json.antt =====
-- `json_escape` of agents/android-shell/adb-probe/src/lib.rs, and a reader of what it writes.
use quad_control.Base.{
  ℕ, zero, suc, ◌+◌, ◌-◌, ◌*◌, ◌/◌, ◌%◌, ◌≤◌, ◌<◌, ◌≡◌, refl, sym, ap, ◌∙◌, true, false, [], ◌∷◌,
  ◌++◌, Option, none, some, arith, ltb, leb, ◌==◌, if◌then◌else◌, Bool-cases, inl, inr, ==_iff,
  leb→le,
}
use quad_control.Base.Text.{Text}

-- a digit of `{:x}`
hex_digit : ℕ → ℕ
hex_digit d = if ltb d 10 then b'0' + d else b'a' + (d - 10)

-- `{:04x}` of a control character
abbrev hex4 : ℕ → Text
hex4 c = b'0' ∷ b'0' ∷ hex_digit (c / 16) ∷ hex_digit (c % 16) ∷ []

unfoldable pub escape_char : ℕ → Text
unfolding hex_digit
escape_char c =
    if c == b'"'
    then b'\\' ∷ b'"' ∷ []
    else if c == b'\\'
    then b'\\' ∷ b'\\' ∷ []
    else if c == 10
    then b'\\' ∷ b'n' ∷ []
    else if c == 13
    then b'\\' ∷ b'r' ∷ []
    else if c == 9
    then b'\\' ∷ b't' ∷ []
    else if c == 8
    then b'\\' ∷ b'b' ∷ []
    else if c == 12
    then b'\\' ∷ b'f' ∷ []
    else if leb c 0x1f
    then b'\\' ∷ b'u' ∷ hex4 c
    else c ∷ []

unfoldable pub json_escape : Text → Text
unfolding escape_char
json_escape [] = []
json_escape (c ∷ cs) = escape_char c ++ json_escape cs

-- A reader of JSON strings: in the text, behind a backslash, or among the digits of `\u`.
pub data Mode : Type 0 where
  plain slash : Mode
  digits : (left value : ℕ) → Mode

abbrev prepend : ℕ → Option Text → Option Text
prepend c none = none
prepend c (some t) = some (c ∷ t)

hex_value : ℕ → ℕ
hex_value c = if leb c b'9' then c - b'0' else c - b'a' + 10

-- the character that a letter behind a backslash stands for
escaped : ℕ → ℕ
escaped c =
    if c == b'n'
    then 10
    else if c == b'r'
    then 13
    else if c == b't'
    then 9
    else if c == b'b'
    then 8
    else if c == b'f'
    then 12
    else c

unfoldable pub read_json : Mode → Text → Option Text
unfolding hex_value escaped
read_json plain [] = some []
read_json slash [] = none
read_json (digits left value) [] = none
read_json plain (c ∷ cs) =
    let behind = read_json slash cs in
    let rest = read_json plain cs in
    if c == b'\\'
    then behind
    else if c == b'"'
    then none
    else if leb c 0x1f
    then none
    else prepend c rest
read_json slash (c ∷ cs) =
    let rest = read_json plain cs in
    let code = read_json (digits 3 0) cs in if c == b'u' then code else prepend (escaped c) rest
read_json (digits zero value) (c ∷ cs) = prepend (value * 16 + hex_value c) (read_json plain cs)
read_json (digits (suc left) value) (c ∷ cs) = read_json (digits left (value * 16 + hex_value c)) cs

hex_value-hex_digit : (d : ℕ) → d < 16 → hex_value (hex_digit d) ≡ d
unfolding hex_value hex_digit
hex_value-hex_digit d h = ground arith

control-read :
    (c : ℕ) (rest : Text)
    → c ≤ 0x1f
    → read_json plain (b'\\' ∷ b'u' ∷ (hex4 c ++ rest)) ≡ prepend c (read_json plain rest)
unfolding read_json hex_value
control-read c rest h =
    ap (λ x. prepend x (read_json plain rest))
      (rw (hex_value-hex_digit (c / 16) (omega arith), hex_value-hex_digit (c % 16) (omega arith))
        (omega arith))

same :
    (c d : ℕ) (rest : Text)
    → (c == d) ≡ true
    → prepend d (read_json plain rest) ≡ prepend c (read_json plain rest)
same c d rest h = ap (λ x. prepend x (read_json plain rest)) (sym ((==_iff c d).0 h))

plain-read :
    (c : ℕ) (rest : Text)
    → (c == b'\\') ≡ false
    → (c == b'"') ≡ false
    → leb c 0x1f ≡ false
    → read_json plain (c ∷ rest) ≡ prepend c (read_json plain rest)
unfolding read_json
plain-read c rest e₁ e₂ e₃ = rw (e₁, e₂, e₃) refl

escape_char-read :
    (c : ℕ) (rest : Text)
    → read_json plain (escape_char c ++ rest) ≡ prepend c (read_json plain rest)
unfolding read_json escape_char
escape_char-read c rest = elim (Bool-cases (c == b'"')) [
  | inl e₁ ↦ rw (e₁) (same c b'"' rest e₁)
  | inr e₁ ↦ elim (Bool-cases (c == b'\\')) [
    | inl e₂ ↦ rw (e₁, e₂) (same c b'\\' rest e₂)
    | inr e₂ ↦ elim (Bool-cases (c == 10)) [
      | inl e₃ ↦ rw (e₁, e₂, e₃) (same c 10 rest e₃)
      | inr e₃ ↦ elim (Bool-cases (c == 13)) [
        | inl e₄ ↦ rw (e₁, e₂, e₃, e₄) (same c 13 rest e₄)
        | inr e₄ ↦ elim (Bool-cases (c == 9)) [
          | inl e₅ ↦ rw (e₁, e₂, e₃, e₄, e₅) (same c 9 rest e₅)
          | inr e₅ ↦ elim (Bool-cases (c == 8)) [
            | inl e₆ ↦ rw (e₁, e₂, e₃, e₄, e₅, e₆) (same c 8 rest e₆)
            | inr e₆ ↦ elim (Bool-cases (c == 12)) [
              | inl e₇ ↦ rw (e₁, e₂, e₃, e₄, e₅, e₆, e₇) (same c 12 rest e₇)
              | inr e₇ ↦ elim (Bool-cases (leb c 0x1f)) [
                | inl e ↦ rw (e₁, e₂, e₃, e₄, e₅, e₆, e₇, e) (control-read c rest (leb→le c 0x1f e))
                | inr e ↦ rw (e₁, e₂, e₃, e₄, e₅, e₆, e₇, e) (plain-read c rest e₂ e₁ e)
              ]
            ]
          ]
        ]
      ]
    ]
  ]
]

-- Every text, whatever characters it holds, is written so that a reader of JSON strings, which takes no
-- bare quote and no control character, reads the same text back.
pub json_escape-read : (t : Text) → read_json plain (json_escape t) ≡ some t
unfolding json_escape read_json
json_escape-read [] = refl
json_escape-read (c ∷ cs) =
    escape_char-read c (json_escape cs) ∙ ap (prepend c) (json_escape-read cs)
