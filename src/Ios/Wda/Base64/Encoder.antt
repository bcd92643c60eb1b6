-- ===== src/Ios/Wda/Base64/Encoder.antt =====
-- An encoder for base64 (RFC 4648), and that `decode_base64` of crates/quadcontrol-ios/src/wda.rs is its inverse.
use quad_control.Base.{
  ℕ, ◌+◌, ◌-◌, ◌*◌, ◌/◌, ◌%◌, ◌^◌, ◌<◌, ◌≡◌, refl, false, [], ◌∷◌, ◌++◌, some, ltb, ◌==◌,
  if◌then◌else◌, All, arith,
}
use quad_control.Base.Text.{Text}
use quad_control.Ios.Wda.Base64.{sextet, is_space, is_pad, push_bits, decode_from}

abbrev pub symbol : ℕ → ℕ
symbol s =
    if ltb s 26
    then s + b'A'
    else if ltb s 52
    then s - 26 + b'a'
    else if ltb s 62
    then s - 52 + b'0'
    else if s == 62
    then b'+'
    else b'/'

-- the symbols, without and with the padding
abbrev pub symbols : Text → Text
symbols [] = []
symbols (a ∷ []) = symbol (a / 4) ∷ symbol (a % 4 * 16) ∷ []
symbols (a ∷ b ∷ []) = symbol (a / 4) ∷ symbol (a % 4 * 16 + b / 16) ∷ symbol (b % 16 * 4) ∷ []
symbols (a ∷ b ∷ c ∷ bs) =
    symbol (a / 4)
    ∷ symbol (a % 4 * 16 + b / 16)
    ∷ symbol (b % 16 * 4 + c / 64)
    ∷ symbol (c % 64)
    ∷ symbols bs

abbrev pub pads : Text → Text
pads [] = []
pads (a ∷ []) = b'=' ∷ b'=' ∷ []
pads (a ∷ b ∷ []) = b'=' ∷ []
pads (a ∷ b ∷ c ∷ bs) = pads bs

abbrev pub encode_base64 : Text → Text
encode_base64 bs = symbols bs ++ pads bs

abbrev pub IsByte : ℕ → Type 0
IsByte b = b < 256

sextet-symbol : (s : ℕ) → s < 64 → sextet (symbol s) ≡ some s
unfolding sextet
sextet-symbol s lt = ground arith

pub symbol_plain : (s : ℕ) → s < 64 → (is_space (symbol s) ≡ false) × (is_pad (symbol s) ≡ false)
symbol_plain s lt = ground arith

abbrev next : ℕ → ℕ → ℕ
next acc s = (acc * 64 + s) % 2 ^ 32

-- what the next six bits do, for each number of bits that are left
step_0 :
    (acc s : ℕ) (r : Text)
    → s < 64
    → decode_from acc 0 (symbol s ∷ r) ≡ decode_from (next acc s) 6 r
unfolding decode_from
step_0 acc s r lt = rw (sextet-symbol s lt, decode_from) refl

step_6 :
    (acc s : ℕ) (r : Text)
    → s < 64
    → decode_from acc 6 (symbol s ∷ r)
      ≡ push_bits (decode_from (next acc s) 4 r) (next acc s / 16 % 256)
unfolding decode_from
step_6 acc s r lt = rw (sextet-symbol s lt, decode_from) refl

step_4 :
    (acc s : ℕ) (r : Text)
    → s < 64
    → decode_from acc 4 (symbol s ∷ r)
      ≡ push_bits (decode_from (next acc s) 2 r) (next acc s / 4 % 256)
unfolding decode_from
step_4 acc s r lt = rw (sextet-symbol s lt, decode_from) refl

step_2 :
    (acc s : ℕ) (r : Text)
    → s < 64
    → decode_from acc 2 (symbol s ∷ r)
      ≡ push_bits (decode_from (next acc s) 0 r) (next acc s / 1 % 256)
unfolding decode_from
step_2 acc s r lt = rw (sextet-symbol s lt, decode_from) refl

next_6 : (acc s : ℕ) → s < 64 → next acc s % 64 ≡ s
next_6 acc s lt = omega arith

next_4 :
    (acc a s t : ℕ)
    → a < 256
    → t < 16
    → s ≡ a % 4 * 16 + t
    → acc % 64 ≡ a / 4
    → (next acc s / 16 % 256 ≡ a) × (next acc s % 16 ≡ t)
next_4 acc a s t la lt es e = (omega arith, omega arith)

next_2 :
    (acc b s t : ℕ)
    → b < 256
    → t < 4
    → s ≡ b % 16 * 4 + t
    → acc % 16 ≡ b / 16
    → (next acc s / 4 % 256 ≡ b) × (next acc s % 4 ≡ t)
next_2 acc b s t lb lt es e = (omega arith, omega arith)

next_0 : (acc c : ℕ) → c < 256 → acc % 4 ≡ c / 64 → next acc (c % 64) / 1 % 256 ≡ c
next_0 acc c lc e = omega arith

-- two symbols for the first byte, the second with `t` behind it
first_byte :
    (acc a s t : ℕ) (r : Text)
    → a < 256
    → t < 16
    → s ≡ a % 4 * 16 + t
    → (x : ℕ) × (decode_from acc 0 (symbol (a / 4) ∷ symbol s ∷ r)
        ≡ push_bits (decode_from x 4 r) a)
      × (x % 16 ≡ t)
first_byte acc a s t r la lt es =
    let acc₁ = next acc (a / 4) in
    let (out, low) = next_4 acc₁ a s t la lt es (next_6 acc (a / 4) (omega arith)) in
    (
      next acc₁ s,
      rw (step_0 acc (a / 4) (symbol s ∷ r) (omega arith), step_6 acc₁ s r (omega arith), out) refl,
      low,
    )

second_byte :
    (acc b s t : ℕ) (r : Text)
    → b < 256
    → t < 4
    → s ≡ b % 16 * 4 + t
    → acc % 16 ≡ b / 16
    → (x : ℕ) × (decode_from acc 4 (symbol s ∷ r) ≡ push_bits (decode_from x 2 r) b) × (x % 4 ≡ t)
second_byte acc b s t r lb lt es e =
    let (out, low) = next_2 acc b s t lb lt es e in
    (next acc s, rw (step_4 acc s r (omega arith), out) refl, low)

-- the end of the loop
left_zero : (acc bits : ℕ) → acc % 2 ^ bits ≡ 0 → decode_from acc bits [] ≡ some []
unfolding decode_from
left_zero acc bits e = rw e refl

pub decode_from-symbols :
    (acc : ℕ) (bs : Text) → All IsByte bs → decode_from acc 0 (symbols bs) ≡ some bs
decode_from-symbols acc [] h = left_zero acc 0 (omega arith)
decode_from-symbols acc (a ∷ []) h =
    let (x, e, low) = first_byte acc a (a % 4 * 16) 0 [] h.0 (omega arith) (omega arith) in
    rw (e, left_zero x 4 low) refl
decode_from-symbols acc (a ∷ b ∷ []) h =
    let s = a % 4 * 16 + b / 16 in
    let (x, e, low) =
      first_byte acc a s (b / 16) (symbol (b % 16 * 4) ∷ []) h.0 (omega (arith, h.1.0)) refl in
    let (y, e₂, low₂) = second_byte x b (b % 16 * 4) 0 [] h.1.0 (omega arith) (omega arith) low in
    rw (e, e₂, left_zero y 2 low₂) refl
decode_from-symbols acc (a ∷ b ∷ c ∷ bs) h =
    let s = a % 4 * 16 + b / 16 in
    let t = b % 16 * 4 + c / 64 in
    let r = symbol (c % 64) ∷ symbols bs in
    let (x, e, low) = first_byte acc a s (b / 16) (symbol t ∷ r) h.0 (omega (arith, h.1.0)) refl in
    let (y, e₂, low₂) = second_byte x b t (c / 64) r h.1.0 (omega (arith, h.1.1.0)) refl low in
    rw
      (
        e,
        e₂,
        step_2 y (c % 64) (symbols bs) (omega arith),
        next_0 y c h.1.1.0 low₂,
        decode_from-symbols (next y (c % 64)) bs h.1.1.1,
      )
      refl
