-- ===== src/Ios/Wda/Base64/RoundTrip.antt =====
-- That `decode_base64` of crates/quadcontrol-ios/src/wda.rs takes the padding and reads back what was encoded.
use quad_control.Base.{
  ℕ, ◌+◌, ◌*◌, ◌/◌, ◌%◌, ◌≡◌, refl, ap, true, false, not, List, [], ◌∷◌, ◌++◌, ◌∙◌, some, ltb,
  filter, all, All, length, arith,
}
use quad_control.Base.Text.{Text}
use quad_control.Ios.Wda.Base64.{is_space, is_pad, before_pad, from_pad, decode_from, decode_base64}
use quad_control.Ios.Wda.Base64.Encoder.{
  symbols, pads, encode_base64, IsByte, symbol_plain, decode_from-symbols,
}

IsPlain : Text → Type 0
IsPlain = All (λ b. (is_space b ≡ false) × (is_pad b ≡ false))

symbols-IsPlain : (bs : Text) → All IsByte bs → IsPlain (symbols bs)
unfolding IsPlain
symbols-IsPlain [] h = tt
symbols-IsPlain (a ∷ []) h =
    (symbol_plain (a / 4) (omega (arith, h.0)), (symbol_plain (a % 4 * 16) (omega arith), tt))
symbols-IsPlain (a ∷ b ∷ []) h = (
  symbol_plain (a / 4) (omega (arith, h.0)),
  (
    symbol_plain (a % 4 * 16 + b / 16) (omega (arith, h.1.0)),
    (symbol_plain (b % 16 * 4) (omega arith), tt),
  ),
)
symbols-IsPlain (a ∷ b ∷ c ∷ bs) h = (
  symbol_plain (a / 4) (omega (arith, h.0)),
  (
    symbol_plain (a % 4 * 16 + b / 16) (omega (arith, h.1.0)),
    (
      symbol_plain (b % 16 * 4 + c / 64) (omega (arith, h.1.1.0)),
      (symbol_plain (c % 64) (omega arith), symbols-IsPlain bs h.1.1.1),
    ),
  ),
)

length-encoded : (bs : Text) → (length (symbols bs) + length (pads bs)) % 4 ≡ 0
length-encoded [] = refl
length-encoded (a ∷ []) = refl
length-encoded (a ∷ b ∷ []) = refl
length-encoded (a ∷ b ∷ c ∷ bs) = omega (arith, length-encoded bs)

-- plain text before padding: nothing is skipped, and it is told apart
IsPad : Text → Type 0
IsPad = All (λ b. b ≡ b'=')

plain_kept :
    (xs ps : Text) → IsPlain xs → IsPad ps → filter (λ b. not (is_space b)) (xs ++ ps) ≡ xs ++ ps
unfolding IsPlain IsPad
plain_kept [] [] h k = refl
plain_kept [] (p ∷ ps) h k = rw k.0 (ap {B = List ℕ} (λ r. b'=' ∷ r) (plain_kept [] ps tt k.1))
plain_kept (x ∷ xs) ps h k = rw h.0.0 (ap {B = List ℕ} (λ r. x ∷ r) (plain_kept xs ps h.1 k))

plain_before : (xs ps : Text) → IsPlain xs → IsPad ps → before_pad (xs ++ ps) ≡ xs
unfolding IsPlain IsPad before_pad
plain_before [] [] h k = refl
plain_before [] (p ∷ ps) h k = rw k.0 refl
plain_before (x ∷ xs) ps h k = rw h.0.1 (ap {B = List ℕ} (λ r. x ∷ r) (plain_before xs ps h.1 k))

plain_after : (xs ps : Text) → IsPlain xs → IsPad ps → from_pad (xs ++ ps) ≡ ps
unfolding IsPlain IsPad from_pad
plain_after [] [] h k = refl
plain_after [] (p ∷ ps) h k = rw k.0 refl
plain_after (x ∷ xs) ps h k = rw h.0.1 (plain_after xs ps h.1 k)

padded :
    (xs : Text) (ps : Text)
    → IsPlain xs
    → IsPad ps
    → all is_pad ps ≡ true
    → ltb 2 (length ps) ≡ false
    → (length xs + length ps) % 4 ≡ 0
    → decode_base64 (xs ++ ps) ≡ decode_from 0 0 xs
unfolding decode_base64
padded xs ps h k p two four =
    rw (plain_kept xs ps h k, plain_before xs ps h k, plain_after xs ps h k, p, two, four) refl

pads-ok :
    (bs : Text)
    → IsPad (pads bs) × (all is_pad (pads bs) ≡ true) × (ltb 2 (length (pads bs)) ≡ false)
unfolding IsPad
pads-ok [] = (tt, refl, refl)
pads-ok (a ∷ []) = ((refl, (refl, tt)), refl, refl)
pads-ok (a ∷ b ∷ []) = ((refl, tt), refl, refl)
pads-ok (a ∷ b ∷ c ∷ bs) = pads-ok bs

-- Bytes that are encoded as base64, with padding, are decoded to the same bytes.
pub decode_base64-encode : (bs : Text) → All IsByte bs → decode_base64 (encode_base64 bs) ≡ some bs
decode_base64-encode bs h =
    let (k, p, two) = pads-ok bs in
    padded (symbols bs) (pads bs) (symbols-IsPlain bs h) k p two (length-encoded bs)
    ∙ decode_from-symbols 0 bs h
