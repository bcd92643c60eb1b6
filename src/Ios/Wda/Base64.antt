-- ===== src/Ios/Wda/Base64.antt =====
-- `decode_base64` and `screenshot_png` of crates/quadcontrol-ios/src/wda.rs; texts are bytes here.
pub mod Encoder
pub mod RoundTrip
use quad_control.Base.{
  ℕ, ◌+◌, ◌-◌, ◌*◌, ◌/◌, ◌%◌, ◌^◌, Bool, true, false, not, ◌&&◌, ◌||◌, List, [], ◌∷◌, Option, none,
  some, ltb, leb, ◌==◌, if◌then◌else◌, filter, all, length,
}
use quad_control.Base.Text.{Text, codes}
use quad_control.Ios.Error.{Error, screenshot_failed}
use quad_control.Ios.Wda.{Device, Call, or_raise, map_err, ◌>>=◌, get_raw}
use quad_control.Ios.Wda.Client.{and_then}

unfoldable pub sextet : ℕ → Option ℕ
sextet c =
    if leb b'A' c && leb c b'Z'
    then some (c - b'A')
    else if leb b'a' c && leb c b'z'
    then some (c - b'a' + 26)
    else if leb b'0' c && leb c b'9'
    then some (c - b'0' + 52)
    else if c == b'+'
    then some 62
    else if c == b'/'
    then some 63
    else none

-- `is_ascii_whitespace`
abbrev pub is_space : ℕ → Bool
is_space b = b == 0x20 || b == 0x09 || b == 0x0a || b == 0x0c || b == 0x0d

abbrev pub is_pad : ℕ → Bool
is_pad b = b == b'='

-- the bytes before the first `=`, and the rest
unfoldable pub before_pad : Text → Text
before_pad [] = []
before_pad (b ∷ bs) = if is_pad b then [] else b ∷ before_pad bs

unfoldable pub from_pad : Text → Text
from_pad [] = []
from_pad (b ∷ bs) = if is_pad b then b ∷ bs else from_pad bs

abbrev pub push_bits : Option Text → ℕ → Option Text
push_bits none b = none
push_bits (some bs) b = some (b ∷ bs)

-- The loop: the accumulator has 32 bits, and what is shifted out of it is lost. At the end the bits that
-- are left must be zero.
unfoldable pub decode_from : ℕ → ℕ → Text → Option Text
unfolding sextet
decode_from accumulator bits [] = if accumulator % 2 ^ bits == 0 then some [] else none
decode_from accumulator bits (b ∷ bs) = elim (sextet b) [
  | none ↦ none
  | some s ↦
      let acc = (accumulator * 64 + s) % 2 ^ 32 in
      if leb 8 (bits + 6)
      then push_bits (decode_from acc (bits + 6 - 8) bs) (acc / 2 ^ (bits + 6 - 8) % 256)
      else decode_from acc (bits + 6) bs
]

unfoldable pub decode_base64 : Text → Option Text
unfolding decode_from before_pad from_pad
decode_base64 input =
    let cleaned = filter (λ b. not (is_space b)) input in
    let payload = before_pad cleaned in
    let padding = from_pad cleaned in
    if not (all is_pad padding) || ltb 2 (length padding)
    then none
    else if (length payload + length padding) % 4 == 0
    then decode_from 0 0 payload
    else none

module _ {S J F : Type 0} (d : Device S J F) where
  unfoldable pub screenshot_png : Call S F Error Text
  unfolding get_raw decode_base64
  screenshot_png = do
    answer ← map_err screenshot_failed (get_raw d (codes "/screenshot"))
    encoded ←
        or_raise (and_then (d.field (codes "value") answer) d.as_str)
          (screenshot_failed (codes "screenshot response has no value"))
    or_raise (decode_base64 encoded) (screenshot_failed (codes "screenshot was not valid base64"))
