-- ===== src/Base/Text/Decimal.antt =====
-- Printing a number in decimal, and its inverse.
pub mod Laws
use quad_control.Base.{ℕ, zero, suc, ◌+◌, ◌/◌, ◌%◌, ◌≡◌, refl, [], ◌∷◌, ltb, if◌then◌else◌}
use quad_control.Base.Text.{Text}

decimal_onto : ℕ → ℕ → Text → Text
decimal_onto zero n t = t
decimal_onto (suc f) n t =
    let rest = decimal_onto f (n / 10) ((b'0' + n % 10) ∷ t) in
    if ltb n 10 then (b'0' + n) ∷ t else rest

-- The `Display` of an unsigned integer. A number has fewer digits than its value plus two.
unfoldable pub decimal : ℕ → Text
unfolding decimal_onto
decimal n = decimal_onto (suc n) n []

decimal_run : decimal 1207 ≡ b'1' ∷ b'2' ∷ b'0' ∷ b'7' ∷ []
unfolding decimal
decimal_run = refl
