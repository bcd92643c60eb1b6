-- ===== src/Base/Text/Equality.antt =====
-- Equality of texts as a path.
use quad_control.Base.{◌≡◌, refl, ◌↔◌, true, [], ◌∷◌, ◌++◌, some, arith}
use quad_control.Base.Text.{Text, text_eq, strip_prefix}

pub text_eq_iff : (a b : Text) → (text_eq a b ≡ true) ↔ (a ≡ b)
unfolding text_eq
text_eq_iff [] [] = ground arith
text_eq_iff (x ∷ a) (y ∷ b) = ground (arith, text_eq_iff a b)
text_eq_iff [] (y ∷ b) = ground arith
text_eq_iff (x ∷ a) [] = ground arith

pub text_eq_refl : (a : Text) → text_eq a a ≡ true
text_eq_refl a = (text_eq_iff a a).1 refl

pub strip_prefix-append : (p t : Text) → strip_prefix p (p ++ t) ≡ some t
unfolding strip_prefix
strip_prefix-append [] t = refl
strip_prefix-append (c ∷ p) t = ground (arith, strip_prefix-append p t)

pub strip_prefix_iff : (p t r : Text) → (strip_prefix p t ≡ some r) ↔ (t ≡ p ++ r)
unfolding strip_prefix
strip_prefix_iff [] t r = ground arith
strip_prefix_iff (c ∷ p) [] r = ground arith
strip_prefix_iff (c ∷ p) (d ∷ t) r = ground (arith, strip_prefix_iff p t r)
