-- ===== src/Base/Text/Map.antt =====
-- `HashMap` with texts as keys, as an association list. The order of `iter` and `drain` is this
-- list's; no theorem depends on it.
use quad_control.Base.{
  ◌≡◌, refl, Bool, true, List, [], ◌∷◌, Option, none, some, arith, if◌then◌else◌, any, Bool-cases,
  inl, inr,
}
use quad_control.Base.Text.{Text, text_eq}
use quad_control.Base.Text.Equality.{text_eq_iff}

module _ {ℓ} {V : Type ℓ} where
  unfoldable pub get : Text → List (Text × V) → Option V
  get k [] = none
  get k ((j, v) ∷ m) = if text_eq j k then some v else get k m

  unfoldable pub insert : Text → V → List (Text × V) → List (Text × V)
  insert k v [] = (k, v) ∷ []
  insert k v ((j, w) ∷ m) = if text_eq j k then (j, v) ∷ m else (j, w) ∷ insert k v m

  unfoldable pub remove : Text → List (Text × V) → List (Text × V)
  remove k [] = []
  remove k ((j, w) ∷ m) = let rest = remove k m in if text_eq j k then rest else (j, w) ∷ rest

  pub get-insert :
      (j k : Text) (v : V) (m : List (Text × V))
      → get j (insert k v m) ≡ (if text_eq k j then some v else get j m)
  unfolding get insert
  get-insert j k v [] = refl
  get-insert j k v ((i, w) ∷ m) =
      ground (arith, text_eq_iff k j, text_eq_iff i k, text_eq_iff i j, get-insert j k v m)

  pub get-remove :
      (j k : Text) (m : List (Text × V))
      → get j (remove k m) ≡ (if text_eq k j then none else get j m)
  unfolding get remove
  get-remove j k [] = ground arith
  get-remove j k ((i, w) ∷ m) =
      ground (arith, text_eq_iff k j, text_eq_iff i k, text_eq_iff i j, get-remove j k m)

  any-later :
      (e : Text × V) (p : V → Bool) (m : List (Text × V))
      → any (λ e. p e.1) m ≡ true
      → any (λ e. p e.1) (e ∷ m) ≡ true
  any-later e p m h = ground arith

  -- A value that is found is among the values of the map.
  pub get-any :
      (p : V → Bool) (k : Text) (v : V) (m : List (Text × V))
      → p v ≡ true
      → get k m ≡ some v
      → any (λ e. p e.1) m ≡ true
  unfolding get
  get-any p k v [] q h = cc
  get-any p k v ((i, w) ∷ m) q h = elim (Bool-cases (text_eq i k)) [
    | inl e ↦ ground arith
    | inr e ↦ any-later (i, w) p m (get-any p k v m q (ground arith))
  ]
