-- ===== src/Gui/Recent/Laws.antt =====
-- The list of recent applications of crates/quadcontrol-gui/src-tauri/src/lib.rs, and the history of
-- those seen.
use quad_control.Base.{
  ℕ, zero, suc, ◌≡◌, refl, sym, ap, ◌∙◌, Bool, true, not, List, [], ◌∷◌, map, Option, if◌then◌else◌,
  arith, filter, take, Bool-cases, inl, inr, all, all-filter, all-filter_self, all-take, filter-all,
  take-take,
}
use quad_control.Base.Text.{Text, text_eq}
use quad_control.Base.Text.Equality.{text_eq_iff}
use quad_control.Gui.Recent.{RecentApp, has_id, without, is_ignored, remember_recent_app}

abbrev pub Installed : Type 0
Installed = Option (List (Text × Text))

abbrev pub ids : List RecentApp → List Text
ids = map (λ app. app.bundle_id)

-- the applications seen, the last one first
unfoldable pub remember_all : List (Text × Installed) → List RecentApp
unfolding remember_recent_app
remember_all [] = []
remember_all ((id, installed) ∷ seen) = remember_recent_app (remember_all seen) id installed

abbrev pub differs : Text → Text → Bool
differs id other = not (text_eq other id)

-- The same without a limit: each application that is not ignored, once, at its last place.
unfoldable pub history : List (Text × Installed) → List Text
unfolding text_eq is_ignored
history [] = []
history ((id, installed) ∷ seen) =
    let before = history seen in if is_ignored id then before else id ∷ filter (differs id) before

Distinct : List Text → Type 0
Distinct [] = Unit
Distinct (id ∷ rest) = (all (differs id) rest ≡ true) × Distinct rest

Distinct-filter : (q : Text → Bool) (list : List Text) → Distinct list → Distinct (filter q list)
unfolding Distinct
Distinct-filter q [] h = h
Distinct-filter q (x ∷ list) (h, rest) = elim (Bool-cases (q x)) [
  | inl e ↦ rw e (all-filter (differs x) q list h, Distinct-filter q list rest)
  | inr e ↦ rw e (Distinct-filter q list rest)
]

history-Distinct : (seen : List (Text × Installed)) → Distinct (history seen)
unfolding history Distinct
history-Distinct [] = tt
history-Distinct ((id, installed) ∷ seen) = elim (Bool-cases (is_ignored id)) [
  | inl e ↦ rw e (history-Distinct seen)
  | inr e ↦ rw e (
    all-filter_self (differs id) (history seen),
    Distinct-filter (differs id) (history seen) (history-Distinct seen),
  )
]

ids-take : (n : ℕ) (list : List RecentApp) → ids (take n list) ≡ take n (ids list)
ids-take zero list = refl
ids-take (suc n) [] = refl
ids-take (suc n) (app ∷ list) = ground (arith, ids-take n list)

ids-without :
    (id : Text) (list : List RecentApp) → ids (without id list) ≡ filter (differs id) (ids list)
ids-without id [] = refl
ids-without id (app ∷ list) = elim (Bool-cases (has_id id app)) [
  | inl e ↦ rw e (ids-without id list)
  | inr e ↦ rw e (ground (arith, ids-without id list))
]

take-filter :
    (n : ℕ) (id : Text) (list : List Text)
    → Distinct list
    → take n (filter (differs id) (take (suc n) list)) ≡ take n (filter (differs id) list)
unfolding Distinct
take-filter n id [] h = refl
take-filter zero id (x ∷ list) h = refl
take-filter (suc n) id (x ∷ list) (h, rest) = elim (Bool-cases (text_eq x id)) [
  | inr e ↦ rw e (ground (arith, take-filter n id list rest))
  | inl e ↦
      let same = (text_eq_iff x id).0 e in
      let h' : all (differs id) list ≡ true = rw (sym same) h in
      rw
        (
          e,
          filter-all (differs id) list h',
          filter-all (differs id) (take (suc n) list) (all-take (differs id) (suc n) list h'),
        )
        (take-take (suc n) list)
]

remembered :
    (id : Text) (seen : List (Text × Installed))
    → ids (remember_all seen) ≡ take 8 (history seen)
    → ids (take 7 (without id (remember_all seen))) ≡ take 7 (filter (differs id) (history seen))
remembered id seen before =
    ids-take 7 (without id (remember_all seen))
    ∙ ap (take 7) (ids-without id (remember_all seen))
    ∙ rw before (take-filter 7 id (history seen) (history-Distinct seen))

-- After any sequence of applications seen, the list holds the eight seen last, each once and the
-- last one first, of those that are not ignored.
pub remember_all-history :
    (seen : List (Text × Installed)) → ids (remember_all seen) ≡ take 8 (history seen)
unfolding remember_all remember_recent_app history
remember_all-history [] = refl
remember_all-history ((id, installed) ∷ seen) = elim (Bool-cases (is_ignored id)) [
  | inl e ↦ rw e (remember_all-history seen)
  | inr e ↦ rw e (ap {B = List Text} (λ r. id ∷ r) (remembered id seen (remember_all-history seen)))
]
