-- ===== src/Gui/Recent/Names.antt =====
-- The name on the button of an application, in crates/quadcontrol-gui/src-tauri/src/lib.rs.
use quad_control.Base.{
  ◌≡◌, refl, true, false, List, [], ◌∷◌, Option, none, some, is_empty, Bool-cases, inl, inr,
}
use quad_control.Base.Text.{Text, rsplit_once, trim}
use quad_control.Gui.Recent.{
  segment_of, fallback_app_name, named, or_else, installed_name, app_display_name,
}

segment_of-filled :
    (id : Text) (parts : Option (Text × Text))
    → is_empty id ≡ false
    → is_empty (segment_of id parts) ≡ false
segment_of-filled id none h = h
segment_of-filled id (some (before, [])) h = h
segment_of-filled id (some (before, c ∷ segment)) h = refl

fallback_app_name-filled :
    (id : Text) → is_empty id ≡ false → is_empty (fallback_app_name id) ≡ false
unfolding fallback_app_name
fallback_app_name-filled id h = segment_of-filled id (rsplit_once b'.' id) h

trim_empty : is_empty (trim []) ≡ true
unfolding trim
trim_empty = refl

named-filled :
    (fallback : Text) (name : Option Text)
    → is_empty fallback ≡ false
    → is_empty (named fallback name) ≡ false
named-filled fallback none h = h
named-filled fallback (some []) h = rw trim_empty h
named-filled fallback (some (c ∷ cs)) h = elim (Bool-cases (is_empty (trim (c ∷ cs)))) [
  | inl e ↦ rw e h
  | inr e ↦ rw e refl
]

-- An application with an identity has a name that is not empty, whatever name was noted for it and
-- whatever the list of the installed ones holds.
pub app_display_name-filled :
    (id : Text) (name : Option Text) (installed : Option (List (Text × Text)))
    → is_empty id ≡ false
    → is_empty (app_display_name id name installed) ≡ false
unfolding app_display_name
app_display_name-filled id name installed h =
    named-filled (fallback_app_name id) (or_else name (installed_name id installed))
      (fallback_app_name-filled id h)
