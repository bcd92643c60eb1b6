-- ===== src/Gui/Recent.antt =====
-- `remember_recent_app` of crates/quadcontrol-gui/src-tauri/src/lib.rs.
pub mod Laws
pub mod Names
use quad_control.Base.{
  ℕ, Bool, true, false, not, ◌||◌, List, [], ◌∷◌, Option, none, some, if◌then◌else◌, filter, find,
  take, is_empty,
}
use quad_control.Base.Text.{Text, codes, text_eq, eq_ignore_ascii_case, rsplit_once, trim}

pub record RecentApp : Type 0 where
  pub bundle_id : Text
  pub name : Option Text

-- `installed.and_then(|map| map.get(bundle_id).cloned())`
name_of : Text → List (Text × Text) → Option Text
unfolding text_eq
name_of id map = elim (find (λ entry. text_eq entry.0 id) map) [
  | none ↦ none
  | some entry ↦ some entry.1
]

abbrev installed_name : Text → Option (List (Text × Text)) → Option Text
installed_name id none = none
installed_name id (some map) = name_of id map

-- what the list does not keep
unfoldable pub is_ignored : Text → Bool
unfolding eq_ignore_ascii_case
is_ignored id = is_empty id || eq_ignore_ascii_case id (codes "com.apple.springboard")

abbrev pub has_id : Text → RecentApp → Bool
has_id id app = text_eq app.bundle_id id

abbrev pub without : Text → List RecentApp → List RecentApp
without id list = filter (λ app. not (has_id id app)) list

unfoldable pub remember_recent_app :
    List RecentApp → Text → Option (List (Text × Text)) → List RecentApp
unfolding is_ignored name_of text_eq
remember_recent_app list id installed =
    if is_ignored id
    then list
    else take 8 (record { bundle_id = id; name = installed_name id installed } ∷ without id list)

-- the part behind the last dot, where there is one; otherwise the whole
abbrev segment_of : Text → Option (Text × Text) → Text
segment_of bundle_id none = bundle_id
segment_of bundle_id (some (before, segment)) = if is_empty segment then bundle_id else segment

fallback_app_name : Text → Text
unfolding rsplit_once
fallback_app_name bundle_id = segment_of bundle_id (rsplit_once b'.' bundle_id)

-- `name.or(…)`
abbrev or_else : Option Text → Option Text → Option Text
or_else none later = later
or_else (some name) later = some name

abbrev named : Text → Option Text → Text
named fallback none = fallback
named fallback (some value) = if is_empty (trim value) then fallback else value

unfoldable pub app_display_name : Text → Option Text → Option (List (Text × Text)) → Text
unfolding fallback_app_name name_of trim
app_display_name bundle_id name installed =
    named (fallback_app_name bundle_id) (or_else name (installed_name bundle_id installed))
