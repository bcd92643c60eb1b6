-- ===== src/Ios/GoIos/Apps.antt =====
-- `installed_apps` and `parse_installed_apps` of crates/quadcontrol-ios/src/lib.rs.
use quad_control.Base.{
  ◌-◌, ◌≤◌, ◌≡◌, Option-cases, Bool, true, false, List, [], ◌∷◌, ◌++◌, Option, none, some, Result,
  ok, err, any, All, ◌==◌, if◌then◌else◌, take, length, filter_map, arith, Bool-cases, inl, inr,
}
use quad_control.Base.Text.{Text, lines, split_whitespace}
use quad_control.Os.{IoError, ExitStatus, other}
use quad_control.Ios.Error.{Error, process}
use quad_control.Ios.GoIos.{succeeded, not_run}

pub record InstalledApp : Type 0 where
  pub bundle_id : Text
  pub name : Text

-- `join(" ")`
unfoldable pub join : List Text → Text
join [] = []
join (t ∷ []) = t
join (t ∷ u ∷ rest) = t ++ b' ' ∷ join (u ∷ rest)

abbrev pub has_dot : Text → Bool
has_dot = any (λ c. c == b'.')

abbrev pub init : List Text → List Text
init ts = take (length ts - 1) ts

unfoldable pub app_of_tokens : List Text → Option InstalledApp
unfolding join
app_of_tokens [] = none
app_of_tokens (a ∷ []) = none
app_of_tokens (a ∷ b ∷ rest) =
    if has_dot a then some (record { bundle_id = a; name = join (init (b ∷ rest)) }) else none

unfoldable pub parse_installed_apps : Text → List InstalledApp
unfolding lines split_whitespace app_of_tokens
parse_installed_apps stdout =
    filter_map (λ line. app_of_tokens (split_whitespace line)) (lines stdout)

-- Given whether the command was killed at its time limit, its status and its output. An `io::Error` that
-- carries a text is kept as its kind.
unfoldable pub installed_apps :
    Text → Result (Bool × ExitStatus × Text) IoError → Result (List InstalledApp) Error
unfolding not_run parse_installed_apps
installed_apps ios (err e) = err (not_run ios e)
installed_apps ios (ok (true, status, stdout)) = err (process (other 1))
installed_apps ios (ok (false, status, stdout)) =
    if succeeded status then ok (parse_installed_apps stdout) else err (process (other 2))

-- what holds of a value, if there is one
abbrev Each : (InstalledApp → Type 0) → Option InstalledApp → Type 0
Each P none = Unit
Each P (some app) = P app

abbrev pub IsIdentified : InstalledApp → Type 0
IsIdentified app = has_dot app.bundle_id ≡ true

app_of_tokens-Each : (ts : List Text) → Each IsIdentified (app_of_tokens ts)
unfolding app_of_tokens
app_of_tokens-Each [] = tt
app_of_tokens-Each (a ∷ []) = tt
app_of_tokens-Each (a ∷ b ∷ rest) = elim (Bool-cases (has_dot a)) [
  | inl d ↦ rw d d
  | inr d ↦ rw d tt
]

filter_map-All :
    {A : Type 0} (P : InstalledApp → Type 0) (f : A → Option InstalledApp) (xs : List A)
    → ((x : A) → Each P (f x))
    → All P (filter_map f xs) × (length (filter_map f xs) ≤ length xs)
filter_map-All P f [] h = (tt, omega arith)
filter_map-All P f (x ∷ xs) h =
    let (rest, shorter) = filter_map-All P f xs h in
    elim (Option-cases (f x)) [
      | inl e ↦ rw (e, filter_map) (rest, omega (arith, shorter))
      | inr (app, e) ↦
          let holds : P app = rw e at (h x) in
          rw (e, filter_map) ((holds, rest), omega (arith, shorter))
    ]

-- Each application that is read has an identity with a dot in it, and there is at most one for a line.
pub parse_installed_apps-All :
    (stdout : Text)
    → All IsIdentified (parse_installed_apps stdout)
      × (length (parse_installed_apps stdout) ≤ length (lines stdout))
unfolding parse_installed_apps
parse_installed_apps-All stdout =
    filter_map-All IsIdentified (λ line. app_of_tokens (split_whitespace line)) (lines stdout)
      (λ line. app_of_tokens-Each (split_whitespace line))
