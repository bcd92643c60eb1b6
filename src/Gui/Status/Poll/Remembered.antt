-- ===== src/Gui/Status/Poll/Remembered.antt =====
-- What the panel of the iPhone remembers over the turns of one session, for `ios_session_status` of
-- crates/quadcontrol-gui/src-tauri/src/lib.rs.
use quad_control.Base.{
  ℕ, ◌%◌, ◌^◌, ◌≡◌, Bool, true, false, List, [], ◌∷◌, map, Option, none, some, Result, ◌==◌, length,
}
use quad_control.Base.Text.{Text}
use quad_control.Ios.Session.{running}
use quad_control.Ios.Wda.Actions.{ActiveApp}
use quad_control.Gui.Recent.Laws.{Installed, remember_all}
use quad_control.Gui.Status.{Panel, default}
use quad_control.Gui.Status.Poll.{Turn, Answers, answers_of, or_else, ios_session_status}

-- a turn that finds the session running and a client given
pub record Running : Type 0 where
  pub port : ℕ
  pub frames : ℕ
  pub now : ℕ
  pub answers : Result Answers (Unit {0})

abbrev pub turn_in : ℕ → Running → Turn
turn_in id r = record {
  status = running r.port;
  session_id = id;
  frames = r.frames;
  now = r.now;
  client = some r.answers;
}

module _ (rate : ℕ → ℕ → ℕ) (id : ℕ) (device : Option Text) where
  -- the turns of one session, the last one first
  unfoldable pub run : List Running → Panel
  unfolding ios_session_status default
  run [] = record { meta = default; device_id = device }
  run (r ∷ before) = (ios_session_status rate (some (turn_in id r)) (run before)).0

-- the last value that was answered
abbrev pub latest {ℓ} : {A : Type ℓ} → List (Option A) → Option A
latest [] = none
latest (a ∷ before) = or_else a (latest before)

-- The application in front is asked for in every second turn, from the first on.
abbrev pub odd : ℕ → Bool
odd n = n % 2 == 1

abbrev pub requested_by : ℕ → Option Text → Option ℕ → Option ℕ
requested_by id none before = before
requested_by id (some device) before = some id

abbrev requesting : Option ℕ → Panel → Panel
requesting r panel = record panel { meta = record panel.meta { installed_requested = r } }

abbrev consed : Bool → Option ActiveApp → List (Text × Installed) → List (Text × Installed)
consed true (some app) apps = (app.bundle_id, none) ∷ apps
consed true none apps = apps
consed false app apps = apps

-- the applications that were seen in front, the last one first
abbrev pub seen_apps : List Running → List (Text × Installed)
seen_apps [] = []
seen_apps (r ∷ before) =
    consed (odd (length (r ∷ before))) (answers_of r.answers).active (seen_apps before)

-- which session has asked for the names of the applications
abbrev asked_after : ℕ → Option Text → List Running → Option ℕ
asked_after id device [] = none
asked_after id device (r ∷ rs) = requested_by id device none

record Remembers (id : ℕ) (device : Option Text) (rs : List Running) (p : Panel) : Type 0 where
  locked : p.meta.locked ≡ latest (map (λ r. (answers_of r.answers).locked) rs)
  window : p.meta.window ≡ latest (map (λ r. (answers_of r.answers).window) rs)
  polls : p.meta.polls ≡ length rs % 2 ^ 64
  apps : p.meta.recent_apps ≡ remember_all (seen_apps rs)
  installed : p.meta.installed ≡ none
  asked : p.meta.installed_requested ≡ asked_after id device rs
  same : p.device_id ≡ device
