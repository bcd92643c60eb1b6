-- ===== src/Gui/Status/Poll.antt =====
-- One turn of `ios_session_status` of crates/quadcontrol-gui/src-tauri/src/lib.rs. No other turn and no start
-- falls between its locks.
pub mod Remembered
use quad_control.Base.{
  ℕ, ◌+◌, ◌%◌, ◌^◌, Bool, true, false, List, map, Option, none, some, Result, ok, err, ◌==◌,
  if◌then◌else◌,
}
use quad_control.Base.Text.{Text}
use quad_control.Ios.Session.{IosSessionStatus, starting, running, stopping, exited, failed}
use quad_control.Ios.Wda.Actions.{WindowSize, ActiveApp}
use quad_control.Gui.Recent.{RecentApp, remember_recent_app, app_display_name}
use quad_control.Gui.Status.{
  IosMeta, default, Panel, RecentAppDto, IosStatusDto, ios_idle_dto, ios_status_dto, diff_fps,
  spawn_installed_apps_load,
}

-- the answers of the device, where they came: `ok()` of each
pub record Answers : Type 0 where
  pub locked : Option Bool
  pub window : Option WindowSize
  pub active : Option ActiveApp

-- the snapshot of a slot that is not empty, and what the rest of the turn meets
pub record Turn : Type 0 where
  pub status : IosSessionStatus
  pub session_id : ℕ
  pub frames : ℕ
  pub now : ℕ
  pub client : Option (Result Answers (Unit {0}))  -- none: no client is given; err: its worker panicked

abbrev is_over : IosSessionStatus → Bool
is_over (exited reason) = true
is_over (failed code) = true
is_over _ = false

-- a turn that does not find the session running
unfoldable pub other_turn : IosSessionStatus → Panel → Panel
other_turn status panel = record {
  meta = default;
  device_id = if is_over status then none else panel.device_id;
}

-- the turn is counted
unfoldable pub counted : (ℕ → ℕ → ℕ) → Turn → IosMeta → IosMeta
unfolding diff_fps
counted rate turn meta = record meta {
  session_id = some turn.session_id;
  fps = diff_fps rate meta.frames turn.frames turn.now meta.fps;
  frames = some (turn.frames, turn.now);
  polls = (meta.polls + 1) % 2 ^ 64;
}

abbrev pub query_active : IosMeta → Bool
query_active meta = meta.polls % 2 == 1

abbrev pub answers_of : Result Answers (Unit {0}) → Answers
answers_of (ok answers) = answers
answers_of (err panicked) = record { locked = none; window = none; active = none }

abbrev pub or_else {ℓ} : {A : Type ℓ} → Option A → Option A → Option A
or_else none before = before
or_else (some a) before = some a

unfoldable pub seen : Bool → Option ActiveApp → IosMeta → List RecentApp
unfolding remember_recent_app
seen true (some app) meta = remember_recent_app meta.recent_apps app.bundle_id meta.installed
seen true none meta = meta.recent_apps
seen false app meta = meta.recent_apps

unfoldable pub answered : Option (Result Answers (Unit {0})) → IosMeta → IosMeta
unfolding seen
answered none meta = meta
answered (some r) meta =
    let answers = answers_of r in
    record meta {
      locked = or_else answers.locked meta.locked;
      window = or_else answers.window meta.window;
      recent_apps = seen (query_active meta) answers.active meta;
    }

-- `dto.locked`, which is left empty without a client
abbrev shown_locked : Option (Result Answers (Unit {0})) → IosMeta → Option Bool
shown_locked none meta = none
shown_locked (some r) meta = meta.locked

unfoldable pub shown_apps : IosMeta → List RecentAppDto
unfolding app_display_name
shown_apps meta =
    map
      (λ app. record {
        bundle_id = app.bundle_id;
        name = app_display_name app.bundle_id app.name meta.installed;
      })
      meta.recent_apps

running_turn : (ℕ → ℕ → ℕ) → Turn → Panel → Panel × IosStatusDto × Option Text
unfolding counted answered shown_apps ios_status_dto spawn_installed_apps_load
running_turn rate turn panel =
    let meta = answered turn.client (counted rate turn panel.meta) in
    let (asked, udid) = spawn_installed_apps_load turn.session_id (record panel { meta = meta }) in
    (
      asked,
      record (ios_status_dto turn.status) {
        fps = meta.fps;
        locked = shown_locked turn.client meta;
        window = meta.window;
        recent_apps = shown_apps meta;
      },
      udid,
    )

turn_of : IosSessionStatus → (ℕ → ℕ → ℕ) → Turn → Panel → Panel × IosStatusDto × Option Text
unfolding running_turn other_turn ios_status_dto
turn_of (running port) rate turn panel = running_turn rate turn panel
turn_of status rate turn panel = (other_turn status panel, ios_status_dto status, none)

-- The panel afterwards, the answer, and the device whose applications are now being listed.
unfoldable pub ios_session_status :
    (ℕ → ℕ → ℕ) → Option Turn → Panel → Panel × IosStatusDto × Option Text
unfolding turn_of
ios_session_status rate none panel = (panel, ios_idle_dto, none)
ios_session_status rate (some turn) panel = turn_of turn.status rate turn panel
