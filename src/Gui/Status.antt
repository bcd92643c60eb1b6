-- ===== src/Gui/Status.antt =====
-- `ios_session_status` and `spawn_installed_apps_load` of crates/quadcontrol-gui/src-tauri/src/lib.rs: what
-- the panel of the iPhone is told in each turn of its poll, and what the client remembers between two turns.
-- The frame rate is a quotient of floating-point numbers; its rounding is a parameter.
pub mod Poll
pub mod Names
use quad_control.Base.{
  ℕ, ◌+◌, ◌-◌, ◌%◌, ◌^◌, Bool, true, false, List, [], ◌∷◌, map, Option, none, some, Result, ok, err,
  ◌==◌, ltb, if◌then◌else◌, filter, is_empty, not,
}
use quad_control.Base.Text.{Text, codes, trim}
use quad_control.Ios.Error.{Error}
use quad_control.Ios.GoIos.Apps.{InstalledApp}
use quad_control.Ios.Session.{
  ExitReason, requested, child_exited, upstream_closed, IosSessionStatus, starting, running,
  stopping, exited, failed,
}
use quad_control.Ios.Wda.Actions.{WindowSize, ActiveApp}
use quad_control.Gui.IosSlot.{IosSlot}
use quad_control.Gui.Recent.{RecentApp, remember_recent_app, app_display_name}

pub record IosMeta : Type 0 where
  pub frames : Option (ℕ × ℕ)  -- the frames counted, and when, in milliseconds
  pub fps : ℕ  -- u32
  pub window : Option WindowSize
  pub locked : Option Bool
  pub recent_apps : List RecentApp
  pub installed : Option (List (Text × Text))
  pub installed_requested : Option ℕ
  pub polls : ℕ  -- u64
  pub session_id : Option ℕ

unfoldable pub default : IosMeta
default = record {
  frames = none;
  fps = 0;
  window = none;
  locked = none;
  recent_apps = [];
  installed = none;
  installed_requested = none;
  polls = 0;
  session_id = none;
}

-- the fields of `IosSessionStore` that the poll writes
pub record Panel : Type 0 where
  pub meta : IosMeta
  pub device_id : Option Text

unfoldable pub slot_status : (ℕ → IosSessionStatus) → IosSlot → IosSessionStatus
slot_status status IosSlot.starting = starting
slot_status status (IosSlot.failed code) = failed code
slot_status status (IosSlot.handle id) = status id

pub record RecentAppDto : Type 0 where
  pub bundle_id : Text
  pub name : Text

pub record IosStatusDto : Type 0 where
  pub state : Text
  pub code : Option Text
  pub exit_reason : Option Text
  pub proxy_port : Option ℕ
  pub fps : ℕ
  pub locked : Option Bool
  pub window : Option WindowSize
  pub recent_apps : List RecentAppDto

abbrev pub ios_idle_dto : IosStatusDto
ios_idle_dto = record {
  state = codes "idle";
  code = none;
  exit_reason = none;
  proxy_port = none;
  fps = 0;
  locked = none;
  window = none;
  recent_apps = [];
}

abbrev reason_code : ExitReason → Text
reason_code requested = codes "requested"
reason_code (child_exited which code) = codes "child_exited"
reason_code upstream_closed = codes "upstream_closed"

unfoldable pub ios_status_dto : IosSessionStatus → IosStatusDto
ios_status_dto starting = record ios_idle_dto { state = codes "starting" }
ios_status_dto (running proxy_port) = record ios_idle_dto {
  state = codes "running";
  proxy_port = some proxy_port;
}
ios_status_dto stopping = record ios_idle_dto { state = codes "stopping" }
ios_status_dto (exited reason) = record ios_idle_dto {
  state = codes "exited";
  exit_reason = some (reason_code reason);
}
ios_status_dto (failed code) = record ios_idle_dto { state = codes "failed"; code = some code }

-- `rate` is the quotient of the frames by the milliseconds, in frames a second, rounded
unfoldable pub diff_fps : (ℕ → ℕ → ℕ) → Option (ℕ × ℕ) → ℕ → ℕ → ℕ → ℕ
diff_fps rate none frames now last = 0
diff_fps rate (some (previous_frames, previous_at)) frames now last =
    let elapsed = now - previous_at in
    if ltb elapsed 200 then last else rate (frames - previous_frames) elapsed

-- the names that come back from `ios apps --list`, for the session that asked for them
unfoldable pub named_apps : List InstalledApp → List (Text × Text)
unfolding trim
named_apps apps =
    map (λ app. (app.bundle_id, app.name)) (filter (λ app. not (is_empty (trim app.name))) apps)

abbrev pub is_id : ℕ → Option ℕ → Bool
is_id id none = false
is_id id (some i) = i == id

-- the end of the task of `spawn_installed_apps_load`; it may have panicked
unfoldable pub apps_loaded :
    ℕ → Result (Result (List InstalledApp) Error) (Unit {0}) → Panel → Panel
unfolding named_apps
apps_loaded session_id (ok (ok apps)) panel =
    if is_id session_id panel.meta.session_id
    then record panel { meta = record panel.meta { installed = some (named_apps apps) } }
    else panel
apps_loaded session_id (ok (err e)) panel = panel
apps_loaded session_id (err panicked) panel = panel

-- with the device whose applications are now being listed, if any
unfoldable pub load_for : ℕ → Panel → Option Text → Panel × Option Text
load_for session_id panel none = (panel, none)
load_for session_id panel (some udid) =
    if is_id session_id panel.meta.installed_requested then (panel, none) else (
      record panel { meta = record panel.meta { installed_requested = some session_id } },
      some udid,
    )

unfoldable pub spawn_installed_apps_load : ℕ → Panel → Panel × Option Text
unfolding load_for
spawn_installed_apps_load session_id panel = load_for session_id panel panel.device_id
