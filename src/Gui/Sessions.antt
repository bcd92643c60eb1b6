-- ===== src/Gui/Sessions.antt =====
-- `SessionStore` of crates/quadcontrol-gui/src-tauri/src/lib.rs and its commands, on unix. What the
-- supervisors show is a field of the store: they change it beside the commands. `windows_session_unsupported`,
-- which is all that `start_session` answers on Windows, is left out.
pub mod Reach
use quad_control.Base.{
  ℕ, ◌+◌, ◌%◌, ◌^◌, Bool, true, false, not, List, [], ◌∷◌, ◌++◌, map, Option, none, some, Result,
  ok, err, ◌==◌, if◌then◌else◌, filter, any, take,
}
use mathlib.Core.List.{reverse}
use quad_control.Base.Text.{Text, codes}
use quad_control.Base.Text.Map.{get, insert, remove}
use quad_control.Android.{Error, scrcpy_not_found, scrcpy_version}
use quad_control.Android.Session.{SessionStatus, running, stopping, exited, failed}

pub record SessionStore : Type 0 where
  pub sessions : List (Text × ℕ)  -- the handle of each device, by its number
  pub next_id : ℕ  -- u64
  pub status : ℕ → Option SessionStatus  -- none: there is no such session
  pub pending : List ℕ  -- the starts that have not been answered
  pub stops : List ℕ  -- the sessions that were asked to stop

unfoldable pub new : SessionStore
new = record { sessions = []; next_id = 1; status = λ id. none; pending = []; stops = [] }

-- `matches!(existing.status(), SessionStatus::Running | SessionStatus::Stopping)`
abbrev pub is_live : Option SessionStatus → Bool
is_live none = false
is_live (some running) = true
is_live (some stopping) = true
is_live (some (exited code tail)) = false
is_live (some (failed message)) = false

abbrev pub taken : (ℕ → Option SessionStatus) → Option ℕ → Bool
taken status none = false
taken status (some id) = is_live (status id)

-- is a live session under the device
unfoldable pub occupied : Text → SessionStore → Bool
unfolding get
occupied device store = taken store.status (get device store.sessions)

-- `start_session` up to `spawn_supervised`, for which a session number is drawn
unfoldable pub start_session : Text → SessionStore → SessionStore × Result ℕ Text
unfolding occupied remove
start_session device store =
    if occupied device store then (store, err (codes "session_already_running")) else (
      record store {
        sessions = remove device store.sessions;
        next_id = (store.next_id + 1) % 2 ^ 64;
        pending = store.next_id ∷ store.pending;
      },
      ok store.next_id,
    )

abbrev pub set_status : ℕ → SessionStatus → (ℕ → Option SessionStatus) → ℕ → Option SessionStatus
set_status id s status i = if id == i then some s else status i

-- `spawn_supervised` has started scrcpy, or the supervisor shows another status.
unfoldable pub show : ℕ → SessionStatus → SessionStore → SessionStore
show id s store = record store { status = set_status id s store.status }

unfoldable pub session_error_code : Error → Text
session_error_code (scrcpy_not_found t) = codes "scrcpy_not_found"
session_error_code (scrcpy_version t) = codes "scrcpy_version"
session_error_code _ = codes "session_start_failed"

abbrev pub except : ℕ → List ℕ → List ℕ
except id ids = filter (λ i. not (i == id)) ids

-- the rest of `start_session`: the answer of `spawn_supervised`, or that its worker panicked
unfoldable pub answer :
    Text
    → ℕ
    → Result (Result (Unit {0}) Error) (Unit {0})
    → SessionStore
    → SessionStore × Result (Unit {0}) Text
unfolding session_error_code occupied insert
answer device id (err panicked) store =
    (record store { pending = except id store.pending }, err (codes "session_start_failed"))
answer device id (ok (err e)) store =
    (record store { pending = except id store.pending }, err (session_error_code e))
answer device id (ok (ok _)) store =
    if occupied device store
    then (
      record store { pending = except id store.pending; stops = id ∷ store.stops },
      err (codes "session_already_running"),
    )
    else (
      record store {
        pending = except id store.pending;
        sessions = insert device id store.sessions;
      },
      ok tt,
    )

abbrev pub request_stop : Option ℕ → List ℕ → List ℕ
request_stop none stops = stops
request_stop (some id) stops = id ∷ stops

unfoldable pub stop_session : Text → SessionStore → SessionStore
unfolding get
stop_session device store = record store {
  stops = request_stop (get device store.sessions) store.stops;
}

-- the part of `reclaim_sessions` that changes this store: the map is drained and each handle asked
unfoldable pub drain : SessionStore → SessionStore
drain store = record store { sessions = []; stops = map (λ e. e.1) store.sessions ++ store.stops }

pub record SessionDto : Type 0 where
  pub device_id : Text
  pub state : Text
  pub exit_code : Option ℕ
  pub stderr_tail : Option Text

unfoldable pub truncate_tail : Text → ℕ → Text
truncate_tail text limit = reverse (take limit (reverse text))

unfoldable pub session_dto : Text → SessionStatus → SessionDto
session_dto device_id running = record {
  device_id = device_id;
  state = codes "running";
  exit_code = none;
  stderr_tail = none;
}
session_dto device_id stopping = record {
  device_id = device_id;
  state = codes "stopping";
  exit_code = none;
  stderr_tail = none;
}
session_dto device_id (exited code tail) = record {
  device_id = device_id;
  state = codes "exited";
  exit_code = some code;
  stderr_tail = none;
}
session_dto device_id (failed message) = record {
  device_id = device_id;
  state = codes "failed";
  exit_code = none;
  stderr_tail = some (codes "session_failed");
}

-- the closure in `sessions`
unfoldable pub shown : Text → SessionStatus → SessionDto
unfolding session_dto truncate_tail
shown device_id (exited code tail) = record {
  device_id = device_id;
  state = codes "exited";
  exit_code = some code;
  stderr_tail = if code == 0 then none else some (truncate_tail tail 2000);
}
shown device_id (failed message) = session_dto device_id (failed (codes "session_failed"))
shown device_id status = session_dto device_id status

shown_handle : (ℕ → Option SessionStatus) → Text × ℕ → List SessionDto → List SessionDto
unfolding shown
shown_handle status (device_id, id) rest = elim (status id) [
  | none ↦ rest
  | some s ↦ shown device_id s ∷ rest
]

shown_all : (ℕ → Option SessionStatus) → List (Text × ℕ) → List SessionDto
unfolding shown_handle
shown_all status [] = []
shown_all status (e ∷ m) = shown_handle status e (shown_all status m)

unfoldable pub sessions : SessionStore → List SessionDto
unfolding shown_all
sessions store = shown_all store.status store.sessions
