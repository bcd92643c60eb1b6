-- ===== src/Gui/IosSlot.antt =====
-- `start_ios_session` and `stop_ios_session` of crates/quadcontrol-gui/src-tauri/src/lib.rs. Whether a
-- session is live is its supervisor's to say: the store's `alive` are the sessions whose status is
-- starting, running or stopping.
-- `ios_launch_allowed`, which asks for the platform, and the reset of `IosMeta` are left out.
pub mod Single
use quad_control.Base.{
  ℕ, ◌+◌, ◌%◌, ◌^◌, Bool, true, false, not, List, [], ◌∷◌, Option, none, some, Result, ok, err,
  ◌==◌, if◌then◌else◌, filter, any,
}
use quad_control.Base.Text.{Text, codes}

pub data IosSlot : Type 0 where
  starting : IosSlot
  failed : (code : Text) → IosSlot
  handle : (id : ℕ) → IosSlot

pub record IosSessionStore : Type 0 where
  pub session : Option IosSlot
  pub next_id : ℕ  -- u64
  pub device_id : Option Text
  pub alive : List ℕ
  pub pending : List ℕ  -- the starts whose `spawn_supervised` has not answered
  pub stops : List ℕ  -- the sessions that were asked to stop

unfoldable pub new : IosSessionStore
new = record { session = none; next_id = 1; device_id = none; alive = []; pending = []; stops = [] }

abbrev pub is_alive : List ℕ → ℕ → Bool
is_alive alive id = any (λ a. a == id) alive

abbrev pub ios_slot_is_live : List ℕ → IosSlot → Bool
ios_slot_is_live alive starting = true
ios_slot_is_live alive (failed code) = false
ios_slot_is_live alive (handle id) = is_alive alive id

abbrev session_is_live : List ℕ → Option IosSlot → Bool
session_is_live alive none = false
session_is_live alive (some slot) = ios_slot_is_live alive slot

-- `start_ios_session` up to `spawn_supervised`, for which a session number is drawn
unfoldable pub start : Text → IosSessionStore → IosSessionStore × Result ℕ Text
start device store =
    let noted = record store { device_id = some device } in
    if session_is_live store.alive store.session
    then (noted, err (codes "ios_session_already_running"))
    else (
      record noted {
        session = some starting;
        next_id = (store.next_id + 1) % 2 ^ 64;
        pending = store.next_id ∷ store.pending;
      },
      ok store.next_id,
    )

-- a live handle in the slot when the answer arrives
abbrev occupied : List ℕ → Option IosSlot → Bool
occupied alive none = false
occupied alive (some starting) = false
occupied alive (some (failed code)) = false
occupied alive (some (handle id)) = is_alive alive id

-- the rest of `start_ios_session`: the answer of `spawn_supervised`, or that its worker panicked
unfoldable pub answer :
    ℕ
    → Result (Result (Unit {0}) Text) (Unit {0})
    → IosSessionStore
    → IosSessionStore × Result (Unit {0}) Text
answer id (err panicked) store = (
  record store {
    session = some (failed (codes "ios_process_error"));
    pending = filter (λ p. not (p == id)) store.pending;
  },
  err (codes "ios_process_error"),
)
answer id (ok (err code)) store = (
  record store {
    session = some (failed code);
    pending = filter (λ p. not (p == id)) store.pending;
  },
  err code,
)
answer id (ok (ok _)) store =
    let up = record store {
      alive = id ∷ store.alive;
      pending = filter (λ p. not (p == id)) store.pending;
    } in
    if occupied store.alive store.session
    then (record up { stops = id ∷ store.stops }, err (codes "ios_session_already_running"))
    else (record up { session = some (handle id) }, ok tt)

abbrev request_stop : Option IosSlot → List ℕ → List ℕ
request_stop none stops = stops
request_stop (some starting) stops = stops
request_stop (some (failed code)) stops = stops
request_stop (some (handle id)) stops = id ∷ stops

unfoldable pub stop_ios_session : IosSessionStore → IosSessionStore
stop_ios_session store = record store {
  device_id = none;
  stops = request_stop store.session store.stops;
}

-- The supervisor of a session ends it.
unfoldable pub ends : ℕ → IosSessionStore → IosSessionStore
ends id store = record store { alive = filter (λ a. not (a == id)) store.alive }
