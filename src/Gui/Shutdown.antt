-- ===== src/Gui/Shutdown.antt =====
-- The end of the desktop client: `run`, `reclaim_sessions` and `begin_shutdown` of
-- crates/quadcontrol-gui/src-tauri/src/lib.rs. Moments are in milliseconds. When the supervisors and the
-- pairing worker report, and how late a sleep ends, are parameters.
pub mod Budget
pub mod Once
use quad_control.Base.{
  ℕ, zero, suc, ◌+◌, ◌-◌, Bool, true, false, not, List, [], ◌∷◌, Option, none, some, Result, ok,
  err, leb, ltb, max, if◌then◌else◌, length, ◌&&◌,
}
use quad_control.Android.Shutdown.{SessionHandle}
use quad_control.Android.Shutdown as Android
use quad_control.Ios.Shutdown as Ios

abbrev pub reached : Option ℕ → ℕ → Bool
reached none moment = false
reached (some t) moment = leb t moment

pub record Client : Type 0 where
  pub android : List SessionHandle  -- drained from the map
  pub ios : List SessionHandle  -- of the slot: one, or none
  pub pairing_over : Option ℕ  -- when the state of the pairing is no longer active; none: never
  pub lag : ℕ → ℕ  -- how much longer than 25 ms a sleep takes

-- in seven seconds, the larger of the two budgets
abbrev pub session_budget : ℕ
session_budget = max 7000 7000

abbrev pub pairing_budget : ℕ
pairing_budget = 13000

abbrev pub exit_wait_budget : ℕ
exit_wait_budget = 15000

-- every turn of the wait takes at least 25 ms of the 13000
abbrev pub pairing_turns : ℕ
pairing_turns = 521

module _ (client : Client) where
  -- the loop that waits for the pairing worker, on fuel
  unfoldable pub wait_pairing : ℕ → ℕ → ℕ → ℕ
  wait_pairing zero cancelled_at now = now
  wait_pairing (suc fuel) cancelled_at now =
      let rest = wait_pairing fuel cancelled_at (now + 25 + client.lag now) in
      if ltb (now - cancelled_at) pairing_budget
      then (if reached client.pairing_over now then now else rest)
      else now

  -- the moment of the return, and the number of sessions that have not reported
  unfoldable pub reclaim_sessions : ℕ → ℕ × ℕ
  unfolding wait_pairing Android.shutdown_all Ios.shutdown_all
  reclaim_sessions cancelled_at =
      let deadline_at = cancelled_at + session_budget in
      let (between, android_late) =
        Android.shutdown_all cancelled_at (deadline_at - cancelled_at) client.android in
      let (stopped, ios_late) = Ios.shutdown_all between (deadline_at - between) client.ios in
      (wait_pairing pairing_turns cancelled_at stopped, length android_late + length ios_late)

-- The wait in `RunEvent::Exit` for a shutdown in the background, which sets `SHUTDOWN_DONE` at the moment
-- `done_at`: the moment of the return, and whether the flag was seen.
unfoldable pub wait_done : (ℕ → ℕ) → Option ℕ → ℕ → ℕ → ℕ → ℕ × Bool
wait_done lag done_at zero deadline now = (now, reached done_at now)
wait_done lag done_at (suc fuel) deadline now =
    let rest = wait_done lag done_at fuel deadline (now + 25 + lag now) in
    if not (reached done_at now) && ltb now deadline then rest else (now, reached done_at now)

abbrev pub exit_turns : ℕ
exit_turns = 601

unfoldable pub wait_exit : (ℕ → ℕ) → Option ℕ → ℕ → ℕ × Bool
unfolding wait_done
wait_exit lag done_at now = wait_done lag done_at exit_turns (now + exit_wait_budget) now

pub record Shutdown : Type 0 where
  pub started : Bool  -- `SHUTDOWN_STARTED`
  pub is_done : Bool  -- `SHUTDOWN_DONE`
  pub in_background : Bool  -- the task of `begin_shutdown` has not come to its end
  pub reclaims : ℕ  -- the calls of `reclaim_sessions` that were begun
  pub reclaimed : ℕ  -- those that have returned
  pub panicked : ℕ  -- those that have panicked
  pub exits : ℕ  -- the calls of `exit(0)`

unfoldable pub new : Shutdown
new = record {
  started = false;
  is_done = false;
  in_background = false;
  reclaims = 0;
  reclaimed = 0;
  panicked = 0;
  exits = 0;
}

unfoldable pub begin_shutdown : Shutdown → Shutdown
begin_shutdown s =
    if s.started
    then s
    else record s { started = true; in_background = true; reclaims = s.reclaims + 1 }

-- `SHUTDOWN_DONE.store(true)` and `exit(0)`, the end of the task of `begin_shutdown`
abbrev done : Shutdown → Shutdown
done s = record s { in_background = false; is_done = true; exits = s.exits + 1 }

-- what `spawn_blocking` gives for `reclaim_sessions`: that it has returned, or that it panicked
unfoldable pub background_ends : Result (Unit {0}) (Unit {0}) → Shutdown → Shutdown
background_ends (ok timed_out) s = done (record s { reclaimed = s.reclaimed + 1 })
background_ends (err panicked) s = done (record s { panicked = s.panicked + 1 })

pub data RunEvent : Type 0 where
  exit_requested close_requested exit other : RunEvent

-- what the event loop does with the event afterwards
pub data Response : Type 0 where
  passes prevented : Response
  waits : Response  -- `wait_exit`, and then the loop ends, whether it has seen the flag or not

-- the handler without the wait for the background task; a panic of the call in `exit` unwinds the loop and
-- is left out
unfoldable pub on_event : RunEvent → Shutdown → Shutdown × Response
unfolding begin_shutdown
on_event exit_requested s = if s.is_done then (s, passes) else (begin_shutdown s, prevented)
on_event close_requested s = if s.is_done then (s, passes) else (begin_shutdown s, prevented)
on_event exit s = if s.is_done then (s, passes) else if s.started then (s, waits) else (
  record s {
    started = true;
    reclaims = s.reclaims + 1;
    reclaimed = s.reclaimed + 1;
    is_done = true;
  },
  passes,
)
on_event other s = (s, passes)
