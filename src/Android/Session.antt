-- ===== src/Android/Session.antt =====
-- `Session` and `supervise` of crates/quadcontrol-android/src/lib.rs, on unix: the thread that owns the process
-- of scrcpy. What the process does and when a stop is requested is a parameter.
pub mod Laws
use quad_control.Base.{
  ℕ, zero, suc, ◌+◌, Bool, true, false, List, [], ◌∷◌, Option, none, some, Result, ok, err, leb,
  if◌then◌else◌,
}
use quad_control.Base.Text.{Text, codes}
use quad_control.Os.{IoError, ExitStatus, code_or_one}
use quad_control.Process.Ladder as Ladder

pub data SessionStatus : Type 0 where
  running stopping : SessionStatus
  exited : (code : ℕ) (stderr_tail : Text) → SessionStatus
  failed : (message : Text) → SessionStatus

pub record Machine : Type 0 where
  pub os : Ladder.Env
  pub pid : ℕ
  pub exit_status : ExitStatus
  pub try_wait_error : ℕ → Option IoError  -- by the moment
  pub io_text : IoError → Text  -- the error's message
  pub stderr_tail : Text
  pub stop_at : Option ℕ  -- when a request to stop is in the channel

pub record World : Type 0 where
  pub clock : Ladder.World
  pub statuses : List SessionStatus  -- all that the handle has shown, the newest first
  pub is_done : Bool

abbrev pub show_status : SessionStatus → World → World
show_status s w = record w { statuses = s ∷ w.statuses }

abbrev pub not_reaped : Text
not_reaped = codes "stopped session was not reaped"

-- what `spawn_supervised` hands to the thread
unfoldable pub begin : ℕ → World
begin now = record {
  clock = record { now = now; sent = [] };
  statuses = running ∷ [];
  is_done = false;
}

module _ (m : Machine) where
  abbrev pub has_exited : Ladder.World → Bool
  has_exited clock = Ladder.has_exited m.os clock m.pid

  abbrev pub polled_as : Option IoError → Bool → Result (Option ℕ) IoError
  polled_as (some e) x = err e
  polled_as none true = ok (some (code_or_one m.exit_status))
  polled_as none false = ok none

  unfoldable pub try_wait : Ladder.World → Result (Option ℕ) IoError
  try_wait clock = polled_as (m.try_wait_error clock.now) (has_exited clock)

  -- `stop_rx.try_recv().is_ok()`
  abbrev pub stop_received : World → Bool
  stop_received w = elim m.stop_at [ none ↦ false | some t ↦ leb t w.clock.now ]

  -- the result of the loop; the bounded wait for the end of stderr is not counted
  unfoldable pub finish : Result ℕ Text → World → World
  finish (ok code) w = record (show_status (exited code m.stderr_tail) w) { is_done = true }
  finish (err message) w = record (show_status (failed message) w) { is_done = true }

  -- `try_wait` once `stop` has succeeded
  abbrev pub reaped : Result (Option ℕ) IoError → Result ℕ Text
  reaped (err e) = err (m.io_text e)
  reaped (ok none) = err not_reaped
  reaped (ok (some code)) = ok code

  abbrev pub after_stop : World → Ladder.Outcome (Result (Unit {0}) IoError) → Option World
  after_stop w none = none
  after_stop w (some (clock, err e)) =
      some (finish (err (m.io_text e)) (record w { clock = clock }))
  after_stop w (some (clock, ok _)) =
      some (finish (reaped (try_wait clock)) (record w { clock = clock }))

  unfoldable pub stop : World → Option World
  unfolding try_wait finish Ladder.terminate
  stop w = let w' = show_status stopping w in after_stop w' (Ladder.terminate m.os m.pid w'.clock)

  abbrev pub napped : World → World
  napped w = record w { clock = record (w.clock) { now = w.clock.now + 25 + m.os.lag w.clock.now } }

  abbrev pub on_poll : World → Result (Option ℕ) IoError → Option World → Option World
  on_poll w (err e) rest = some (finish (err (m.io_text e)) w)
  on_poll w (ok (some code)) rest = some (finish (ok code) w)
  on_poll w (ok none) rest = rest

  -- none: the bound on the turns was reached
  unfoldable pub supervise : ℕ → World → Option World
  unfolding try_wait finish stop
  supervise zero w = none
  supervise (suc fuel) w =
      let rest = on_poll w (try_wait w.clock) (supervise fuel (napped w)) in
      if stop_received w then stop w else rest
