-- ===== src/Ios/Session.antt =====
-- crates/quadcontrol-ios/src/session.rs: the supervisor of one iPhone session, on unix. The four child
-- processes, the clock, the device and the proxy's threads are a `Machine`, a parameter; what the
-- supervisor owns and what the handle shows of it is a `World`.
pub mod Classify
pub mod Spawn
pub mod Start
pub mod Run
pub mod Hoare
pub mod Kept
pub mod Parts
pub mod Held
pub mod Served
pub mod Closing
pub mod Ended
pub mod Waits
pub mod Spawns
pub mod Liveness
pub mod Outcomes
pub mod Forwards
pub mod EarlyStop
use quad_control.Base.{
  ℕ, ◌+◌, ◌≤◌, Bool, true, false, List, [], ◌∷◌, Option, none, some, Result, ok, err, leb, map,
  if◌then◌else◌,
}
use quad_control.Base.Text.{Text, codes}
use quad_control.Os.{IoError, ExitStatus}
use quad_control.Ios.Error.{Error}
use quad_control.Process.Ladder as Ladder

pub data ChildKind : Type 0 where
  tunnel run_wda forward_http forward_mjpeg : ChildKind

abbrev pub label : ChildKind → Text
label tunnel = codes "tunnel"
label run_wda = codes "runwda"
label forward_http = codes "forward(8100)"
label forward_mjpeg = codes "forward(9100)"

pub data ExitReason : Type 0 where
  requested : ExitReason
  child_exited : (which : ChildKind) (code : ℕ) → ExitReason
  upstream_closed : ExitReason

pub data IosSessionStatus : Type 0 where
  starting : IosSessionStatus
  running : (proxy_port : ℕ) → IosSessionStatus
  stopping : IosSessionStatus
  exited : (reason : ExitReason) → IosSessionStatus
  failed : (code : Text) → IosSessionStatus

pub data Readiness : Type 0 where
  ready stop_requested : Readiness

pub record WdaIds : Type 0 where
  pub bundle_id : Text
  pub testrunner_id : Text
  pub xctestconfig : Text

-- The environment variables of the children are left out.
pub data LaunchMode : Type 0 where
  launch : (ios : Text) (wda : WdaIds) → LaunchMode
  attach : (http_port mjpeg_port : ℕ) → LaunchMode

pub record IosLaunchOptions : Type 0 where
  pub udid : Text
  pub mode : LaunchMode
  pub tunnel_info_port : ℕ
  pub tunnel_ready_budget : ℕ  -- milliseconds, as all times
  pub status_budget : ℕ

pub record FrameStats : Type 0 where
  pub frames : ℕ
  pub backpressure_drops : ℕ
  pub last_frame_at : Option ℕ

pub record Machine : Type 0 where
  pub os : Ladder.Env  -- when a child has exited, and how long a call takes
  pub exit_status : ℕ → ExitStatus  -- of a child that has exited
  pub stderr_tail : ℕ → Text
  pub spawn : ℕ → Result (Unit {0}) IoError  -- by the number of the processes before
  pub io_text : IoError → Text  -- `Display`
  pub free_port : ℕ → Result ℕ Text
  pub stop_at : Option ℕ  -- when the first request to stop is in the channel
  pub tunnel_is_registered : ℕ → Bool
  pub answers_status : ℕ → Bool
  pub create_session : (port now : ℕ) → Result (Unit {0}) Error
  pub configure_mjpeg : (port fps quality now : ℕ) → Result (Unit {0}) Error
  pub start_proxy : (port now : ℕ) → Result ℕ Error
  pub proxy_stats : ℕ → FrameStats
  pub proxy_failure : ℕ → Option Error
  pub proxy_is_alive : ℕ → Bool

-- A process that was started: its number is its place in the list of all.
pub record Started : Type 0 where
  pub kind : ChildKind
  pub args : List Text

pub record SupervisedChild : Type 0 where
  pub kind : ChildKind
  pub pid : ℕ

pub record World : Type 0 where
  pub clock : Ladder.World
  pub started : List Started  -- all processes, the newest first
  pub waited : List ℕ  -- those that were waited for
  pub children : List SupervisedChild
  pub proxy : Option ℕ  -- its port
  pub stopped_proxies : List ℕ
  pub deleted_sessions : List ℕ  -- the ports to which DELETE /session went
  pub statuses : List IosSessionStatus  -- all that the handle has shown, the newest first
  pub stats : FrameStats
  pub client : Option ℕ  -- the port of the client that the handle gives out
  pub is_done : Bool

-- none: the bound on the turns of a loop was reached
abbrev pub Action : Type 0 → Type 0
Action A = World → Option (World × Result A Error)

module _ {A : Type 0} where
  abbrev pub pure : A → Action A
  pure a w = some (w, ok a)

  abbrev pub raise : Error → Action A
  raise e w = some (w, err e)

  abbrev pub or_raise : Result A Error → Action A
  or_raise r w = some (w, r)

abbrev pub continue :
    {A B : Type 0}
    → Option (World × Result A Error)
    → (A → Action B)
    → Option (World × Result B Error)
continue none f = none
continue (some (w, ok a)) f = f a w
continue (some (w, err e)) f = some (w, err e)

infixl 5 ◌>>=◌ ◌>>◌
abbrev pub ◌>>=◌ : {A B : Type 0} → Action A → (A → Action B) → Action B
◌>>=◌ m f w = continue (m w) f

abbrev pub ◌>>◌ : {A B : Type 0} → Action A → Action B → Action B
m >> k = m >>= λ _. k

abbrev pub gets : {A : Type 0} → (World → A) → Action A
gets f w = some (w, ok (f w))

abbrev pub modify : (World → World) → Action (Unit {0})
modify f w = some (f w, ok tt)

-- writes the status under its lock
abbrev pub show_status : IosSessionStatus → World → World
show_status s w = record w { statuses = s ∷ w.statuses }

abbrev pub pids : List SupervisedChild → List ℕ
pids = map (λ c. c.pid)

abbrev pub slept : ℕ → World → World
slept ms w = record w { clock = record (w.clock) { now = w.clock.now + ms } }

module _ (m : Machine) where
  -- the world after a call that may block
  abbrev pub called : World → World
  called w = slept (m.os.lag w.clock.now) w

  -- `child.try_wait().ok().flatten().is_some()`
  abbrev pub has_exited : World → ℕ → Bool
  has_exited w pid = Ladder.has_exited m.os w.clock pid

  -- `stop_rx.try_recv().is_ok()`; what it takes from the channel ends the session
  abbrev pub stop_received : World → Bool
  stop_received w = elim m.stop_at [ none ↦ false | some t ↦ leb t w.clock.now ]
