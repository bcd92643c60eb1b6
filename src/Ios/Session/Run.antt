-- ===== src/Ios/Session/Run.antt =====
-- `run_until_stop`, `start_session`, `shutdown` and `supervise` of crates/quadcontrol-ios/src/session.rs.
use quad_control.Base.{
  ℕ, zero, suc, ◌+◌, true, false, List, [], ◌∷◌, Option, none, some, Result, ok, err, is_empty,
  if◌then◌else◌,
}
use quad_control.Os.{IoError, code_or_one}
use quad_control.Ios.Error.{Error, code}
use quad_control.Process.Ladder as Ladder
use quad_control.Ios.Session.{
  starting, stopping, exited, failed, ExitReason, requested, child_exited, upstream_closed,
  IosLaunchOptions, Machine, World, SupervisedChild, Action, pure, or_raise, ◌>>=◌, slept, called,
  has_exited, stop_received, show_status, pids,
}
use quad_control.Ios.Session.Start.{open_ports, connect}

module _ (m : Machine) where
  -- the first child that has exited
  unfoldable pub exited_child : World → List SupervisedChild → Option ExitReason
  exited_child w [] = none
  exited_child w (c ∷ children) =
      let rest = exited_child w children in
      if has_exited m w c.pid
      then some (child_exited c.kind (code_or_one (m.exit_status c.pid)))
      else rest

  abbrev pub sync_stats : World → World
  sync_stats w = record w { stats = m.proxy_stats w.clock.now }

  -- what ends the session now, the proxy's part first
  unfoldable pub ending : World → Option (Result ExitReason Error)
  unfolding exited_child
  ending w =
      let child : Option (Result ExitReason Error) = elim (exited_child w w.children) [
        | none ↦ none
        | some r ↦ some (ok r)
      ] in
      let dead : Option (Result ExitReason Error) = elim (m.proxy_failure w.clock.now) [
        | some e ↦ some (err e)
        | none ↦ if m.proxy_is_alive w.clock.now then child else some (ok upstream_closed)
      ] in
      elim w.proxy [ none ↦ child | some port ↦ dead ]

  abbrev pub synced_of : Option ℕ → World → World
  synced_of none w = w
  synced_of (some port) w = sync_stats w

  abbrev pub synced : World → World
  synced w = synced_of w.proxy w

  unfoldable pub run_until_stop : ℕ → Action ExitReason
  unfolding ending
  run_until_stop zero w = none
  run_until_stop (suc fuel) w =
      let rest = run_until_stop fuel (slept (50 + m.os.lag w.clock.now) (synced w)) in
      if stop_received m w
      then pure requested w
      else elim (ending w) [ some r ↦ or_raise r (synced w) | none ↦ rest ]

  abbrev pub run_or_stopped : ℕ → Option ℕ → Action ExitReason
  run_or_stopped fuel none = pure requested
  run_or_stopped fuel (some port) = run_until_stop fuel

  unfoldable pub start_session : ℕ → IosLaunchOptions → Action ExitReason
  unfolding open_ports connect run_until_stop
  start_session fuel options = do
    ports ← open_ports m options options.mode
    started ← connect m options ports
    run_or_stopped fuel started

  -- `escalated` is never true here
  abbrev pub calm : Ladder.Env
  calm = record (m.os) { escalated = λ now. false }

  abbrev pub stop_proxy : Option ℕ → World → World
  stop_proxy none w = w
  stop_proxy (some port) w = record (sync_stats w) {
    proxy = none;
    stopped_proxies = port ∷ w.stopped_proxies;
  }

  abbrev pub delete_session : Option ℕ → World → World
  delete_session none w = w
  delete_session (some port) w =
      called m (record w { client = none; deleted_sessions = port ∷ w.deleted_sessions })

  -- all of `shutdown` before the ladder
  abbrev pub disconnect : World → World
  disconnect w = delete_session w.client (stop_proxy w.proxy (show_status stopping w))

  -- `child.wait()` for each, whatever it answers
  abbrev pub wait_all : List SupervisedChild → List ℕ → List ℕ
  wait_all [] waited = waited
  wait_all (c ∷ children) waited = wait_all children (c.pid ∷ waited)

  -- what is left once the ladder has returned; the wait for the threads on stderr is not counted
  abbrev pub reap : Ladder.World → World → World
  reap clock w = record w { clock = clock; waited = wait_all w.children w.waited; children = [] }

  abbrev pub after_ladder : Ladder.Outcome (Result (Unit {0}) IoError) → Action (Unit {0})
  after_ladder none w = none
  after_ladder (some (clock, answer)) w = some (reap clock w, ok tt)

  abbrev pub terminate_children : Action (Unit {0})
  terminate_children w =
      after_ladder
        (if is_empty w.children
          then some (w.clock, ok tt)
          else Ladder.terminate_all calm (pids w.children) w.clock)
        w

  unfoldable pub shutdown : Action (Unit {0})
  unfolding Ladder.terminate_all
  shutdown w = terminate_children (disconnect w)

  abbrev pub finish : Result ExitReason Error → World → World
  finish (ok reason) w = record (show_status (exited reason) w) { is_done = true }
  finish (err e) w = record (show_status (failed (code e)) w) { is_done = true }

  abbrev pub finish_after :
      Result ExitReason Error → Option (World × Result (Unit {0}) Error) → Option World
  finish_after outcome none = none
  finish_after outcome (some (w, _)) = some (finish outcome w)

  abbrev pub conclude : Option (World × Result ExitReason Error) → Option World
  conclude none = none
  conclude (some (w, outcome)) = finish_after outcome (shutdown w)

  unfoldable pub supervise : ℕ → IosLaunchOptions → World → Option World
  unfolding start_session shutdown code
  supervise fuel options w = conclude (start_session fuel options w)

-- what `spawn_supervised` hands to the thread
unfoldable pub begin : ℕ → World
begin now = record {
  clock = record { now = now; sent = [] };
  started = [];
  waited = [];
  children = [];
  proxy = none;
  stopped_proxies = [];
  deleted_sessions = [];
  statuses = starting ∷ [];
  stats = record { frames = 0; backpressure_drops = 0; last_frame_at = none };
  client = none;
  is_done = false;
}
