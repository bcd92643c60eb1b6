-- ===== src/Ios/Session/EarlyStop.antt =====
-- A session of crates/quadcontrol-ios/src/session.rs whose stop is requested while it starts.
use quad_control.Base.{ℕ, ◌≤◌, ◌≡◌, refl, true, [], ◌∷◌, some, ok, leb, length}
use quad_control.Base.Text.{Text}
use quad_control.Process.Ladder.Laws.{terminate_all-Ends}
use quad_control.Ios.Session.{
  starting, stopping, exited, requested, tunnel, launch, IosLaunchOptions, WdaIds, Machine, World,
  pids,
}
use quad_control.Ios.Session.Spawn.{spawn_child, adopt}
use quad_control.Ios.Session.Start.{tunnel_args, open_ports, connect, await_tunnel, await_from}
use quad_control.Ios.Session.Kept.{as_started, new_child}
use quad_control.Ios.Session.Run.{start_session, supervise, shutdown, begin, calm, disconnect}

abbrev tunnel_only : IosLaunchOptions → ℕ → World
tunnel_only options now =
    adopt (new_child tunnel (begin now)) (as_started tunnel (tunnel_args options) (begin now))

module _ (m : Machine) (options : IosLaunchOptions) (ios : Text) (wda : WdaIds) where
  start_session_early :
      (t fuel now : ℕ)
      → options.mode ≡ launch ios wda
      → m.spawn 0 ≡ ok tt
      → m.stop_at ≡ some t
      → leb t now ≡ true
      → start_session m fuel options (begin now) ≡ some (tunnel_only options now, ok requested)
  unfolding start_session open_ports connect spawn_child await_tunnel await_from begin
  start_session_early t fuel now launched spawned at le = rw (launched, spawned, at, le) refl

  -- A session that launches, whose stop is requested before the tunnel is waited for, ends as requested
  -- and not as failed, and starts nothing but the tunnel, which is waited for.
  pub supervise_early_stop :
      (d : ℕ) (steady : (t : ℕ) → m.os.lag t ≤ d) (t fuel now : ℕ)
      → options.mode ≡ launch ios wda
      → m.spawn 0 ≡ ok tt
      → m.stop_at ≡ some t
      → leb t now ≡ true
      → (w : World) × (supervise m fuel options (begin now) ≡ some w)
        × (w.statuses ≡ exited requested ∷ stopping ∷ starting ∷ [])
        × (w.waited ≡ 0 ∷ [])
        × (length w.started ≡ 1)
  unfolding supervise shutdown begin
  supervise_early_stop d steady t fuel now launched spawned at le =
      let v = disconnect m (tunnel_only options now) in
      let (clock, answer, same, _) =
        terminate_all-Ends (calm m) d steady (pids v.children) v.clock in
      rw (start_session_early t fuel now launched spawned at le, same) (_, refl, refl, refl, refl)
