-- ===== src/Ios/Session/Liveness.antt =====
-- That a session of crates/quadcontrol-ios/src/session.rs that is asked to stop ends.
use quad_control.Base.{
  ℕ, suc, ◌+◌, ◌*◌, ◌/◌, ◌≤◌, ◌≡◌, refl, Option, none, some, Result, arith, inl, inr, Bool-cases,
  is_empty,
}
use quad_control.Base.Text.{Text}
use quad_control.Process.Ladder.Laws.{terminate_all-Ends}
use quad_control.Ios.Error.{Error, tunnel_failed, wda_unreachable}
use quad_control.Ios.Session.{
  tunnel, run_wda, forward_http, forward_mjpeg, ExitReason, Readiness, ready, stop_requested,
  WdaIds, LaunchMode, launch, attach, IosLaunchOptions, Machine, World, Action, or_raise, called,
  pids,
}
use quad_control.Ios.Session.Spawn.{spawn_child, spawn_forward, adopt}
use quad_control.Ios.Session.Start.{
  await_tunnel, await_status, unless_stopped, launch_rest, open_ports, connect, serve, tunnel_args,
  run_wda_args,
}
use quad_control.Ios.Session.Run.{
  run_or_stopped, start_session, shutdown, calm, disconnect, conclude, finish_after, supervise,
  begin,
}
use quad_control.Ios.Session.Closing.{IsCleared, Reaches}
use quad_control.Ios.Session.Ended.{supervise-IsCleared}
use quad_control.Ios.Session.Waits.{
  Ends, AlwaysEnds, bind-Ends, await_from-Ends, run_until_stop-Ends,
}
use quad_control.Ios.Session.Spawns.{or_raise-Ends, spawn_child-Ends, spawn_forward-Ends}

module _ (m : Machine) where
  unless_stopped-Ends :
      {A : Type 0} (r : Readiness) (next : Action (Option A))
      → AlwaysEnds next
      → AlwaysEnds (unless_stopped m r next)
  unless_stopped-Ends ready next h w = h w
  unless_stopped-Ends stop_requested next h w = tt

  launch_rest-Ends :
      (options : IosLaunchOptions) (ios : Text) (wda : WdaIds)
      → AlwaysEnds (launch_rest m options ios wda)
  launch_rest-Ends options ios wda w =
      bind-Ends (spawn_child m run_wda ios (run_wda_args options wda) wda_unreachable w) _
        (spawn_child-Ends m run_wda ios (run_wda_args options wda) wda_unreachable w)
        λ c w₁.
          bind-Ends (spawn_forward m forward_http 8100 options ios (adopt c w₁)) _
            (spawn_forward-Ends m forward_http 8100 options ios (adopt c w₁))
            λ http_port w₂.
              bind-Ends (spawn_forward m forward_mjpeg 9100 options ios w₂) _
                (spawn_forward-Ends m forward_mjpeg 9100 options ios w₂) (λ mjpeg_port w₃. tt)

  await_tunnel-Ends : (options : IosLaunchOptions) → AlwaysEnds (await_tunnel m options)
  unfolding await_tunnel
  await_tunnel-Ends options w =
      let budget = options.tunnel_ready_budget in
      await_from-Ends m (budget / 100 + 1) m.tunnel_is_registered 100 (w.clock.now + budget) _ w
        (omega arith)

  await_status-Ends : (budget : ℕ) → AlwaysEnds (await_status m budget)
  unfolding await_status
  await_status-Ends budget w =
      await_from-Ends m (budget / 200 + 1) m.answers_status 200 (w.clock.now + budget) _ w
        (omega arith)

  open_ports-Ends :
      (options : IosLaunchOptions) (mode : LaunchMode) → AlwaysEnds (open_ports m options mode)
  unfolding open_ports
  open_ports-Ends options (attach http_port mjpeg_port) w = tt
  open_ports-Ends options (launch ios wda) w =
      bind-Ends (spawn_child m tunnel ios (tunnel_args options) tunnel_failed w) _
        (spawn_child-Ends m tunnel ios (tunnel_args options) tunnel_failed w)
        λ c w₁.
          bind-Ends (await_tunnel m options (adopt c w₁)) _ (await_tunnel-Ends options (adopt c w₁))
            λ r.
              unless_stopped-Ends r (launch_rest m options ios wda)
                (launch_rest-Ends options ios wda)

  serve-Ends : (http_port mjpeg_port : ℕ) → AlwaysEnds (serve m http_port mjpeg_port)
  serve-Ends http_port mjpeg_port w =
      bind-Ends (or_raise (m.create_session http_port w.clock.now) w) _
        (or_raise-Ends m (m.create_session http_port w.clock.now) w)
        λ u w₁.
          bind-Ends (or_raise (configured (called m w₁)) (called m w₁)) _
            (or_raise-Ends m (configured (called m w₁)) (called m w₁))
            λ v w₂.
              bind-Ends (or_raise (proxied (called m w₂)) (called m w₂)) _
                (or_raise-Ends m (proxied (called m w₂)) (called m w₂)) (λ port w₃. tt)
    where
      configured : World → Result (Unit {0}) Error
      configured v = m.configure_mjpeg http_port 30 30 v.clock.now

      proxied : World → Result ℕ Error
      proxied v = m.start_proxy mjpeg_port v.clock.now

  connect-Ends :
      (options : IosLaunchOptions) (ports : Option (ℕ × ℕ)) → AlwaysEnds (connect m options ports)
  unfolding connect
  connect-Ends options none w = tt
  connect-Ends options (some (http_port, mjpeg_port)) w =
      bind-Ends (await_status m options.status_budget w) _
        (await_status-Ends options.status_budget w)
        λ r. unless_stopped-Ends r (serve m http_port mjpeg_port) (serve-Ends http_port mjpeg_port)

  module _ (t : ℕ) (at : m.stop_at ≡ some t) where
    run_or_stopped-Ends :
        (f : ℕ) (started : Option ℕ) → t ≤ f * 50 → AlwaysEnds (run_or_stopped m (suc f) started)
    run_or_stopped-Ends f none le w = tt
    run_or_stopped-Ends f (some port) le w = run_until_stop-Ends m f t w at (omega arith)

    start_session-Ends :
        (f : ℕ) (options : IosLaunchOptions)
        → t ≤ f * 50
        → AlwaysEnds (start_session m (suc f) options)
    unfolding start_session
    start_session-Ends f options le w =
        bind-Ends (open_ports m options options.mode w) _ (open_ports-Ends options options.mode w)
          λ ports w₁.
            bind-Ends (connect m options ports w₁) _ (connect-Ends options ports w₁)
              λ started. run_or_stopped-Ends f started le

  module _ (d : ℕ) (steady : (t : ℕ) → m.os.lag t ≤ d) where
    shutdown-Ends : AlwaysEnds (shutdown m)
    unfolding shutdown
    shutdown-Ends w = elim (Bool-cases (is_empty (disconnect m w).children)) [
      | inl e ↦ rw e tt
      | inr e ↦
          let v = disconnect m w in
          let (clock, answer, same, _) =
            terminate_all-Ends (calm m) d steady (pids v.children) v.clock in
          rw (e, same) tt
    ]

    conclude-Ends : (o : Option (World × Result ExitReason Error)) → Ends o → Ends (conclude m o)
    conclude-Ends none h = h
    conclude-Ends (some (w, outcome)) h = at_end (shutdown m w) (shutdown-Ends w)
      where
        at_end :
            (o : Option (World × Result (Unit {0}) Error))
            → Ends o
            → Ends (finish_after m outcome o)
        at_end none h = h
        at_end (some (w', u)) h = tt

    ended :
        (P : World → Type 0) (o : Option World)
        → Ends o
        → Reaches P o
        → (w : World) × (o ≡ some w) × P w
    ended P none h r = absurd cc
    ended P (some w) h r = (w, refl, r)

    -- Where no call takes longer than `d`, a session that is asked to stop ends, whatever its processes, the
    -- device and the proxy do: within one turn for each 50 ms up to the request and one more, and all
    -- that it started is cleared away.
    pub supervise-stops :
        (t fuel now : ℕ) (options : IosLaunchOptions)
        → m.stop_at ≡ some t
        → t ≤ fuel * 50
        → (w : World) × (supervise m (suc fuel) options (begin now) ≡ some w) × IsCleared w
    unfolding supervise
    supervise-stops t fuel now options at le =
        ended IsCleared _
          (conclude-Ends (start_session m (suc fuel) options (begin now))
            (start_session-Ends t at fuel options le (begin now)))
          (supervise-IsCleared m options (suc fuel) now)
