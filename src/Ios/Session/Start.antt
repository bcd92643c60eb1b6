-- ===== src/Ios/Session/Start.antt =====
-- `await_tunnel`, `await_status` and `start_session` of crates/quadcontrol-ios/src/session.rs, up to the
-- loop that runs until the session ends.
use quad_control.Base.{
  ℕ, zero, suc, ◌+◌, ◌/◌, Bool, List, [], ◌∷◌, ◌++◌, Option, none, some, err, leb, if◌then◌else◌,
}
use quad_control.Base.Text.{Text, codes}
use quad_control.Base.Text.Decimal.{decimal}
use quad_control.Ios.Error.{Error, tunnel_failed, wda_unreachable}
use quad_control.Ios.Session.{
  tunnel, run_wda, forward_http, forward_mjpeg, running, Readiness, ready, stop_requested, WdaIds,
  launch, attach, LaunchMode, IosLaunchOptions, Machine, Action, pure, or_raise, gets, modify,
  ◌>>=◌, ◌>>◌, slept, called, stop_received, show_status,
}
use quad_control.Ios.Session.Classify.{first_child_failure}
use quad_control.Ios.Session.Spawn.{adopt, spawn_child, spawn_forward}

abbrev pub mjpeg_fps : ℕ
mjpeg_fps = 30

abbrev pub mjpeg_quality : ℕ
mjpeg_quality = 30

abbrev pub tunnel_args : IosLaunchOptions → List Text
tunnel_args options =
    codes "tunnel"
    ∷ codes "start"
    ∷ codes "--userspace"
    ∷ (codes "--udid=" ++ options.udid)
    ∷ (codes "--tunnel-info-port=" ++ decimal options.tunnel_info_port)
    ∷ []

abbrev pub run_wda_args : IosLaunchOptions → WdaIds → List Text
run_wda_args options wda =
    codes "runwda"
    ∷ (codes "--udid=" ++ options.udid)
    ∷ (codes "--tunnel-info-port=" ++ decimal options.tunnel_info_port)
    ∷ (codes "--bundleid=" ++ wda.bundle_id)
    ∷ (codes "--testrunnerbundleid=" ++ wda.testrunner_id)
    ∷ (codes "--xctestconfig=" ++ wda.xctestconfig)
    ∷ []

module _ (m : Machine) where
  -- the loop that `await_tunnel` and `await_status` share: what it asks, and how long it sleeps
  unfoldable pub await_from : ℕ → (ℕ → Bool) → ℕ → ℕ → Error → Action Readiness
  await_from zero probe pause deadline late w = none
  await_from (suc fuel) probe pause deadline late w =
      let asked = called m w in
      let rest =
        await_from fuel probe pause deadline late
          (slept (pause + m.os.lag asked.clock.now) asked) in
      if stop_received m w then pure stop_requested w else elim (first_child_failure m w) [
        | some e ↦ or_raise (err e) w
        | none ↦
            if probe w.clock.now
            then pure ready asked
            else if leb deadline asked.clock.now
            then or_raise (err late) asked
            else rest
      ]

  unfoldable pub await_tunnel : IosLaunchOptions → Action Readiness
  unfolding await_from
  await_tunnel options w =
      await_from (suc (options.tunnel_ready_budget / 100 + 1)) m.tunnel_is_registered 100
        (w.clock.now + options.tunnel_ready_budget)
        (tunnel_failed (
          codes "device tunnel did not register within "
          ++ decimal (options.tunnel_ready_budget / 1000)
          ++ codes " s"))
        w

  unfoldable pub await_status : ℕ → Action Readiness
  unfolding await_from
  await_status budget w =
      await_from (suc (budget / 200 + 1)) m.answers_status 200 (w.clock.now + budget)
        (wda_unreachable
          (codes "WDA did not answer /status within " ++ decimal (budget / 1000) ++ codes " s"))
        w

  -- goes on where the wait ended with `ready`
  abbrev pub unless_stopped : {A : Type 0} → Readiness → Action (Option A) → Action (Option A)
  unless_stopped ready next = next
  unless_stopped stop_requested next = pure none

  -- the children behind the tunnel, and the two local ports
  abbrev pub launch_rest : IosLaunchOptions → Text → WdaIds → Action (Option (ℕ × ℕ))
  launch_rest options ios wda = do
    child ← spawn_child m run_wda ios (run_wda_args options wda) wda_unreachable
    modify (adopt child)
    http_port ← spawn_forward m forward_http 8100 options ios
    mjpeg_port ← spawn_forward m forward_mjpeg 9100 options ios
    pure (some (http_port, mjpeg_port))

  -- the ports of the device's two services; none: a stop was requested
  unfoldable pub open_ports : IosLaunchOptions → LaunchMode → Action (Option (ℕ × ℕ))
  unfolding await_tunnel spawn_child spawn_forward decimal
  open_ports options (attach http_port mjpeg_port) = pure (some (http_port, mjpeg_port))
  open_ports options (launch ios wda) = do
    child ← spawn_child m tunnel ios (tunnel_args options) tunnel_failed
    modify (adopt child)
    readiness ← await_tunnel options
    unless_stopped readiness (launch_rest options ios wda)

  abbrev pub now : Action ℕ
  now = gets (λ w. w.clock.now)

  abbrev pub serve : ℕ → ℕ → Action (Option ℕ)
  serve http_port mjpeg_port = do
    created ← gets (λ w. m.create_session http_port w.clock.now)
    or_raise created
    modify (called m)
    configured ← gets (λ w. m.configure_mjpeg http_port mjpeg_fps mjpeg_quality w.clock.now)
    or_raise configured
    modify (called m)
    started ← gets (λ w. m.start_proxy mjpeg_port w.clock.now)
    proxy_port ← or_raise started
    modify (λ w. record w { proxy = some proxy_port })
    modify (λ w. record w { client = some http_port })
    modify (show_status (running proxy_port))
    pure (some proxy_port)

  -- once the ports are open, until the session is `Running`; none: a stop was requested
  unfoldable pub connect : IosLaunchOptions → Option (ℕ × ℕ) → Action (Option ℕ)
  unfolding await_status
  connect options none = pure none
  connect options (some (http_port, mjpeg_port)) =
      await_status options.status_budget >>= λ readiness.
      unless_stopped readiness (serve http_port mjpeg_port)
