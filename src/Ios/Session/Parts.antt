-- ===== src/Ios/Session/Parts.antt =====
-- What all of the start of a session of crates/quadcontrol-ios/src/session.rs keeps.
use quad_control.Base.{ℕ, suc, ◌+◌, ◌/◌, refl, List, Option}
use quad_control.Base.Text.{Text, text_eq}
use quad_control.Base.Text.Decimal.{decimal}
use quad_control.Base.Text.Equality.{text_eq_refl}
use quad_control.Ios.Error.{Error, tunnel_failed, wda_unreachable}
use quad_control.Ios.Session.{
  ChildKind, tunnel, run_wda, forward_http, forward_mjpeg, Readiness, ready, stop_requested, WdaIds,
  launch, attach, LaunchMode, IosLaunchOptions, Machine, World, SupervisedChild, Action, modify,
  ◌>>=◌, ◌>>◌,
}
use quad_control.Ios.Session.Spawn.{spawn_child, spawn_forward, adopt}
use quad_control.Ios.Session.Start.{
  await_tunnel, await_status, unless_stopped, launch_rest, open_ports, tunnel_args, run_wda_args,
}
use quad_control.Ios.Session.Hoare.{bind-Then, Keeps, bind-Keeps}
use quad_control.Ios.Session.Kept.{
  Kept, IsBound, await_from-Keeps, spawn_child-Then, spawn_forward-Keeps,
}

module _ (m : Machine) (options : IosLaunchOptions) (I : World → Type 0)
    (J : SupervisedChild → World → Type 0) (kept : Kept m options I J) where
  tunnel_args-IsBound : IsBound options (tunnel_args options)
  unfolding text_eq
  tunnel_args-IsBound = (
    rw (text_eq_refl options.udid) refl,
    rw (text_eq_refl (decimal options.tunnel_info_port)) refl,
  )

  run_wda_args-IsBound : (wda : WdaIds) → IsBound options (run_wda_args options wda)
  unfolding text_eq
  run_wda_args-IsBound wda = (
    rw (text_eq_refl options.udid) refl,
    rw (text_eq_refl (decimal options.tunnel_info_port)) refl,
  )

  -- a child that is started and owned, and what follows
  spawn_adopt-Keeps :
      {A : Type 0} (kind : ChildKind) (ios : Text) (args : List Text) (wrap : Text → Error)
      (next : Action A)
      → IsBound options args
      → Keeps I next
      → Keeps I (spawn_child m kind ios args wrap >>= λ c. (modify (adopt c) >> next))
  spawn_adopt-Keeps kind ios args wrap next b k w h =
      bind-Then J (λ a. I) (λ e. I) (spawn_child m kind ios args wrap w)
        (λ c. modify (adopt c) >> next)
        (spawn_child-Then m options I J kept kind ios args wrap w b h)
        (λ c w₁ h₁. k (adopt c w₁) (kept.adopted c w₁ h₁))

  pub unless_stopped-Keeps :
      {A : Type 0} (r : Readiness) (next : Action (Option A))
      → Keeps I next
      → Keeps I (unless_stopped m r next)
  unless_stopped-Keeps ready next k w h = k w h
  unless_stopped-Keeps stop_requested next k w h = h

  launch_rest-Keeps : (ios : Text) (wda : WdaIds) → Keeps I (launch_rest m options ios wda)
  launch_rest-Keeps ios wda =
      spawn_adopt-Keeps run_wda ios (run_wda_args options wda) wda_unreachable _
        (run_wda_args-IsBound wda)
        (bind-Keeps I (spawn_forward m forward_http 8100 options ios) _
          (spawn_forward-Keeps m options I J kept forward_http 8100 ios)
          λ http_port.
            bind-Keeps I (spawn_forward m forward_mjpeg 9100 options ios) _
              (spawn_forward-Keeps m options I J kept forward_mjpeg 9100 ios) (λ mjpeg_port w h. h))

  await_tunnel-Keeps : Keeps I (await_tunnel m options)
  unfolding await_tunnel
  await_tunnel-Keeps w h =
      await_from-Keeps m options I J kept (suc (options.tunnel_ready_budget / 100 + 1))
        m.tunnel_is_registered 100 (w.clock.now + options.tunnel_ready_budget) _ w h

  pub open_ports-Keeps : (mode : LaunchMode) → Keeps I (open_ports m options mode)
  unfolding open_ports
  open_ports-Keeps (attach http_port mjpeg_port) w h = h
  open_ports-Keeps (launch ios wda) w h =
      spawn_adopt-Keeps tunnel ios (tunnel_args options) tunnel_failed _ tunnel_args-IsBound
        (bind-Keeps I (await_tunnel m options) _ await_tunnel-Keeps
          λ r. unless_stopped-Keeps r (launch_rest m options ios wda) (launch_rest-Keeps ios wda))
        w h

  pub await_status-Keeps : (budget : ℕ) → Keeps I (await_status m budget)
  unfolding await_status
  await_status-Keeps budget w h =
      await_from-Keeps m options I J kept (suc (budget / 200 + 1)) m.answers_status 200
        (w.clock.now + budget) _ w h
