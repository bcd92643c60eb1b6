-- ===== src/Ios/Session/Served.antt =====
-- From the start of a session of crates/quadcontrol-ios/src/session.rs to the moment at which its end is
-- decided: the handle shows `Running` only with the proxy and the client that are there.
use quad_control.Base.{
  ℕ, zero, suc, ◌≡◌, refl, [], ◌∷◌, Option, none, some, inl, inr, ◌⊎◌, Bool-cases, Option-cases,
}
use quad_control.Ios.Error.{Error}
use quad_control.Ios.Session.{
  starting, running, Readiness, ready, stop_requested, IosLaunchOptions, Machine, World, or_raise,
  called, stop_received, show_status,
}
use quad_control.Ios.Session.Start.{
  open_ports, connect, serve, await_status, unless_stopped, mjpeg_fps, mjpeg_quality,
}
use quad_control.Ios.Session.Run.{
  run_until_stop, run_or_stopped, start_session, ending, synced, synced_of,
}
use quad_control.Ios.Session.Hoare.{Then, bind-Then, map-Then, After, Keeps, or_raise-Keeps}
use quad_control.Ios.Session.Parts.{open_ports-Keeps, await_status-Keeps}
use quad_control.Ios.Session.Held.{IsHeld, AreBound, Starting, Starting-Kept}

module _ (m : Machine) (options : IosLaunchOptions) where
  abbrev pub Live : ℕ → World → Type 0
  Live port w =
      IsHeld w
      × AreBound options w
      × (w.statuses ≡ running port ∷ starting ∷ [])
      × (w.proxy ≡ some port)
      × ((http_port : ℕ) × (w.client ≡ some http_port))
      × (w.stopped_proxies ≡ [])
      × (w.deleted_sessions ≡ [])
      × (w.clock.sent ≡ [])

  abbrev pub Begun : World → Type 0
  Begun w = Starting options w ⊎ ((port : ℕ) × Live port w)

  abbrev Connected : Option ℕ → World → Type 0
  Connected none = Starting options
  Connected (some port) = Live port

  to_live :
      (http_port port : ℕ) (w : World)
      → Starting options w
      → Live port
          (show_status (running port) (record w { proxy = some port; client = some http_port }))
  to_live http_port port w (held, bound, (shown, p, c, stopped, deleted, sent)) =
      (held, bound, rw shown refl, refl, (http_port, refl), stopped, deleted, sent)

  serve-Then :
      (http_port mjpeg_port : ℕ) (w : World)
      → Starting options w
      → Then Connected (λ e. Starting options) (serve m http_port mjpeg_port w)
  serve-Then http_port mjpeg_port w h =
      let I = Starting options in
      bind-Then (λ u. I) Connected (λ e. I) (or_raise (m.create_session http_port w.clock.now) w) _
        (or_raise-Keeps I (m.create_session http_port w.clock.now) w h)
        λ u w₁ h₁.
          let w₂ = called m w₁ in
          let configured = m.configure_mjpeg http_port mjpeg_fps mjpeg_quality w₂.clock.now in
          bind-Then (λ u. I) Connected (λ e. I) (or_raise configured w₂) _
            (or_raise-Keeps I configured w₂ h₁)
            λ v w₃ h₃.
              let w₄ = called m w₃ in
              let started = m.start_proxy mjpeg_port w₄.clock.now in
              bind-Then (λ u. I) Connected (λ e. I) (or_raise started w₄) _
                (or_raise-Keeps I started w₄ h₃) (λ port w₅ h₅. to_live http_port port w₅ h₅)

  ready-Then :
      (http_port mjpeg_port : ℕ) (r : Readiness) (w : World)
      → Starting options w
      → Then Connected (λ e. Starting options) (unless_stopped m r (serve m http_port mjpeg_port) w)
  ready-Then http_port mjpeg_port ready w h = serve-Then http_port mjpeg_port w h
  ready-Then http_port mjpeg_port stop_requested w h = h

  connect-Then :
      (ports : Option (ℕ × ℕ)) (w : World)
      → Starting options w
      → Then Connected (λ e. Starting options) (connect m options ports w)
  unfolding connect
  connect-Then none w h = h
  connect-Then (some (http_port, mjpeg_port)) w h =
      let I = Starting options in
      bind-Then (λ r. I) Connected (λ e. I) (await_status m options.status_budget w) _
        (await_status-Keeps m options I _ (Starting-Kept options m) options.status_budget w h)
        (ready-Then http_port mjpeg_port)

  synced_of-Live : (port : ℕ) (p : Option ℕ) (w : World) → Live port w → Live port (synced_of m p w)
  synced_of-Live port none w h = h
  synced_of-Live port (some p) w h = h

  run_until_stop-Keeps : (port fuel : ℕ) → Keeps (Live port) (run_until_stop m fuel)
  unfolding run_until_stop
  run_until_stop-Keeps port zero w h = tt
  run_until_stop-Keeps port (suc fuel) w h =
      let h' = synced_of-Live port w.proxy w h in
      let later = run_until_stop-Keeps port fuel _ h' in
      elim (Bool-cases (stop_received m w)) [
        | inl s ↦ rw s h
        | inr s ↦ elim (Option-cases (ending m w)) [
          | inl e ↦ rw (s, e) later
          | inr (r, e) ↦ rw (s, e) (or_raise-Keeps (Live port) r (synced m w) h')
        ]
      ]

  run_or_stopped-Begun :
      (fuel : ℕ) (started : Option ℕ) (w : World)
      → Connected started w
      → After Begun (run_or_stopped m fuel started w)
  run_or_stopped-Begun fuel none w h = inl h
  run_or_stopped-Begun fuel (some port) w h =
      map-Then (λ r. Live port) (λ r. Begun) (λ e. Live port) (λ e. Begun) (run_until_stop m fuel w)
        (λ r w' l. inr (port, l)) (λ e w' l. inr (port, l)) (run_until_stop-Keeps port fuel w h)

  -- From a world that has only begun, the end of `start_session` finds it so still, or running.
  pub start_session-Begun :
      (fuel : ℕ) (w : World) → Starting options w → After Begun (start_session m fuel options w)
  unfolding start_session
  start_session-Begun fuel w h =
      let I = Starting options in
      let E = λ (e : Error). I in
      let opened =
        map-Then (λ ports. I) (λ ports. I) E (λ e. Begun) (open_ports m options options.mode w)
          (λ ports w' i. i) (λ e w' i. inl i)
          (open_ports-Keeps m options I _ (Starting-Kept options m) options.mode w h) in
      bind-Then (λ ports. I) (λ r. Begun) (λ e. Begun) (open_ports m options options.mode w) _
        opened
        λ ports w₁ h₁.
          let connected =
            map-Then Connected Connected E (λ e. Begun) (connect m options ports w₁)
              (λ port w' i. i) (λ e w' i. inl i) (connect-Then ports w₁ h₁) in
          bind-Then Connected (λ r. Begun) (λ e. Begun) (connect m options ports w₁) _ connected
            (run_or_stopped-Begun fuel)
