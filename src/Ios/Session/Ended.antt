-- ===== src/Ios/Session/Ended.antt =====
-- What `supervise` of crates/quadcontrol-ios/src/session.rs leaves at its end.
use quad_control.Base.{ℕ, refl, Option, none, some, Result, ok, err, arith, inl, inr}
use quad_control.Os.{IoError}
use quad_control.Ios.Error.{Error}
use quad_control.Process.Ladder as Ladder
use quad_control.Ios.Session.{ExitReason, IosLaunchOptions, Machine, World}
use quad_control.Ios.Session.Run.{
  start_session, disconnect, reap, after_ladder, shutdown, finish, finish_after, conclude,
  supervise, begin,
}
use quad_control.Ios.Session.Hoare.{After}
use quad_control.Ios.Session.Held.{IsHeld, AreBound, Starting}
use quad_control.Ios.Session.Served.{Live, Begun, start_session-Begun}
use quad_control.Ios.Session.Closing.{
  Reaches, IsCleared, History, Disconnected, disconnect_of-Disconnected, final_of, finish-Final,
  finish_shows, reaped_all,
}

module _ (m : Machine) (options : IosLaunchOptions) where
  finish-IsCleared :
      (clock : Ladder.World) (r : Result ExitReason Error) (p c : Option ℕ) (w v : World)
      → Disconnected m options p c w v
      → IsHeld w
      → IsCleared (finish m r (reap m clock v))
  finish-IsCleared clock r p c w v h held =
      let (s, wt, ch, st, sp, ds, px, cl) = h in
      rw (finish_shows m options r (reap m clock v))
        (reaped_all m options clock p c w v h held, refl, px, cl, refl)

  -- what a supervisor that was begun leaves at its end
  abbrev Left : World → Type 0
  Left w = IsCleared w × History w × AreBound options w

  Starting-History :
      (clock : Ladder.World) (r : Result ExitReason Error) (w v : World)
      → Disconnected m options w.proxy w.client w v
      → Starting options w
      → History (finish m r (reap m clock v))
  Starting-History clock r w v (_, _, _, st', sp', ds', _, _) (_, _, (st, px, cl, sp, ds, _)) =
      rw (finish_shows m options r (reap m clock v)) (
        final_of m options r,
        finish-Final m options r,
        inl (rw (st', st) refl, rw (sp', px, sp) refl, rw (ds', cl, ds) refl),
      )

  Live-History :
      (clock : Ladder.World) (r : Result ExitReason Error) (port : ℕ) (w v : World)
      → Disconnected m options w.proxy w.client w v
      → Live m options port w
      → History (finish m r (reap m clock v))
  Live-History clock r port w v (_, _, _, st', sp', ds', _, _)
        (_, _, st, px, (http_port, cl), sp, ds, _) =
      rw (finish_shows m options r (reap m clock v)) (
        final_of m options r,
        finish-Final m options r,
        inr (port, http_port, rw (st', st) refl, rw (sp', px, sp) refl, rw (ds', cl, ds) refl),
      )

  bound_at :
      (clock : Ladder.World) (r : Result ExitReason Error) (w v : World)
      → Disconnected m options w.proxy w.client w v
      → AreBound options w
      → AreBound options (finish m r (reap m clock v))
  bound_at clock r w v (s, _, _, _, _, _, _, _) bound =
      rw (finish_shows m options r (reap m clock v), s) bound

  Begun-Left :
      (clock : Ladder.World) (r : Result ExitReason Error) (w : World)
      → Begun m options w
      → Left (finish m r (reap m clock (disconnect m w)))
  Begun-Left clock r w b =
      let v = disconnect m w in
      let d = disconnect_of-Disconnected m options w.proxy w.client w refl refl in
      elim b [
        | inl h ↦ (
          finish-IsCleared clock r w.proxy w.client w v d h.0,
          Starting-History clock r w v d h,
          bound_at clock r w v d h.1,
        )
        | inr (port, h) ↦ (
          finish-IsCleared clock r w.proxy w.client w v d h.0,
          Live-History clock r port w v d h,
          bound_at clock r w v d h.1,
        )
      ]

  after_shutdown :
      (P : World → Type 0) (r : Result ExitReason Error) (v : World)
      (o : Ladder.Outcome (Result (Unit {0}) IoError))
      → ((clock : Ladder.World) → P (finish m r (reap m clock v)))
      → Reaches P (finish_after m r (after_ladder m o v))
  after_shutdown P r v none h = tt
  after_shutdown P r v (some (clock, answer)) h = h clock

  conclude-Reaches :
      (P : World → Type 0) (o : Option (World × Result ExitReason Error))
      → After (Begun m options) o
      → ((clock : Ladder.World) (r : Result ExitReason Error) (w : World)
          → Begun m options w
          → P (finish m r (reap m clock (disconnect m w))))
      → Reaches P (conclude m o)
  unfolding shutdown
  conclude-Reaches P none b h = tt
  conclude-Reaches P (some (w, ok reason)) b h =
      after_shutdown P (ok reason) (disconnect m w) _ (λ clock. h clock (ok reason) w b)
  conclude-Reaches P (some (w, err e)) b h =
      after_shutdown P (err e) (disconnect m w) _ (λ clock. h clock (err e) w b)

  begin-Starting : (now : ℕ) → Starting options (begin now)
  unfolding begin
  begin-Starting now = ((λ p lt. absurd (omega arith)), tt, (refl, refl, refl, refl, refl, refl))

  supervise-Left : (fuel now : ℕ) → Reaches Left (supervise m fuel options (begin now))
  unfolding supervise
  supervise-Left fuel now =
      conclude-Reaches Left (start_session m fuel options (begin now))
        (start_session-Begun m options fuel (begin now) (begin-Starting now)) Begun-Left

  Reaches-weaker :
      (P Q : World → Type 0) (o : Option World)
      → ((w : World) → P w → Q w)
      → Reaches P o
      → Reaches Q o
  Reaches-weaker P Q none f h = tt
  Reaches-weaker P Q (some w) f h = f w h

  -- Wherever a supervised session ends, each process that was started has been waited for, the proxy
  -- is stopped, no client is given out, and the end is reported.
  pub supervise-IsCleared :
      (fuel now : ℕ) → Reaches IsCleared (supervise m fuel options (begin now))
  supervise-IsCleared fuel now =
      Reaches-weaker Left IsCleared _ (λ w l. l.0) (supervise-Left fuel now)

  -- A session that ends has shown `Starting`, then perhaps `Running` once, then `Stopping`, and last why
  -- it ended: a reason, or the stable code of an error. If it was `Running`, the proxy whose port was
  -- shown was stopped, once, and the session at the device was deleted once; else neither happened.
  pub supervise-History : (fuel now : ℕ) → Reaches History (supervise m fuel options (begin now))
  supervise-History fuel now = Reaches-weaker Left History _ (λ w l. l.1) (supervise-Left fuel now)

  -- Every process that a session starts is told the session's device, and the port of the tunnel that is
  -- the session's own.
  pub supervise-AreBound :
      (fuel now : ℕ) → Reaches (AreBound options) (supervise m fuel options (begin now))
  supervise-AreBound fuel now =
      Reaches-weaker Left (AreBound options) _ (λ w l. l.2) (supervise-Left fuel now)
