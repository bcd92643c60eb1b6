-- ===== src/Ios/Session/Closing.antt =====
-- What `shutdown` of crates/quadcontrol-ios/src/session.rs closes.
use quad_control.Base.{
  ℕ, ◌<◌, ◌≡◌, refl, Bool, true, false, ◌||◌, List, [], ◌∷◌, ◌++◌, Option, none, some, Result, ok,
  err, length, ◌==◌, inl, inr, ◌⊎◌,
}
use quad_control.Ios.Error.{Error, code}
use quad_control.Process.Ladder as Ladder
use quad_control.Ios.Session.{
  starting, running, stopping, exited, failed, ExitReason, IosSessionStatus, IosLaunchOptions,
  Machine, World, SupervisedChild, show_status, pids,
}
use quad_control.Ios.Session.Run.{stop_proxy, delete_session, wait_all, reap, finish}
use quad_control.Ios.Session.Held.{has, IsHeld}

or_swap : (a b c : Bool) → (a || (b || c)) ≡ ((b || a) || c)
or_swap true true c = refl
or_swap true false c = refl
or_swap false true c = refl
or_swap false false c = refl

-- what holds of the world, if one is reached
abbrev pub Reaches : (World → Type 0) → Option World → Type 0
Reaches P none = Unit
Reaches P (some w) = P w

-- All processes are waited for, and nothing is left open.
abbrev pub IsCleared : World → Type 0
IsCleared w =
    ((p : ℕ) → p < length w.started → has p w.waited ≡ true)
    × (w.children ≡ [])
    × (w.proxy ≡ none)
    × (w.client ≡ none)
    × (w.is_done ≡ true)

abbrev pub IsFinal : IosSessionStatus → Type 0
IsFinal s = ((reason : ExitReason) × (s ≡ exited reason)) ⊎ ((e : Error) × (s ≡ failed (code e)))

-- What the handle has shown, and what was closed on the way.
abbrev pub History : World → Type 0
History w =
    (final : IosSessionStatus) × IsFinal final
    × (((w.statuses ≡ final ∷ stopping ∷ starting ∷ [])
          × (w.stopped_proxies ≡ [])
          × (w.deleted_sessions ≡ []))
        ⊎ ((proxy_port : ℕ) × (http_port : ℕ) × (w.statuses
              ≡ final ∷ stopping ∷ running proxy_port ∷ starting ∷ [])
            × (w.stopped_proxies ≡ proxy_port ∷ [])
            × (w.deleted_sessions ≡ http_port ∷ [])))

abbrev pub listed : Option ℕ → List ℕ
listed none = []
listed (some p) = p ∷ []

module _ (m : Machine) (options : IosLaunchOptions) where
  has-wait_all :
      (p : ℕ) (cs : List SupervisedChild) (waited : List ℕ)
      → has p (wait_all m cs waited) ≡ (has p (pids cs) || has p waited)
  has-wait_all p [] waited = refl
  has-wait_all p (c ∷ cs) waited =
      rw (has-wait_all p cs (c.pid ∷ waited))
        (or_swap (has p (pids cs)) (c.pid == p) (has p waited))

  abbrev pub disconnect_of : Option ℕ → Option ℕ → World → World
  disconnect_of p c w = delete_session m c (stop_proxy m p (show_status stopping w))

  -- how a world differs from `w` after the proxy and the client are gone
  abbrev pub Disconnected : Option ℕ → Option ℕ → World → World → Type 0
  Disconnected p c w v =
      (v.started ≡ w.started)
      × (v.waited ≡ w.waited)
      × (v.children ≡ w.children)
      × (v.statuses ≡ stopping ∷ w.statuses)
      × (v.stopped_proxies ≡ listed p ++ w.stopped_proxies)
      × (v.deleted_sessions ≡ listed c ++ w.deleted_sessions)
      × (v.proxy ≡ none)
      × (v.client ≡ none)

  pub disconnect_of-Disconnected :
      (p c : Option ℕ) (w : World)
      → w.proxy ≡ p
      → w.client ≡ c
      → Disconnected p c w (disconnect_of p c w)
  disconnect_of-Disconnected none none w e f = (refl, refl, refl, refl, refl, refl, e, f)
  disconnect_of-Disconnected none (some c) w e f = (refl, refl, refl, refl, refl, refl, e, refl)
  disconnect_of-Disconnected (some p) none w e f = (refl, refl, refl, refl, refl, refl, refl, f)
  disconnect_of-Disconnected (some p) (some c) w e f =
      (refl, refl, refl, refl, refl, refl, refl, refl)

  abbrev pub final_of : Result ExitReason Error → IosSessionStatus
  final_of (ok reason) = exited reason
  final_of (err e) = failed (code e)

  pub finish-Final : (r : Result ExitReason Error) → IsFinal (final_of r)
  finish-Final (ok reason) = inl (reason, refl)
  finish-Final (err e) = inr (e, refl)

  pub finish_shows :
      (r : Result ExitReason Error) (w : World)
      → finish m r w ≡ record (show_status (final_of r) w) { is_done = true }
  finish_shows (ok reason) w = refl
  finish_shows (err e) w = refl

  or_comm : (a b : Bool) → (a || b) ≡ true → (b || a) ≡ true
  or_comm true true h = refl
  or_comm true false h = refl
  or_comm false true h = refl
  or_comm false false h = h

  pub reaped_all :
      (clock : Ladder.World) (p c : Option ℕ) (w v : World)
      → Disconnected p c w v
      → IsHeld w
      → (q : ℕ) → q < length (reap m clock v).started
      → has q (reap m clock v).waited ≡ true
  reaped_all clock p c w v (s, wt, ch, _, _, _, _, _) held q lt =
      rw (has-wait_all q v.children v.waited, wt, ch)
        (or_comm (has q w.waited) (has q (pids w.children)) (held q (rw (← s) lt)))
