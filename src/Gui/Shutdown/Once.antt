-- ===== src/Gui/Shutdown/Once.antt =====
-- How often the client reclaims its sessions, for the handlers in crates/quadcontrol-gui/src-tauri/src/lib.rs.
use quad_control.Base.{
  ◌+◌, Bool, false, Result, ok, err, ◌≤◌, ◌≡◌, refl, ◌≢◌, true, not, ◌&&◌, arith, if◌then◌else◌,
}
use quad_control.Gui.Shutdown.{
  Shutdown, new, begin_shutdown, background_ends, RunEvent, exit_requested, close_requested, exit,
  other, Response, passes, prevented, waits, on_event,
}

pub data Move (s : Shutdown) : Shutdown → Type 0 where
  happens : (e : RunEvent) → Move s (on_event e s).0
  ends : (r : Result (Unit {0}) (Unit {0})) → s.in_background ≡ true → Move s (background_ends r s)

pub data Reachable : Shutdown → Type 0 where
  begins : Reachable new
  moves : {s s' : Shutdown} → Reachable s → Move s s' → Reachable s'

pub record Once (s : Shutdown) : Type 0 where
  pub begun : s.reclaims ≡ (if s.started then 1 else 0)
  pub ended : s.reclaimed + s.panicked ≡ (if s.is_done then 1 else 0)
  pub running : s.in_background ≡ (s.started && not s.is_done)
  pub done_after : s.is_done ≡ true → s.started ≡ true
  pub left : s.exits ≤ s.reclaimed + s.panicked

on_event-Once : (e : RunEvent) (s : Shutdown) → Once s → Once (on_event e s).0
unfolding on_event
on_event-Once exit_requested s o = ground arith
on_event-Once close_requested s o = ground arith
on_event-Once exit s o = ground arith
on_event-Once other s o = o

background_ends-Once :
    (r : Result (Unit {0}) (Unit {0})) (s : Shutdown)
    → s.in_background ≡ true
    → Once s
    → Once (background_ends r s)
unfolding background_ends
background_ends-Once (ok u) s b o = ground arith
background_ends-Once (err u) s b o = ground arith

Reachable-Once : (s : Shutdown) → Reachable s → Once s
unfolding new
Reachable-Once s begins = ground arith
Reachable-Once s (moves {s = b} before (happens e)) = on_event-Once e b (Reachable-Once b before)
Reachable-Once s (moves {s = b} before (ends r running)) =
    background_ends-Once r b running (Reachable-Once b before)

-- What an answer to an event means, for the state after it.
abbrev pub Answered : RunEvent → Shutdown → Response → Type 0
Answered e s passes = (s.reclaims ≡ 1) × (s.reclaimed + s.panicked ≡ 1)
Answered e s prevented = (e ≢ exit) × (s.started ≡ true) × (s.reclaims ≡ 1)
Answered e s waits =
    (e ≡ exit) × (s.in_background ≡ true) × (s.reclaims ≡ 1) × (s.reclaimed + s.panicked ≡ 0)

over : (e : RunEvent) (s : Shutdown) → Once s → s.is_done ≡ true → Answered e s passes
over e s o d = (ground arith, ground arith)

begins_one :
    (e : RunEvent) (s : Shutdown) → e ≢ exit → Once s → Answered e (begin_shutdown s) prevented
unfolding begin_shutdown
begins_one e s n o = (n, ground arith, ground (arith, o.begun))

runs_on : (s : Shutdown) → Once s → s.is_done ≡ false → s.started ≡ true → Answered exit s waits
runs_on s o d b =
    (refl, ground (arith, o.running), ground (arith, o.begun), ground (arith, o.ended))

abbrev Pair : RunEvent → Shutdown × Response → Type 0
Pair e o = Answered e o.0 o.1

either :
    (b : Bool) (e : RunEvent) (x y : Shutdown × Response)
    → (b ≡ true → Pair e x)
    → (b ≡ false → Pair e y)
    → Pair e (if b then x else y)
either true e x y h g = h refl
either false e x y h g = g refl

on_event-Answered : (e : RunEvent) (s : Shutdown) → Once s → e ≢ other → Pair e (on_event e s)
unfolding on_event
on_event-Answered exit_requested s o n =
    either s.is_done exit_requested _ _ (over exit_requested s o)
      (λ d. begins_one exit_requested s (λ h. cc) o)
on_event-Answered close_requested s o n =
    either s.is_done close_requested _ _ (over close_requested s o)
      (λ d. begins_one close_requested s (λ h. cc) o)
on_event-Answered exit s o n = either s.is_done exit _ _ (over exit s o) λ d.
    either s.started exit _ _ (runs_on s o d)
      λ b. (ground (arith, o.begun), ground (arith, o.ended))
on_event-Answered other s o n = absurd (n refl)

-- In every order of the events of the window, of the application and of the background task, the sessions are
-- reclaimed at most once. An event passes only when that call has come to its end, by returning or by a panic
-- in the background; an event that is held back has begun it or found it begun; and the last event waits only
-- while it is running in the background, and begins no second one. The client calls its exit at most as often
-- as the call has come to its end.
pub on_event-reclaims :
    (s : Shutdown)
    → Reachable s
    → (e : RunEvent) → e ≢ other
    → let after = (on_event e s).0 in
      (after.reclaims ≤ 1)
      × (after.exits ≤ after.reclaimed + after.panicked)
      × Answered e after (on_event e s).1
on_event-reclaims s r e n =
    let before = Reachable-Once s r in
    let o = on_event-Once e s before in
    (ground (arith, o.begun), o.left, on_event-Answered e s before n)
