-- ===== src/Ios/Session/Spawns.antt =====
-- That starting the processes of crates/quadcontrol-ios/src/session.rs ends.
use quad_control.Base.{
  ℕ, zero, suc, ◌+◌, Bool, true, false, List, [], Result, ok, err, length, arith, inl, inr,
  Result-cases, if◌then◌else◌,
}
use quad_control.Base.Text.{Text, codes, contains, to_ascii_lowercase}
use quad_control.Os.{IoError}
use quad_control.Ios.Error.{Error, forward_failed}
use quad_control.Ios.Session.{
  ChildKind, IosLaunchOptions, Machine, SupervisedChild, Action, or_raise,
}
use quad_control.Ios.Session.Spawn.{
  spawn_answer, spawn_child, settle, free_port, forward_lost, forward_settled, forward_one,
  forward_from, spawn_forward, forward_args, wait_for_child,
}
use quad_control.Ios.Session.Waits.{Ends, AlwaysEnds, bind-Ends, settle_from-Ends}

module _ (m : Machine) where
  pub or_raise-Ends : {A : Type 0} (r : Result A Error) → AlwaysEnds (or_raise r)
  or_raise-Ends (ok a) w = tt
  or_raise-Ends (err e) w = tt

  pub spawn_child-Ends :
      (kind : ChildKind) (ios : Text) (args : List Text) (wrap : Text → Error)
      → AlwaysEnds (spawn_child m kind ios args wrap)
  unfolding spawn_child
  spawn_child-Ends kind ios args wrap w = at (m.spawn (length w.started))
    where
      at : (r : Result (Unit {0}) IoError) → Ends (spawn_answer m kind ios args wrap r w)
      at (ok u) = tt
      at (err e) = tt

  free_port-Ends : AlwaysEnds (free_port m)
  unfolding free_port
  free_port-Ends w = elim (Result-cases (m.free_port (length w.started))) [
    | inl (port, e) ↦ rw (e, free_port) tt
    | inr (message, e) ↦ rw (e, free_port) tt
  ]

  settle-Ends : (c : SupervisedChild) → AlwaysEnds (settle m c)
  unfolding settle
  settle-Ends c w = settle_from-Ends m 15 (w.clock.now + 300) c w (omega arith)

  if-Ends :
      {A : Type 0} (b : Bool) (f g : Action A)
      → AlwaysEnds f
      → AlwaysEnds g
      → AlwaysEnds (if b then f else g)
  if-Ends true f g h k = h
  if-Ends false f g h k = k

  forward_lost-Ends :
      (kind : ChildKind) (last : Text) (again : Text → Action ℕ)
      → ((t : Text) → AlwaysEnds (again t))
      → AlwaysEnds (forward_lost m kind last again)
  forward_lost-Ends kind last again h =
      if-Ends (contains (codes "address already in use") (to_ascii_lowercase last)) (again last) _
        (h last) (λ w. tt)

  forward_settled-Ends :
      (kind : ChildKind) (local : ℕ) (again : Text → Action ℕ) (c : SupervisedChild) (exited : Bool)
      → ((t : Text) → AlwaysEnds (again t))
      → AlwaysEnds (forward_settled m kind local again c exited)
  forward_settled-Ends kind local again c true h w =
      forward_lost-Ends kind (m.stderr_tail c.pid) again h (wait_for_child c w)
  forward_settled-Ends kind local again c false h w = tt

  forward_one-Ends :
      (kind : ChildKind) (options : IosLaunchOptions) (ios : Text) (remote : ℕ)
      (again : Text → Action ℕ)
      → ((t : Text) → AlwaysEnds (again t))
      → AlwaysEnds (forward_one m kind options ios remote again)
  forward_one-Ends kind options ios remote again h w =
      bind-Ends (free_port m w) _ (free_port-Ends w) λ local w₁.
        bind-Ends (spawn_child m kind ios (forward_args options local remote) forward_failed w₁) _
          (spawn_child-Ends kind ios (forward_args options local remote) forward_failed w₁)
          λ c w₂.
            bind-Ends (settle m c w₂) _ (settle-Ends c w₂)
              λ exited. forward_settled-Ends kind local again c exited h

  forward_from-Ends :
      (n : ℕ) (last : Text) (kind : ChildKind) (remote : ℕ) (options : IosLaunchOptions)
      (ios : Text)
      → AlwaysEnds (forward_from m n last kind remote options ios)
  unfolding forward_from
  forward_from-Ends zero last kind remote options ios w = tt
  forward_from-Ends (suc n) last kind remote options ios w =
      forward_one-Ends kind options ios remote
        (λ tail. forward_from m n tail kind remote options ios)
        (λ tail. forward_from-Ends n tail kind remote options ios) w

  pub spawn_forward-Ends :
      (kind : ChildKind) (remote : ℕ) (options : IosLaunchOptions) (ios : Text)
      → AlwaysEnds (spawn_forward m kind remote options ios)
  unfolding spawn_forward
  spawn_forward-Ends kind remote options ios = forward_from-Ends 5 [] kind remote options ios
