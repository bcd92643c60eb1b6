-- ===== src/Ios/Session/Spawn.antt =====
-- `spawn_child` and `spawn_forward` of crates/quadcontrol-ios/src/session.rs.
use quad_control.Base.{
  ℕ, zero, suc, ◌+◌, Bool, true, false, List, [], ◌∷◌, ◌++◌, none, some, Result, ok, err, ltb,
  length, if◌then◌else◌,
}
use quad_control.Base.Text.{Text, codes, contains, to_ascii_lowercase}
use quad_control.Base.Text.Decimal.{decimal}
use quad_control.Os.{IoError, not_found}
use quad_control.Ios.Error.{Error, ios_not_found, forward_failed}
use quad_control.Ios.Session.{
  ChildKind, label, IosLaunchOptions, Machine, World, SupervisedChild, Action, pure, raise, modify,
  ◌>>=◌, ◌>>◌, slept, has_exited,
}
use quad_control.Ios.Session.Classify.{classify_child_failure}

abbrev not_started : Machine → Text → ChildKind → (Text → Error) → IoError → Error
not_started m ios kind wrap not_found = ios_not_found ios
not_started m ios kind wrap e =
    wrap (codes "could not start `ios " ++ label kind ++ codes "`: " ++ m.io_text e)

abbrev pub forward_args : IosLaunchOptions → ℕ → ℕ → List Text
forward_args options local remote =
    codes "forward"
    ∷ (codes "--udid=" ++ options.udid)
    ∷ (codes "--tunnel-info-port=" ++ decimal options.tunnel_info_port)
    ∷ decimal local
    ∷ decimal remote
    ∷ []

abbrev pub forward_port_attempts : ℕ
forward_port_attempts = 5

abbrev pub wait_for_child : SupervisedChild → World → World
wait_for_child c w = record w { waited = c.pid ∷ w.waited }

abbrev pub adopt : SupervisedChild → World → World
adopt c w = record w { children = w.children ++ c ∷ [] }

module _ (m : Machine) where
  -- what `command.spawn()` leaves
  abbrev pub spawn_answer :
      ChildKind
      → Text
      → List Text
      → (Text → Error)
      → Result (Unit {0}) IoError
      → Action SupervisedChild
  spawn_answer kind ios args wrap (ok _) w = some (
    record w { started = record { kind = kind; args = args } ∷ w.started },
    ok (record { kind = kind; pid = length w.started }),
  )
  spawn_answer kind ios args wrap (err e) w = some (w, err (not_started m ios kind wrap e))

  unfoldable pub spawn_child :
      ChildKind → Text → List Text → (Text → Error) → Action SupervisedChild
  spawn_child kind ios args wrap w = spawn_answer kind ios args wrap (m.spawn (length w.started)) w

  -- has the child exited within the time in which a taken port shows? One poll each 20 ms.
  unfoldable pub settle_from : ℕ → ℕ → SupervisedChild → Action Bool
  settle_from zero deadline c w = none
  settle_from (suc fuel) deadline c w =
      let rest = settle_from fuel deadline c (slept (20 + m.os.lag w.clock.now) w) in
      if ltb w.clock.now deadline
      then (if has_exited m w c.pid then pure true w else rest)
      else pure false w

  unfoldable pub settle : SupervisedChild → Action Bool
  unfolding settle_from
  settle c w = settle_from 16 (w.clock.now + 300) c w

  unfoldable pub free_port : Action ℕ
  free_port w = elim (m.free_port (length w.started)) [
    | ok port ↦ pure port w
    | err message ↦ raise (forward_failed message) w
  ]

  -- after a forward has exited early: another port, if this one was taken
  abbrev pub forward_lost : ChildKind → Text → (Text → Action ℕ) → Action ℕ
  forward_lost kind last again =
      if contains (codes "address already in use") (to_ascii_lowercase last)
      then again last
      else raise (classify_child_failure kind last)

  -- after the time to settle
  abbrev pub forward_settled : ChildKind → ℕ → (Text → Action ℕ) → SupervisedChild → Bool → Action ℕ
  forward_settled kind local again child true =
      modify (wait_for_child child) >> forward_lost kind (m.stderr_tail child.pid) again
  forward_settled kind local again child false = modify (adopt child) >> pure local

  -- with a local port
  abbrev pub forward_at : ChildKind → IosLaunchOptions → Text → ℕ → (Text → Action ℕ) → ℕ → Action ℕ
  forward_at kind options ios remote again local = do
    child ← spawn_child kind ios (forward_args options local remote) forward_failed
    exited ← settle child
    forward_settled kind local again child exited

  abbrev pub forward_one : ChildKind → IosLaunchOptions → Text → ℕ → (Text → Action ℕ) → Action ℕ
  forward_one kind options ios remote again = free_port >>= forward_at kind options ios remote again

  unfoldable pub forward_from : ℕ → Text → ChildKind → ℕ → IosLaunchOptions → Text → Action ℕ
  unfolding contains to_ascii_lowercase free_port spawn_child settle classify_child_failure decimal
  forward_from zero last kind remote options ios = raise (
      forward_failed (
        codes "`ios "
        ++ label kind
        ++ codes "` could not bind a local port after "
        ++ decimal forward_port_attempts
        ++ codes " attempts: "
        ++ last))
  forward_from (suc n) last kind remote options ios =
      forward_one kind options ios remote (λ tail. forward_from n tail kind remote options ios)

  unfoldable pub spawn_forward : ChildKind → ℕ → IosLaunchOptions → Text → Action ℕ
  unfolding forward_from
  spawn_forward = forward_from forward_port_attempts []
