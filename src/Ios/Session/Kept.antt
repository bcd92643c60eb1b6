-- ===== src/Ios/Session/Kept.antt =====
-- What the start of a session keeps: a predicate on the world that the few changes the start makes
-- preserve is kept by all of it.
use quad_control.Base.{
  ℕ, zero, suc, ◌+◌, ◌≡◌, refl, Bool, true, false, List, [], ◌∷◌, ◌++◌, Result, ok, err, ltb, leb,
  length, Result-cases, Option-cases, Bool-cases, inl, inr,
}
use quad_control.Base.Text.{Text, codes, text_eq, contains, to_ascii_lowercase, one_of}
use quad_control.Base.Text.Decimal.{decimal}
use quad_control.Base.Text.Equality.{text_eq_refl}
use quad_control.Os.{IoError}
use quad_control.Ios.Error.{Error, forward_failed}
use quad_control.Ios.Session.{
  ChildKind, IosLaunchOptions, Machine, World, SupervisedChild, Action, slept, called, has_exited,
  stop_received,
}
use quad_control.Ios.Session.Classify.{first_child_failure}
use quad_control.Ios.Session.Spawn.{
  spawn_answer, spawn_child, settle_from, settle, free_port, forward_lost, forward_settled,
  forward_one, forward_from, spawn_forward, forward_args, adopt, wait_for_child,
}
use quad_control.Ios.Session.Start.{await_from}
use quad_control.Ios.Session.Hoare.{Then, After, bind-Then, Keeps, bind-Keeps, if-Keeps}

-- the command names the session's device, and the tunnel that is this session's own
abbrev pub IsBound : IosLaunchOptions → List Text → Type 0
IsBound options args =
    (one_of args (codes "--udid=" ++ options.udid) ≡ true)
    × (one_of args (codes "--tunnel-info-port=" ++ decimal options.tunnel_info_port) ≡ true)

abbrev pub as_started : ChildKind → List Text → World → World
as_started kind args w = record w { started = record { kind = kind; args = args } ∷ w.started }

abbrev pub new_child : ChildKind → World → SupervisedChild
new_child kind w = record { kind = kind; pid = length w.started }

-- `I` before and after, and `J` while a new child is not yet owned
pub record Kept (m : Machine) (options : IosLaunchOptions) (I : World → Type 0)
    (J : SupervisedChild → World → Type 0) : Type 0 where
  pub later : (ms : ℕ) (w : World) → I w → I (slept ms w)
  pub later_new : (c : SupervisedChild) (ms : ℕ) (w : World) → J c w → J c (slept ms w)
  pub spawned :
      (kind : ChildKind) (args : List Text) (w : World)
      → IsBound options args
      → I w
      → J (new_child kind w) (as_started kind args w)
  pub adopted : (c : SupervisedChild) (w : World) → J c w → I (adopt c w)
  pub waited : (c : SupervisedChild) (w : World) → J c w → I (wait_for_child c w)

module _ (m : Machine) (options : IosLaunchOptions) (I : World → Type 0)
    (J : SupervisedChild → World → Type 0) (kept : Kept m options I J) where
  pub await_from-Keeps :
      (fuel : ℕ) (probe : ℕ → Bool) (pause deadline : ℕ) (late : Error)
      → Keeps I (await_from m fuel probe pause deadline late)
  unfolding await_from
  await_from-Keeps zero probe pause deadline late w h = tt
  await_from-Keeps (suc fuel) probe pause deadline late w h =
      let h' = kept.later (m.os.lag w.clock.now) w h in
      let next =
        await_from-Keeps fuel probe pause deadline late
          (slept (pause + m.os.lag (called m w).clock.now) (called m w))
          (kept.later (pause + m.os.lag (called m w).clock.now) (called m w) h') in
      elim (Bool-cases (stop_received m w)) [
        | inl s ↦ rw s h
        | inr s ↦ elim (Option-cases (first_child_failure m w)) [
          | inr (e, f) ↦ rw (s, f) h
          | inl f ↦ elim (Bool-cases (probe w.clock.now)) [
            | inl p ↦ rw (s, f, p) h'
            | inr p ↦ elim (Bool-cases (leb deadline (called m w).clock.now)) [
              | inl d ↦ rw (s, f, p, d) h'
              | inr d ↦ rw (s, f, p, d) next
            ]
          ]
        ]
      ]

  settle_from-Then :
      (fuel deadline : ℕ) (c : SupervisedChild) (w : World)
      → J c w
      → Then (λ b. J c) (λ e. I) (settle_from m fuel deadline c w)
  unfolding settle_from
  settle_from-Then zero deadline c w h = tt
  settle_from-Then (suc fuel) deadline c w h =
      let ms = 20 + m.os.lag w.clock.now in
      let next = settle_from-Then fuel deadline c (slept ms w) (kept.later_new c ms w h) in
      elim (Bool-cases (ltb w.clock.now deadline)) [
        | inr d ↦ rw d h
        | inl d ↦ elim (Bool-cases (has_exited m w c.pid)) [
          | inl x ↦ rw (d, x) h
          | inr x ↦ rw (d, x) next
        ]
      ]

  spawn_answer-Then :
      (kind : ChildKind) (ios : Text) (args : List Text) (wrap : Text → Error)
      (r : Result (Unit {0}) IoError) (w : World)
      → IsBound options args
      → I w
      → Then J (λ e. I) (spawn_answer m kind ios args wrap r w)
  spawn_answer-Then kind ios args wrap (ok u) w b h = kept.spawned kind args w b h
  spawn_answer-Then kind ios args wrap (err e) w b h = h

  pub spawn_child-Then :
      (kind : ChildKind) (ios : Text) (args : List Text) (wrap : Text → Error) (w : World)
      → IsBound options args
      → I w
      → Then J (λ e. I) (spawn_child m kind ios args wrap w)
  unfolding spawn_child
  spawn_child-Then kind ios args wrap w b h =
      spawn_answer-Then kind ios args wrap (m.spawn (length w.started)) w b h

  free_port-Keeps : Keeps I (free_port m)
  unfolding free_port
  free_port-Keeps w h = elim (Result-cases (m.free_port (length w.started))) [
    | inl (port, e) ↦ rw (e, free_port) h
    | inr (message, e) ↦ rw (e, free_port) h
  ]

  forward_lost-Keeps :
      (kind : ChildKind) (last : Text) (again : Text → Action ℕ)
      → ((t : Text) → Keeps I (again t))
      → Keeps I (forward_lost m kind last again)
  forward_lost-Keeps kind last again ka =
      if-Keeps I (contains (codes "address already in use") (to_ascii_lowercase last)) (again last)
        _ (ka last) (λ w h. h)

  forward_args-IsBound : (local remote : ℕ) → IsBound options (forward_args options local remote)
  unfolding text_eq
  forward_args-IsBound local remote = (
    rw (text_eq_refl options.udid) refl,
    rw (text_eq_refl (decimal options.tunnel_info_port)) refl,
  )

  settled-Then :
      (kind : ChildKind) (local : ℕ) (again : Text → Action ℕ) (c : SupervisedChild)
      → ((t : Text) → Keeps I (again t))
      → (exited : Bool) (w : World) → J c w
      → After I (forward_settled m kind local again c exited w)
  settled-Then kind local again c ka true w h =
      forward_lost-Keeps kind (m.stderr_tail c.pid) again ka (wait_for_child c w)
        (kept.waited c w h)
  settled-Then kind local again c ka false w h = kept.adopted c w h

  forward_one-Keeps :
      (kind : ChildKind) (ios : Text) (remote : ℕ) (again : Text → Action ℕ)
      → ((t : Text) → Keeps I (again t))
      → Keeps I (forward_one m kind options ios remote again)
  unfolding settle
  forward_one-Keeps kind ios remote again ka =
      bind-Keeps I (free_port m) _ free_port-Keeps λ local w h.
        bind-Then J (λ a. I) (λ e. I)
          (spawn_child m kind ios (forward_args options local remote) forward_failed w) _
          (spawn_child-Then kind ios (forward_args options local remote) forward_failed w
            (forward_args-IsBound local remote) h)
          λ c w₁ h₁.
            bind-Then (λ b. J c) (λ a. I) (λ e. I) (settle m c w₁) _
              (settle_from-Then 16 (w₁.clock.now + 300) c w₁ h₁)
              (settled-Then kind local again c ka)

  forward_from-Keeps :
      (n : ℕ) (last : Text) (kind : ChildKind) (remote : ℕ) (ios : Text)
      → Keeps I (forward_from m n last kind remote options ios)
  unfolding forward_from
  forward_from-Keeps zero last kind remote ios w h = h
  forward_from-Keeps (suc n) last kind remote ios w h =
      forward_one-Keeps kind ios remote (λ tail. forward_from m n tail kind remote options ios)
        (λ tail. forward_from-Keeps n tail kind remote ios) w h

  pub spawn_forward-Keeps :
      (kind : ChildKind) (remote : ℕ) (ios : Text)
      → Keeps I (spawn_forward m kind remote options ios)
  unfolding spawn_forward
  spawn_forward-Keeps kind remote ios = forward_from-Keeps 5 [] kind remote ios
