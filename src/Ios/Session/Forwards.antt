-- ===== src/Ios/Session/Forwards.antt =====
-- What `spawn_forward` of crates/quadcontrol-ios/src/session.rs starts and what it leaves running.
use quad_control.Base.{
  ℕ, zero, suc, ◌+◌, ◌≤◌, ◌≡◌, refl, ap, ◌∙◌, Bool, true, false, List, [], ◌∷◌, ◌++◌, Option,
  Result, ok, err, ltb, length, arith, inl, inr, Bool-cases, Result-cases,
}
use quad_control.Base.Text.{Text, codes, contains, to_ascii_lowercase}
use quad_control.Os.{IoError}
use quad_control.Ios.Error.{Error, forward_failed}
use quad_control.Ios.Session.{
  ChildKind, IosLaunchOptions, Machine, World, SupervisedChild, Action, slept, has_exited,
}
use quad_control.Ios.Session.Spawn.{
  forward_settled, forward_at, spawn_answer, spawn_child, settle_from, settle, free_port,
  forward_one, forward_from, spawn_forward, forward_args, wait_for_child,
}
use quad_control.Ios.Session.Hoare.{Then, bind-Then, map-Then}

-- at most `n` processes more than in `w`, and the same children
abbrev pub Grown : ℕ → World → World → Type 0
Grown n w v = (v.children ≡ w.children) × (length v.started ≤ length w.started + n)

-- one child more, the process that was started last
abbrev pub Adopted : ChildKind → ℕ → World → World → Type 0
Adopted kind n w v =
    (pid : ℕ) × (v.children ≡ w.children ++ record { kind = kind; pid = pid } ∷ [])
    × (length v.started ≡ suc pid)
    × (length v.started ≤ length w.started + n)

module _ (m : Machine) (kind : ChildKind) where
  -- a new child `c`, not yet owned
  abbrev Fresh : World → SupervisedChild → World → Type 0
  Fresh w c v =
      (v.children ≡ w.children)
      × (length v.started ≡ suc (length w.started))
      × (c ≡ record { kind = kind; pid = length w.started })

  settle_from-Fresh :
      (fuel deadline : ℕ) (c : SupervisedChild) (w v : World)
      → Fresh w c v
      → Then (λ b. Fresh w c) (λ e. Grown 1 w) (settle_from m fuel deadline c v)
  unfolding settle_from
  settle_from-Fresh zero deadline c w v h = tt
  settle_from-Fresh (suc fuel) deadline c w v h =
      let next = settle_from-Fresh fuel deadline c w (slept (20 + m.os.lag v.clock.now) v) h in
      elim (Bool-cases (ltb v.clock.now deadline)) [
        | inr d ↦ rw d h
        | inl d ↦ elim (Bool-cases (has_exited m v c.pid)) [
          | inl x ↦ rw (d, x) h
          | inr x ↦ rw (d, x) next
        ]
      ]

  spawn_child-Fresh :
      (ios : Text) (args : List Text) (wrap : Text → Error) (w : World)
      → Then (Fresh w) (λ e. Grown 0 w) (spawn_child m kind ios args wrap w)
  unfolding spawn_child
  spawn_child-Fresh ios args wrap w = at (m.spawn (length w.started))
    where
      at :
          (r : Result (Unit {0}) IoError)
          → Then (Fresh w) (λ e. Grown 0 w) (spawn_answer m kind ios args wrap r w)
      at (ok u) = (refl, refl, refl)
      at (err e) = (refl, omega arith)

  free_port-Grown : (w : World) → Then (λ port v. v ≡ w) (λ e. Grown 0 w) (free_port m w)
  unfolding free_port
  free_port-Grown w = elim (Result-cases (m.free_port (length w.started))) [
    | inl (port, e) ↦ rw (e, free_port) refl
    | inr (message, e) ↦ rw (e, free_port) (refl, omega arith)
  ]

  abbrev Answers : ℕ → World → Option (World × Result ℕ Error) → Type 0
  Answers n w = Then (λ port. Adopted kind n w) (λ e. Grown n w)

  -- the same from a world that has grown by one process
  wider :
      (n : ℕ) (w v : World) (o : Option (World × Result ℕ Error))
      → v.children ≡ w.children
      → length v.started ≡ suc (length w.started)
      → Answers n v o
      → Answers (suc n) w o
  wider n w v o same one h =
      map-Then (λ port. Adopted kind n v) (λ port. Adopted kind (suc n) w) (λ e. Grown n v)
        (λ e. Grown (suc n) w) o
        (λ port u (pid, c, s, l). (
          pid,
          c ∙ ap (λ cs. cs ++ record { kind = kind; pid = pid } ∷ []) same,
          s,
          omega (arith, l, one),
        ))
        (λ e u (c, l). (c ∙ same, omega (arith, l, one))) h

  settled-Answers :
      (n local : ℕ) (again : Text → Action ℕ) (w : World)
      → ((t : Text) (u : World) → Answers n u (again t u))
      → (c : SupervisedChild) (exited : Bool) (v : World) → Fresh w c v
      → Answers (suc n) w (forward_settled m kind local again c exited v)
  settled-Answers n local again w h c true v (ch, st, is) =
      let lower = to_ascii_lowercase (m.stderr_tail c.pid) in
      elim (Bool-cases (contains (codes "address already in use") lower)) [
        | inl b ↦
            rw b (
              wider n w (wait_for_child c v) _ ch st (h (m.stderr_tail c.pid) (wait_for_child c v)))
        | inr b ↦ rw b (ch, omega (arith, st))
      ]
  settled-Answers n local again w h c false v (ch, st, is) =
      (length w.started, rw (ch, is) refl, st, omega (arith, st))

  module _ (n : ℕ) (options : IosLaunchOptions) (ios : Text) (remote : ℕ) (again : Text → Action ℕ)
      (w : World) (h : (t : Text) (u : World) → Answers n u (again t u)) where
    Lost : Error → World → Type 0
    Lost e = Grown (suc n) w

    forward_at-Answers :
        (local : ℕ) → Answers (suc n) w (forward_at m kind options ios remote again local w)
    unfolding settle Lost
    forward_at-Answers local =
        let spawned = spawn_child m kind ios (forward_args options local remote) forward_failed w in
        bind-Then (Fresh w) (λ port. Adopted kind (suc n) w) Lost spawned _
          (map-Then (Fresh w) (Fresh w) (λ e. Grown 0 w) Lost spawned (λ c v f. f)
            (λ e v (c, l). (c, omega (arith, l)))
            (spawn_child-Fresh ios (forward_args options local remote) forward_failed w))
          λ c v f.
            bind-Then (λ b. Fresh w c) (λ port. Adopted kind (suc n) w) Lost (settle m c v) _
              (map-Then (λ b. Fresh w c) (λ b. Fresh w c) (λ e. Grown 1 w) Lost (settle m c v)
                (λ b u f. f) (λ e u (c, l). (c, omega (arith, l)))
                (settle_from-Fresh 16 (v.clock.now + 300) c w v f))
              (settled-Answers n local again w h c)

    forward_one-Answers : Answers (suc n) w (forward_one m kind options ios remote again w)
    unfolding Lost
    forward_one-Answers =
        bind-Then (λ port v. v ≡ w) (λ port. Adopted kind (suc n) w) Lost (free_port m w) _
          (map-Then (λ port v. v ≡ w) (λ port v. v ≡ w) (λ e. Grown 0 w) Lost (free_port m w)
            (λ port v e. e) (λ e v (c, l). (c, omega (arith, l))) (free_port-Grown w))
          λ local v same. rw same (forward_at-Answers local)

  forward_from-Answers :
      (n : ℕ) (last : Text) (remote : ℕ) (options : IosLaunchOptions) (ios : Text) (w : World)
      → Answers n w (forward_from m n last kind remote options ios w)
  unfolding forward_from
  forward_from-Answers zero last remote options ios w = (refl, omega arith)
  forward_from-Answers (suc n) last remote options ios w =
      forward_one-Answers n options ios remote
        (λ tail. forward_from m n tail kind remote options ios) w
        (λ tail u. forward_from-Answers n tail remote options ios u)

  -- A forward takes at most five processes. If it gives a port, the last of them has become the one new
  -- child, of this kind; if it fails, there is no new child.
  pub spawn_forward-Adopted :
      (remote : ℕ) (options : IosLaunchOptions) (ios : Text) (w : World)
      → Then (λ port. Adopted kind 5 w) (λ e. Grown 5 w) (spawn_forward m kind remote options ios w)
  unfolding spawn_forward
  spawn_forward-Adopted remote options ios w = forward_from-Answers 5 [] remote options ios w
