-- ===== src/Ios/Session/Waits.antt =====
-- That the waits of crates/quadcontrol-ios/src/session.rs end: each has a bound, and a request to stop
-- is seen.
use quad_control.Base.{
  ℕ, zero, suc, ◌+◌, ◌*◌, ◌≤◌, ◌<◌, ◌≡◌, refl, Bool, true, false, Option, none, some, Result, ok,
  err, leb, ltb, arith, inl, inr, Bool-cases, Option-cases, ltb→lt, ap,
}
use quad_control.Ios.Error.{Error}
use quad_control.Ios.Session.{
  ExitReason, Machine, World, SupervisedChild, Action, or_raise, continue, slept, called,
  stop_received, has_exited,
}
use quad_control.Ios.Session.Classify.{first_child_failure}
use quad_control.Ios.Session.Spawn.{settle_from}
use quad_control.Ios.Session.Start.{await_from}
use quad_control.Ios.Session.Run.{run_until_stop, ending, synced, synced_of}

abbrev pub Ends {ℓ} : {A : Type ℓ} → Option A → Type 0
Ends none = true ≡ false
Ends (some a) = Unit

abbrev pub AlwaysEnds : {A : Type 0} → Action A → Type 0
AlwaysEnds m = (w : World) → Ends (m w)

pub bind-Ends :
    {A B : Type 0} (o : Option (World × Result A Error)) (f : A → Action B)
    → Ends o
    → ((a : A) → AlwaysEnds (f a))
    → Ends (continue o f)
bind-Ends none f h g = h
bind-Ends (some (w, ok a)) f h g = g a w
bind-Ends (some (w, err e)) f h g = tt

module _ (m : Machine) where
  -- one turn, where the next one ends if it is reached
  await_turn-Ends :
      (f : ℕ) (probe : ℕ → Bool) (pause deadline : ℕ) (late : Error) (w : World)
      → (leb deadline (called m w).clock.now ≡ false
          → Ends (
              await_from m f probe pause deadline late
                (slept (pause + m.os.lag (called m w).clock.now) (called m w))))
      → Ends (await_from m (suc f) probe pause deadline late w)
  unfolding await_from
  await_turn-Ends f probe pause deadline late w next = elim (Bool-cases (stop_received m w)) [
    | inl s ↦ rw s tt
    | inr s ↦ elim (Option-cases (first_child_failure m w)) [
      | inr (e, c) ↦ rw (s, c) tt
      | inl c ↦ elim (Bool-cases (probe w.clock.now)) [
        | inl p ↦ rw (s, c, p) tt
        | inr p ↦ elim (Bool-cases (leb deadline (called m w).clock.now)) [
          | inl d ↦ rw (s, c, p, d) tt
          | inr d ↦ rw (s, c, p, d) (next d)
        ]
      ]
    ]
  ]

  pub await_from-Ends :
      (f : ℕ) (probe : ℕ → Bool) (pause deadline : ℕ) (late : Error) (w : World)
      → deadline ≤ w.clock.now + f * pause
      → Ends (await_from m (suc f) probe pause deadline late w)
  await_from-Ends zero probe pause deadline late w le =
      await_turn-Ends zero probe pause deadline late w (λ d. absurd (ground arith))
  await_from-Ends (suc g) probe pause deadline late w le =
      await_turn-Ends (suc g) probe pause deadline late w λ d.
        await_from-Ends g probe pause deadline late
          (slept (pause + m.os.lag (called m w).clock.now) (called m w)) (omega arith)

  settle_turn-Ends :
      (f deadline : ℕ) (c : SupervisedChild) (w : World)
      → (w.clock.now < deadline
          → Ends (settle_from m f deadline c (slept (20 + m.os.lag w.clock.now) w)))
      → Ends (settle_from m (suc f) deadline c w)
  unfolding settle_from
  settle_turn-Ends f deadline c w next = elim (Bool-cases (ltb w.clock.now deadline)) [
    | inr d ↦ rw d tt
    | inl d ↦ elim (Bool-cases (has_exited m w c.pid)) [
      | inl x ↦ rw (d, x) tt
      | inr x ↦ rw (d, x) (next (ltb→lt w.clock.now deadline d))
    ]
  ]

  pub settle_from-Ends :
      (f deadline : ℕ) (c : SupervisedChild) (w : World)
      → deadline ≤ w.clock.now + f * 20
      → Ends (settle_from m (suc f) deadline c w)
  settle_from-Ends zero deadline c w le =
      settle_turn-Ends zero deadline c w (λ d. absurd (omega arith))
  settle_from-Ends (suc g) deadline c w le =
      settle_turn-Ends (suc g) deadline c w
        λ d. settle_from-Ends g deadline c (slept (20 + m.os.lag w.clock.now) w) (omega arith)

  raised-Ends : (r : Result ExitReason Error) (w : World) → Ends (or_raise r w)
  raised-Ends (ok a) w = tt
  raised-Ends (err a) w = tt

  now-synced_of : (p : Option ℕ) (w : World) → (synced_of m p w).clock ≡ w.clock
  now-synced_of none w = refl
  now-synced_of (some p) w = refl

  run_turn-Ends :
      (f t : ℕ) (w : World)
      → m.stop_at ≡ some t
      → (leb t w.clock.now ≡ false
          → Ends (run_until_stop m f (slept (50 + m.os.lag w.clock.now) (synced m w))))
      → Ends (run_until_stop m (suc f) w)
  unfolding run_until_stop
  run_turn-Ends f t w at next = elim (Bool-cases (leb t w.clock.now)) [
    | inl s ↦ rw (at, s) tt
    | inr s ↦ elim (Option-cases (ending m w)) [
      | inr (r, e) ↦ rw (at, s, e) (raised-Ends r (synced m w))
      | inl e ↦ rw (at, s, e) (next s)
    ]
  ]

  pub run_until_stop-Ends :
      (f t : ℕ) (w : World)
      → m.stop_at ≡ some t
      → t ≤ w.clock.now + f * 50
      → Ends (run_until_stop m (suc f) w)
  run_until_stop-Ends zero t w at le = run_turn-Ends zero t w at (λ s. absurd (ground arith))
  run_until_stop-Ends (suc g) t w at le = run_turn-Ends (suc g) t w at λ s.
      run_until_stop-Ends g t (slept (50 + m.os.lag w.clock.now) (synced m w)) at
        (omega (arith, ap (λ c. c.now) (now-synced_of w.proxy w)))
