-- ===== src/Process/Ladder/Laws.antt =====
-- What the ladder of crates/quadcontrol-process/src/lib.rs does: the signals in their order, what
-- is true of the children at the end, and the time it takes.
use quad_control.Base.{
  ℕ, ◌+◌, ◌*◌, ◌≤◌, ◌≡◌, refl, sym, ◌∙◌, ◌⊎◌, inl, inr, Bool, true, false, List, [], ◌∷◌, ◌++◌,
  some, Result, ok, arith, if◌then◌else◌, all, Bool-cases,
}
use mathlib.Core.List.{append-nil}
use quad_control.Os.{IoError}
use quad_control.Process.Ladder.{
  Signal, sigint, sigterm, sigkill, send, kill_rung, Env, World, Outcome, and_then, stage, send,
  has_exited, asked, wait_for, wait_all_for, collect, blocked, reap_killed, terminate_first,
  terminate_all_first, terminate, terminate_all,
}
use quad_control.Process.Ladder.Waits.{Waited, wait_for-Waited, wait_all_for-Waited}

module _ (env : Env) (d : ℕ) (steady : (t : ℕ) → env.lag t ≤ d) where
  abbrev pub interrupts : List ℕ → World → List (ℕ × Signal)
  interrupts pids w = if env.escalated w.now then [] else stage sigint pids

  -- The end of a ladder: which signals were sent after those of `w`, and what follows from it.
  abbrev pub Ended : List ℕ → World → World → Result (Unit {0}) IoError → Type 0
  Ended pids w w' r =
      ((w'.sent ≡ w.sent ++ interrupts pids w)
        × (all (has_exited env w') pids ≡ true)
        × (r ≡ ok tt)
        × (w'.now ≤ w.now + 5200 + 6 * d))
      ⊎ ((w'.sent ≡ (w.sent ++ interrupts pids w) ++ stage sigterm pids)
          × (all (has_exited env w') pids ≡ true)
          × (r ≡ ok tt)
          × (w'.now ≤ w.now + 5200 + 6 * d))
      ⊎ ((w'.sent ≡ ((w.sent ++ interrupts pids w) ++ stage sigterm pids) ++ stage sigkill pids)
          × (r ≡ collect env pids w'.sent)
          × (w'.now ≤ w.now + 5200 + 6 * d + blocked env pids w'.sent))

  -- the first rung
  abbrev First : List ℕ → World → Outcome Bool → Type 0
  First pids w o =
      (w' : World) × (gone : Bool) × (o ≡ some (w', gone))
      × (w'.sent ≡ w.sent ++ interrupts pids w)
      × (w'.now ≤ w.now + 3100 + 4 * d)
      × (gone ≡ true → all (has_exited env w') pids ≡ true)

  abbrev interrupted : ℕ → World → World
  interrupted pid w =
      if env.escalated w.now then asked env w else send sigint (pid ∷ []) (asked env w)

  interrupted-sent :
      (pid : ℕ) (w : World) → (interrupted pid w).sent ≡ w.sent ++ interrupts (pid ∷ []) w
  interrupted-sent pid w = elim (Bool-cases (env.escalated w.now)) [
    | inl e ↦ rw e (sym (append-nil w.sent))
    | inr e ↦ rw e refl
  ]

  interrupted-now : (pid : ℕ) (w : World) → (interrupted pid w).now ≤ w.now + d
  interrupted-now pid w = elim (Bool-cases (env.escalated w.now)) [
    | inl e ↦ rw e (steady-add w)
    | inr e ↦ rw e (steady-add w)
  ]
    where
      steady-add : (w : World) → w.now + env.lag w.now ≤ w.now + d
      steady-add w = omega (arith, steady w.now)

  terminate_first-First : (pid : ℕ) (w : World) → First (pid ∷ []) w (terminate_first env pid w)
  terminate_first-First pid w =
      patient (interrupted pid w) (interrupted-sent pid w) (interrupted-now pid w)
    where
      patient :
          (w₁ : World)
          → w₁.sent ≡ w.sent ++ interrupts (pid ∷ []) w
          → w₁.now ≤ w.now + d
          → First (pid ∷ []) w (
              if env.escalated w₁.now
              then some (asked env w₁, false)
              else wait_for env pid 3000 (asked env w₁))
      patient w₁ e h =
          let pause = steady w₁.now in
          elim (Bool-cases (env.escalated w₁.now)) [
            | inl e₁ ↦ rw e₁ (asked env w₁, false, refl, e, omega arith, ground arith)
            | inr e₁ ↦ rw e₁ (
                let (w', gone, q, sent, after, before, said) =
                  wait_for-Waited env d steady pid 3000 (asked env w₁) in
                (w', gone, q, sent ∙ e, omega arith, said))
          ]

  terminate_all_first-First :
      (pids : List ℕ) (w : World) → First pids w (terminate_all_first env pids w)
  terminate_all_first-First pids w =
      let pause = steady w.now in
      elim (Bool-cases (env.escalated w.now)) [
        | inl e ↦
            rw e (asked env w, false, refl, sym (append-nil w.sent), omega arith, ground arith)
        | inr e ↦ rw e (
            let (w', gone, q, sent, after, before, said) =
              wait_all_for-Waited env d steady pids 3000 (send sigint pids (asked env w)) in
            (w', gone, q, sent, omega arith, said))
      ]

  abbrev pub Ends : List ℕ → World → Outcome (Result (Unit {0}) IoError) → Type 0
  Ends pids w o =
      (w' : World) × (r : Result (Unit {0}) IoError) × (o ≡ some (w', r)) × Ended pids w w' r

  last_rung :
      (pids : List ℕ) (w w₁ w₂ : World) (gone : Bool)
      → w₁.sent ≡ w.sent ++ interrupts pids w
      → w₂.sent ≡ w₁.sent ++ stage sigterm pids
      → w₂.now ≤ w.now + 5200 + 6 * d
      → (gone ≡ true → all (has_exited env w₂) pids ≡ true)
      → Ends pids w (if gone then some (w₂, ok tt) else kill_rung env pids w₂)
  last_rung pids w w₁ w₂ true sent₁ sent₂ before said =
      (w₂, ok tt, refl, inr (inl (cc, said refl, refl, before)))
  last_rung pids w w₁ w₂ false sent₁ sent₂ before said = (
    (reap_killed env pids (send sigkill pids w₂)).0,
    (reap_killed env pids (send sigkill pids w₂)).1,
    refl,
    inr (inr (rw (sent₂, sent₁) refl, refl, omega arith)),
  )

  climb :
      (pids : List ℕ) (w : World) (o : Outcome Bool) (second : World → Outcome Bool)
      → First pids w o
      → ((w₁ : World)
          → Waited env d steady pids
              (send sigterm pids w₁)
              (w₁.now + 2000 + 100 + 2 * d)
              (second (send sigterm pids w₁)))
      → Ends pids w (
          and_then o λ w₁ gone₁.
            if gone₁
            then some (w₁, ok tt)
            else and_then
                (second (send sigterm pids w₁))
                λ w₂ gone₂. if gone₂ then some (w₂, ok tt) else kill_rung env pids w₂)
  climb pids w o second (w₁, false, q₁, sent₁, before₁, said₁) then₂ =
      let (w₂, gone₂, q₂, sent₂, after₂, before₂, said₂) = then₂ w₁ in
      rw (q₁, q₂) (last_rung pids w w₁ w₂ gone₂ sent₁ sent₂ (omega arith) said₂)
  climb pids w o second (w₁, true, q₁, sent₁, before₁, said₁) then₂ =
      rw q₁ (w₁, ok tt, refl, inl (sent₁, said₁ refl, refl, omega arith))

  -- Whatever the child and the user do, where a call of `escalated` and the delay of a sleep last at
  -- most `d` and the wait after SIGKILL returns: `terminate` returns within 5200 ms and six times `d`, and
  -- after SIGKILL as much later as that wait blocks. It sends SIGINT unless the user has asked again, and at most SIGTERM and SIGKILL after it, in
  -- this order; without SIGKILL the child has exited and there is no error, and with it the result is
  -- that of collecting the child.
  pub terminate-Ends : (pid : ℕ) (w : World) → Ends (pid ∷ []) w (terminate env pid w)
  unfolding terminate
  terminate-Ends pid w =
      climb (pid ∷ []) w (terminate_first env pid w) (wait_for env pid 2000)
        (terminate_first-First pid w)
        (λ w₁. wait_for-Waited env d steady pid 2000 (send sigterm (pid ∷ []) w₁))

  -- Under the same conditions, and however many children there are: `terminate_all` returns within 5200 ms
  -- and six times `d`, and after SIGKILL as much later as the waits for the children block. Each signal goes to the group of every
  -- child: SIGINT unless the user has asked again, and at most SIGTERM and SIGKILL after it, in this
  -- order; without SIGKILL all children have exited and there is no error, and with it the result is
  -- that of collecting them.
  pub terminate_all-Ends : (pids : List ℕ) (w : World) → Ends pids w (terminate_all env pids w)
  unfolding terminate_all
  terminate_all-Ends pids w =
      climb pids w (terminate_all_first env pids w) (wait_all_for env pids 2000)
        (terminate_all_first-First pids w)
        (λ w₁. wait_all_for-Waited env d steady pids 2000 (send sigterm pids w₁))
