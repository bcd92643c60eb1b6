-- ===== src/Process/Ladder/Waits.antt =====
-- How long the waits of crates/quadcontrol-process/src/lib.rs last, and what they answer.
use quad_control.Base.{
  ℕ, zero, suc, ◌+◌, ◌-◌, ◌*◌, ◌≤◌, ◌<◌, ◌≡◌, refl, inl, inr, Bool, true, false, List, [], ◌∷◌,
  some, arith, all, Bool-cases, ltb, leb, ltb→lt, ◌||◌,
}
use quad_control.Process.Ladder.{
  Env, World, Outcome, polls, has_exited, asked, slept, wait_from, wait_for, wait_all_from,
  wait_all_for,
}

in_time : (up : Bool) (timeout t : ℕ) → (up || leb timeout t) ≡ false → t < timeout
in_time up timeout t h = ground arith

module _ (env : Env) (d : ℕ) (steady : (t : ℕ) → env.lag t ≤ d) where
  -- A wait that began at `w` for `timeout` more milliseconds, with its result: nothing is sent, it
  -- ends in time, and `true` means that all of the children have exited.
  abbrev pub Waited : List ℕ → World → ℕ → Outcome Bool → Type 0
  Waited pids w limit o =
      (w' : World) × (gone : Bool) × (o ≡ some (w', gone))
      × (w'.sent ≡ w.sent)
      × (w.now ≤ w'.now)
      × (w'.now ≤ limit)
      × (gone ≡ true → all (has_exited env w') pids ≡ true)

  all-one :
      (w : World) (pid : ℕ) → has_exited env w pid ≡ true → all (has_exited env w) (pid ∷ []) ≡ true
  all-one w pid e = rw e refl

  wait_from-Waited :
      (fuel pid start timeout : ℕ) (w : World)
      → start ≤ w.now
      → 0 < fuel
      → start + timeout + 100 ≤ w.now + 100 * fuel
      → w.now < start + timeout + 100 + 2 * d
      → Waited (pid ∷ []) w (start + timeout + 100 + 2 * d) (wait_from env fuel pid start timeout w)
  unfolding wait_from
  wait_from-Waited zero pid start timeout w h₁ h₂ h₃ h₄ = absurd (omega arith)
  wait_from-Waited (suc fuel) pid start timeout w h₁ h₂ h₃ h₄ =
      let pause = steady w.now in
      let nap = steady (asked env w).now in
      elim (Bool-cases (ltb (w.now - start) timeout)) [
        | inr e ↦ rw e (w, false, refl, refl, omega arith, omega arith, ground arith)
        | inl e ↦
            let early = ltb→lt (w.now - start) timeout e in
            rw e (elim (Bool-cases (has_exited env w pid)) [
              | inl e₁ ↦
                  rw e₁ (w, true, refl, refl, omega arith, omega arith, λ _. all-one w pid e₁)
              | inr e₁ ↦ rw e₁ (elim (Bool-cases (env.escalated w.now)) [
                | inl e₂ ↦
                    rw e₂ (asked env w, false, refl, refl, omega arith, omega arith, ground arith)
                | inr e₂ ↦ rw e₂ (
                    let (w', gone, q, sent, after, before, said) =
                      wait_from-Waited fuel pid start timeout (slept env (asked env w))
                        (omega arith) (omega arith) (omega arith) (omega arith) in
                    (w', gone, q, sent, omega arith, before, said))
              ])
            ])
      ]

  wait_all_from-Waited :
      (fuel : ℕ) (pids : List ℕ) (start timeout : ℕ) (w : World)
      → start ≤ w.now
      → 0 < fuel
      → start + timeout + 100 ≤ w.now + 100 * fuel
      → w.now ≤ start + timeout + 100 + d
      → Waited pids w (start + timeout + 100 + 2 * d) (wait_all_from env fuel pids start timeout w)
  unfolding wait_all_from
  wait_all_from-Waited zero pids start timeout w h₁ h₂ h₃ h₄ = absurd (omega arith)
  wait_all_from-Waited (suc fuel) pids start timeout w h₁ h₂ h₃ h₄ =
      let pause = steady w.now in
      let nap = steady (asked env w).now in
      elim (Bool-cases (all (has_exited env w) pids)) [
        | inl e ↦ rw e (w, true, refl, refl, omega arith, omega arith, λ _. e)
        | inr e ↦
            rw e
              (elim (Bool-cases (env.escalated w.now || leb timeout ((asked env w).now - start))) [
                | inl e₁ ↦
                    rw e₁ (asked env w, false, refl, refl, omega arith, omega arith, ground arith)
                | inr e₁ ↦
                    let early =
                      in_time (env.escalated w.now) timeout ((asked env w).now - start) e₁ in
                    rw e₁ (
                      let (w', gone, q, sent, after, before, said) =
                        wait_all_from-Waited fuel pids start timeout (slept env (asked env w))
                          (omega arith) (omega arith) (omega arith) (omega arith) in
                      (w', gone, q, sent, omega arith, before, said))
              ])
      ]

  pub wait_for-Waited :
      (pid timeout : ℕ) (w : World)
      → Waited (pid ∷ []) w (w.now + timeout + 100 + 2 * d) (wait_for env pid timeout w)
  wait_for-Waited pid timeout w =
      wait_from-Waited (polls timeout) pid w.now timeout w (omega arith) (omega arith) (omega arith)
        (omega arith)

  pub wait_all_for-Waited :
      (pids : List ℕ) (timeout : ℕ) (w : World)
      → Waited pids w (w.now + timeout + 100 + 2 * d) (wait_all_for env pids timeout w)
  wait_all_for-Waited pids timeout w =
      wait_all_from-Waited (polls timeout) pids w.now timeout w (omega arith) (omega arith)
        (omega arith) (omega arith)
