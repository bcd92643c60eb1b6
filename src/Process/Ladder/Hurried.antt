-- ===== src/Process/Ladder/Hurried.antt =====
-- The ladder of crates/quadcontrol-process/src/lib.rs for a user who has asked again.
use quad_control.Base.{
  ℕ, ◌≡◌, refl, true, false, List, some, ok, if◌then◌else◌, all, Bool-cases, inl, inr,
}
use quad_control.Process.Ladder.{
  sigterm, send, kill_rung, Env, World, has_exited, asked, wait_all_from, wait_all_for,
  terminate_all,
}

module _ (env : Env) (hurried : (t : ℕ) → env.escalated t ≡ true) where
  wait_all-hurried :
      (pids : List ℕ) (timeout : ℕ) (w : World)
      → wait_all_for env pids timeout w
        ≡ (if all (has_exited env w) pids then some (w, true) else some (asked env w, false))
  unfolding wait_all_from
  wait_all-hurried pids timeout w = elim (Bool-cases (all (has_exited env w) pids)) [
    | inl e ↦ rw e refl
    | inr e ↦ rw (e, hurried w.now) refl
  ]

  -- Where `escalated` always says yes: SIGTERM to each child, one look at the children, and where one of
  -- them has not exited SIGKILL to each; no SIGINT, and no sleep.
  pub terminate_all-hurried :
      (pids : List ℕ) (w : World)
      → terminate_all env pids w ≡ (
          let w₁ = send sigterm pids (asked env w) in
          if all (has_exited env w₁) pids
          then some (w₁, ok tt)
          else kill_rung env pids (asked env w₁))
  unfolding terminate_all
  terminate_all-hurried pids w =
      let w₁ = send sigterm pids (asked env w) in
      rw (hurried w.now, wait_all-hurried pids 2000 w₁)
        (elim (Bool-cases (all (has_exited env w₁) pids)) [ inl e ↦ rw e refl | inr e ↦ rw e refl ])
