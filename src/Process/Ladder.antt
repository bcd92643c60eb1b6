-- ===== src/Process/Ladder.antt =====
-- `terminate`, `terminate_all` and their waits, in crates/quadcontrol-process/src/lib.rs (the unix
-- branch). What the processes and the user do is a parameter: whether a child has exited, by the
-- signals sent and the clock, whether the user has asked again, and how long calls take.
pub mod Waits
pub mod Laws
pub mod Hurried
use quad_control.Base.{
  ℕ, zero, suc, ◌+◌, ◌-◌, ◌/◌, Bool, true, false, List, [], ◌∷◌, ◌++◌, map, Option, none, some,
  Result, ok, err, ltb, leb, if◌then◌else◌, all, ◌>>=◌, ◌||◌,
}
use quad_control.Os.{IoError}

pub data Signal : Type 0 where
  sigint sigterm sigkill : Signal

pub record Env : Type 0 where
  pub exits : ℕ → List (ℕ × Signal) → ℕ → Bool  -- `try_wait` finds a status
  pub escalated : ℕ → Bool
  pub lag : ℕ → ℕ  -- how long a call of `escalated` takes, or a sleep beyond its 100 ms
  pub wait_answer : ℕ → List (ℕ × Signal) → Result (Unit {0}) IoError  -- of `child.wait()`
  pub wait_time : ℕ → List (ℕ × Signal) → ℕ  -- how long that blocks; nothing bounds it

pub record World : Type 0 where
  pub now : ℕ  -- milliseconds
  pub sent : List (ℕ × Signal)  -- to the process group of a child, the first one first

-- none: the bound on the number of polls was reached
abbrev pub Outcome : Type 0 → Type 0
Outcome A = Option (World × A)

abbrev pub and_then : {A B : Type 0} → Outcome A → (World → A → Outcome B) → Outcome B
and_then none f = none
and_then (some (w, a)) f = f w a

-- `libc::kill(-pid, signal)` for each child
abbrev pub stage : Signal → List ℕ → List (ℕ × Signal)
stage s = map (λ pid. (pid, s))

abbrev pub send : Signal → List ℕ → World → World
send s pids w = record w { sent = w.sent ++ stage s pids }

-- one poll each 100 ms
abbrev pub polls : ℕ → ℕ
polls timeout = suc (timeout / 100 + 1)

module _ (env : Env) where
  abbrev pub has_exited : World → ℕ → Bool
  has_exited w pid = env.exits pid w.sent w.now

  -- the world after a call of `escalated()`
  abbrev pub asked : World → World
  asked w = record w { now = w.now + env.lag w.now }

  abbrev pub slept : World → World
  slept w = record w { now = w.now + 100 + env.lag w.now }

  unfoldable pub wait_from : ℕ → ℕ → ℕ → ℕ → World → Outcome Bool
  wait_from zero pid start timeout w = none
  wait_from (suc fuel) pid start timeout w =
      let rest = wait_from fuel pid start timeout (slept (asked w)) in
      if ltb (w.now - start) timeout
      then (if has_exited w pid
          then some (w, true)
          else if env.escalated w.now
          then some (asked w, false)
          else rest)
      else some (w, false)

  abbrev pub wait_for : ℕ → ℕ → World → Outcome Bool
  wait_for pid timeout w = wait_from (polls timeout) pid w.now timeout w

  unfoldable pub wait_all_from : ℕ → List ℕ → ℕ → ℕ → World → Outcome Bool
  wait_all_from zero pids start timeout w = none
  wait_all_from (suc fuel) pids start timeout w =
      let rest = wait_all_from fuel pids start timeout (slept (asked w)) in
      if all (has_exited w) pids
      then some (w, true)
      else if env.escalated w.now || leb timeout ((asked w).now - start)
      then some (asked w, false)
      else rest

  abbrev pub wait_all_for : List ℕ → ℕ → World → Outcome Bool
  wait_all_for pids timeout w = wait_all_from (polls timeout) pids w.now timeout w

  -- `child.wait()?` for each child, after the signals `sent`
  abbrev pub collect : List ℕ → List (ℕ × Signal) → Result (Unit {0}) IoError
  collect [] sent = ok tt
  collect (pid ∷ pids) sent = env.wait_answer pid sent >>= λ _. collect pids sent

  abbrev unless_failed : Result (Unit {0}) IoError → ℕ → ℕ
  unless_failed (ok u) time = time
  unless_failed (err e) time = 0

  -- how long the calls of `collect` block, up to the first that fails
  abbrev pub blocked : List ℕ → List (ℕ × Signal) → ℕ
  blocked [] sent = 0
  blocked (pid ∷ pids) sent =
      env.wait_time pid sent + unless_failed (env.wait_answer pid sent) (blocked pids sent)

  abbrev pub reap_killed : List ℕ → World → World × Result (Unit {0}) IoError
  reap_killed pids w = (record w { now = w.now + blocked pids w.sent }, collect pids w.sent)

  abbrev pub kill_rung : List ℕ → World → Outcome (Result (Unit {0}) IoError)
  kill_rung pids w = some (reap_killed pids (send sigkill pids w))

  -- the first rung of each ladder
  abbrev pub terminate_first : ℕ → World → Outcome Bool
  terminate_first pid w =
      let w' = if env.escalated w.now then asked w else send sigint (pid ∷ []) (asked w) in
      if env.escalated w'.now then some (asked w', false) else wait_for pid 3000 (asked w')

  abbrev pub terminate_all_first : List ℕ → World → Outcome Bool
  terminate_all_first pids w =
      if env.escalated w.now
      then some (asked w, false)
      else wait_all_for pids 3000 (send sigint pids (asked w))

  unfoldable pub terminate : ℕ → World → Outcome (Result (Unit {0}) IoError)
  unfolding wait_from
  terminate pid w = and_then (terminate_first pid w) λ w₁ gone₁.
      if gone₁
      then some (w₁, ok tt)
      else and_then (wait_for pid 2000 (send sigterm (pid ∷ []) w₁))
          λ w₂ gone₂. if gone₂ then some (w₂, ok tt) else kill_rung (pid ∷ []) w₂

  unfoldable pub terminate_all : List ℕ → World → Outcome (Result (Unit {0}) IoError)
  unfolding wait_all_from
  terminate_all pids w = and_then (terminate_all_first pids w) λ w₁ gone₁.
      if gone₁
      then some (w₁, ok tt)
      else and_then (wait_all_for pids 2000 (send sigterm pids w₁))
          λ w₂ gone₂. if gone₂ then some (w₂, ok tt) else kill_rung pids w₂
