-- ===== src/Ios/GoIos/Capture.antt =====
-- `run_capture_stdout` of crates/quadcontrol-ios/src/lib.rs: a command with a time limit. What its process does
-- is a parameter; the thread that reads its output ends with the process.
use quad_control.Base.{
  ℕ, zero, suc, ◌+◌, ◌*◌, ◌/◌, ◌≤◌, ◌≡◌, refl, Bool, true, false, Option, none, some, Result, ok,
  err, leb, if◌then◌else◌, take, arith, Bool-cases, inl, inr, leb→le, length, length-take,
}
use quad_control.Base.Text.{Text}
use quad_control.Os.{IoError, ExitStatus}

pub record Process : Type 0 where
  pub spawn : Result (Unit {0}) IoError
  pub try_wait : ℕ → Result (Option ExitStatus) IoError
  pub wait : Result ExitStatus IoError  -- after it is killed
  pub stdout : Text
  pub lag : ℕ → ℕ  -- by how much a sleep is longer than its 50 ms

pub record World : Type 0 where
  pub now : ℕ  -- milliseconds
  pub is_running : Bool  -- started and not collected
  pub is_killed : Bool

abbrev pub stdout_limit : ℕ
stdout_limit = 1024 * 1024

-- none: the bound on the turns was reached
abbrev pub Outcome : Type 0
Outcome = Option (World × Result (Bool × ExitStatus) IoError)

abbrev pub collected : World → World
collected w = record w { is_running = false }

-- `child.wait()` after the kill
abbrev pub killed : Result ExitStatus IoError → World → Outcome
killed (ok status) w = some (record w { is_running = false; is_killed = true }, ok (true, status))
killed (err e) w = some (record w { is_killed = true }, err e)

module _ (p : Process) where
  abbrev pub napped : World → World
  napped w = record w { now = w.now + 50 + p.lag w.now }

  abbrev pub turn : ℕ → World → Result (Option ExitStatus) IoError → Outcome → Outcome
  turn deadline w (err e) rest = some (w, err e)
  turn deadline w (ok (some status)) rest = some (collected w, ok (false, status))
  turn deadline w (ok none) rest = if leb deadline w.now then killed p.wait w else rest

  unfoldable pub capture_from : ℕ → ℕ → World → Outcome
  capture_from zero deadline w = none
  capture_from (suc fuel) deadline w =
      turn deadline w (p.try_wait w.now) (capture_from fuel deadline (napped w))

  abbrev pub with_output : Outcome → Option (World × Result (Bool × ExitStatus × Text) IoError)
  with_output none = none
  with_output (some (w, ok (timed_out, status))) =
      some (w, ok (timed_out, status, take stdout_limit p.stdout))
  with_output (some (w, err e)) = some (w, err e)

  abbrev pub started :
      ℕ → ℕ → Result (Unit {0}) IoError → Option (World × Result (Bool × ExitStatus × Text) IoError)
  started timeout now (err e) =
      some (record { now = now; is_running = false; is_killed = false }, err e)
  started timeout now (ok _) = with_output (
      capture_from (suc (timeout / 50 + 1)) (now + timeout)
        (record { now = now; is_running = true; is_killed = false }))

  unfoldable pub run_capture_stdout :
      ℕ → ℕ → Option (World × Result (Bool × ExitStatus × Text) IoError)
  unfolding capture_from
  run_capture_stdout timeout now = started timeout now p.spawn

  -- What a run comes to: a process whose status is given is collected, and was killed only after the
  -- time limit.
  abbrev Comes : ℕ → Outcome → Type 0
  Comes deadline none = true ≡ false
  Comes deadline (some (w, ok (timed_out, status))) =
      (w.is_running ≡ false) × (w.is_killed ≡ timed_out) × (timed_out ≡ true → deadline ≤ w.now)
  Comes deadline (some (w, err e)) = Unit

  killed-Comes :
      (deadline : ℕ) (w : World) (r : Result ExitStatus IoError)
      → deadline ≤ w.now
      → Comes deadline (killed r w)
  killed-Comes deadline w (ok status) le = (refl, refl, λ t. le)
  killed-Comes deadline w (err e) le = tt

  turn-Comes :
      (deadline : ℕ) (w : World) (r : Result (Option ExitStatus) IoError) (rest : Outcome)
      → w.is_killed ≡ false
      → (leb deadline w.now ≡ false → Comes deadline rest)
      → Comes deadline (turn deadline w r rest)
  turn-Comes deadline w (err e) rest k h = tt
  turn-Comes deadline w (ok (some status)) rest k h = (refl, k, λ t. cc)
  turn-Comes deadline w (ok none) rest k h = elim (Bool-cases (leb deadline w.now)) [
    | inl d ↦ rw d (killed-Comes deadline w p.wait (leb→le deadline w.now d))
    | inr d ↦ rw d (h d)
  ]

  capture_from-Comes :
      (fuel deadline : ℕ) (w : World)
      → w.is_killed ≡ false
      → deadline ≤ w.now + fuel * 50
      → Comes deadline (capture_from (suc fuel) deadline w)
  unfolding capture_from
  capture_from-Comes zero deadline w k le =
      turn-Comes deadline w (p.try_wait w.now) _ k (λ d. absurd (ground arith))
  capture_from-Comes (suc fuel) deadline w k le =
      turn-Comes deadline w (p.try_wait w.now) _ k
        (λ d. capture_from-Comes fuel deadline (napped w) k (omega arith))

  -- The same of a command with its output.
  abbrev pub Captured : ℕ → Option (World × Result (Bool × ExitStatus × Text) IoError) → Type 0
  Captured deadline none = true ≡ false
  Captured deadline (some (w, ok (timed_out, status, stdout))) =
      (w.is_running ≡ false)
      × (w.is_killed ≡ timed_out)
      × (timed_out ≡ true → deadline ≤ w.now)
      × (length stdout ≤ stdout_limit)
  Captured deadline (some (w, err e)) = Unit

  with_output-Captured :
      (deadline : ℕ) (o : Outcome) → Comes deadline o → Captured deadline (with_output o)
  with_output-Captured deadline none h = h
  with_output-Captured deadline (some (w, ok (timed_out, status))) (r, k, t) =
      (r, k, t, omega (arith, length-take stdout_limit p.stdout))
  with_output-Captured deadline (some (w, err e)) h = tt

  started-Captured :
      (timeout now : ℕ) (r : Result (Unit {0}) IoError)
      → Captured (now + timeout) (started timeout now r)
  started-Captured timeout now (err e) = tt
  started-Captured timeout now (ok u) =
      with_output-Captured (now + timeout) _
        (capture_from-Comes (timeout / 50 + 1) (now + timeout) _ refl (omega arith))

  -- A command with a time limit comes to an end. If there is a status, the process was collected; it was
  -- killed exactly if the time limit is reported as passed, and then it was; and the output is at most
  -- 1 MiB.
  pub run_capture_stdout-Captured :
      (timeout now : ℕ) → Captured (now + timeout) (run_capture_stdout timeout now)
  unfolding run_capture_stdout
  run_capture_stdout-Captured timeout now = started-Captured timeout now p.spawn
