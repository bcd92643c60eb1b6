-- ===== src/Wireless/Collect.antt =====
-- `collect_child` of crates/quadcontrol-android/src/wireless.rs: an adb command with its time limit. What the
-- child does, what its two readers hand over, and how long `wait` after a kill and the joins of the readers
-- block, which nothing in the code bounds, are parameters.
use quad_control.Base.{
  ℕ, zero, suc, ◌+◌, ◌-◌, ◌*◌, ◌≤◌, ◌<◌, ◌≡◌, refl, Bool, true, false, ◌||◌, Option, none, some,
  Result, ok, err, leb, if◌then◌else◌, arith, Bool-cases, inl, inr, leb→le,
}
use quad_control.Base.Text.{Text}
use quad_control.Os.{IoError, other, ExitStatus, code_or_one, Reader, panicked, failed, captured}
use quad_control.Wireless.{WirelessError, io, timed_out, output_too_large}

pub record Process : Type 0 where
  pub try_wait : ℕ → Result (Option ExitStatus) IoError  -- by the moment
  pub wait : Result ExitStatus IoError  -- after it is killed
  pub stdout : Reader
  pub stderr : Reader
  pub lag : ℕ → ℕ  -- by how much a sleep is longer than its 10 ms
  pub wait_time : ℕ  -- how long `wait` blocks
  pub join_time : ℕ  -- how long the joins of the two readers block: until the pipes are closed

pub record Done : Type 0 where
  pub now : ℕ  -- milliseconds
  pub is_collected : Bool  -- `try_wait` gave its status
  pub is_killed : Bool
  pub is_waited_for : Bool
  pub result : Result (ℕ × Text × Text) WirelessError

abbrev pub command_timeout : ℕ
command_timeout = 10000

abbrev read : Reader → Result (Text × Bool) WirelessError
read panicked = err (io (other 0))
read (failed e) = err (io e)
read (captured text truncated) = ok (text, truncated)

joined :
    ExitStatus
    → Result (Text × Bool) WirelessError
    → Result (Text × Bool) WirelessError
    → Result (ℕ × Text × Text) WirelessError
joined status (err e) errors = err e
joined status (ok out) (err e) = err e
joined status (ok (out, cut)) (ok (errors, shortened)) =
    if cut || shortened then err output_too_large else ok (code_or_one status, out, errors)

abbrev collected : Process → ExitStatus → ℕ → Done
collected p status now = record {
  now = now + p.join_time;
  is_collected = true;
  is_killed = false;
  is_waited_for = false;
  result = joined status (read p.stdout) (read p.stderr);
}

abbrev killed : Process → ℕ → Result (ℕ × Text × Text) WirelessError → Done
killed p now result = record {
  now = now + p.wait_time + p.join_time;
  is_collected = false;
  is_killed = true;
  is_waited_for = true;
  result = result;
}

-- `waited?` and then the time limit
abbrev late_result : Result ExitStatus IoError → Result (ℕ × Text × Text) WirelessError
late_result (err e) = err (io e)
late_result (ok status) = err timed_out

module _ (p : Process) where
  abbrev turn : ℕ → ℕ → Result (Option ExitStatus) IoError → Option Done → Option Done
  turn started now (err e) rest = some (killed p now (err (io e)))
  turn started now (ok (some status)) rest = some (collected p status now)
  turn started now (ok none) rest =
      if leb command_timeout (now - started) then some (killed p now (late_result p.wait)) else rest

  -- none: the fuel ran out
  unfoldable pub collect_from : ℕ → ℕ → ℕ → Option Done
  unfolding joined
  collect_from zero started now = none
  collect_from (suc fuel) started now =
      turn started now (p.try_wait now) (collect_from fuel started (now + 10 + p.lag now))

  -- Every turn takes at least 10 ms of the 10000.
  unfoldable pub collect_child : ℕ → Option Done
  unfolding collect_from
  collect_child now = collect_from 1001 now now

  abbrev TimesOut : ℕ → Done → Type 0
  TimesOut started d = d.result ≡ err timed_out → started + command_timeout ≤ d.now

  -- what a command comes to
  abbrev pub Reaped : ℕ → ℕ → Option Done → Type 0
  Reaped late started none = true ≡ false
  Reaped late started (some d) =
      (d.now ≤ started + command_timeout + 10 + late + p.wait_time + p.join_time)
      × ((d.is_collected || d.is_waited_for) ≡ true)
      × (d.is_killed ≡ d.is_waited_for)
      × TimesOut started d

  joined-timely :
      (status : ExitStatus) (out errors : Reader)
      → {A : Type 0} → joined status (read out) (read errors) ≡ err timed_out
      → A
  unfolding joined
  joined-timely status panicked errors h = cc
  joined-timely status (failed e) errors h = cc
  joined-timely status (captured text cut) panicked h = cc
  joined-timely status (captured text cut) (failed e) h = cc
  joined-timely status (captured text cut) (captured t c) h = ground arith

  turn-Reaped :
      (late started now : ℕ) (r : Result (Option ExitStatus) IoError) (rest : Option Done)
      → now ≤ started + command_timeout + 10 + late
      → (leb command_timeout (now - started) ≡ false → Reaped late started rest)
      → Reaped late started (turn started now r rest)
  turn-Reaped late started now (err e) rest le h = (omega arith, refl, refl, λ t. cc)
  turn-Reaped late started now (ok (some status)) rest le h =
      (omega arith, refl, refl, λ t. joined-timely status p.stdout p.stderr t)
  turn-Reaped late started now (ok none) rest le h =
      elim (Bool-cases (leb command_timeout (now - started))) [
        | inl d ↦
            let over = leb→le command_timeout (now - started) d in
            rw d (omega arith, refl, refl, λ t. omega arith)
        | inr d ↦ rw d (h d)
      ]

  collect_from-Reaped :
      (late : ℕ)
      → ((t : ℕ) → p.lag t ≤ late)
      → (fuel started now : ℕ) → started + command_timeout ≤ now + fuel * 10
      → now ≤ started + command_timeout + 10 + late
      → Reaped late started (collect_from (suc fuel) started now)
  unfolding collect_from
  collect_from-Reaped late timely zero started now f le =
      turn-Reaped late started now (p.try_wait now) _ le (λ d. absurd (ground arith))
  collect_from-Reaped late timely (suc fuel) started now f le =
      turn-Reaped late started now (p.try_wait now) _ le (λ d.
        let t = timely now in
        let short : now < started + command_timeout = ground arith in
        collect_from-Reaped late timely fuel started _ (omega arith) (omega arith))

  -- Where the wait after a kill and the joins of its readers return, an adb command comes to an end within 10 s
  -- and one sleep of 10 ms, and later only by what these take. On every path its process has been collected,
  -- or it was killed and waited for. That it took too long is reported only after the 10 s.
  pub collect_child-Reaped :
      (late : ℕ) → ((t : ℕ) → p.lag t ≤ late) → (now : ℕ) → Reaped late now (collect_child now)
  unfolding collect_child
  collect_child-Reaped late timely now =
      collect_from-Reaped late timely 1000 now now (omega arith) (omega arith)
