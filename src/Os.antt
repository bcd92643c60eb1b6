-- ===== src/Os.antt =====
-- What the crates use of `std::process` and `std::io`, at one moment: a child's next answers are
-- fields of it, and what the calls do to it is recorded.
use quad_control.Base.{ℕ, Bool, true, Option, none, some, Result, ok, err, to_option}
use quad_control.Base.Text.{Text}

-- `io::Error`, by the kinds that the code asks for.
pub data IoError : Type 0 where
  not_found invalid_input : IoError
  other : ℕ → IoError

-- `ExitStatus::code`: none when a signal ended the process.
abbrev pub ExitStatus : Type 0
ExitStatus = Option ℕ

-- `status.code().unwrap_or(1)`
abbrev pub code_or_one : ExitStatus → ℕ
code_or_one none = 1
code_or_one (some c) = c

pub record Child : Type 0 where
  pub exit : Option ExitStatus  -- the status, once collected: the process is reaped
  pub signalled : Bool
  pub try_wait_answer : Result (Option ExitStatus) IoError
  pub kill_answer : Result (Unit {0}) IoError
  pub wait_answer : Result ExitStatus IoError

abbrev collected : Result (Option ExitStatus) IoError → Option ExitStatus
collected (ok o) = o
collected (err e) = none

unfoldable pub try_wait : Child → Child × Result (Option ExitStatus) IoError
try_wait c = elim c.exit [
  | some s ↦ (c, ok (some s))
  | none ↦ (record c { exit = collected c.try_wait_answer }, c.try_wait_answer)
]

unfoldable pub kill : Child → Child × Result (Unit {0}) IoError
kill c = (record c { signalled = true }, c.kill_answer)

unfoldable pub wait : Child → Child × Result ExitStatus IoError
wait c = elim c.exit [
  | some s ↦ (c, ok s)
  | none ↦ (record c { exit = to_option c.wait_answer }, c.wait_answer)
]

-- The join handle of a thread that reads one stream to its end.
pub data Reader : Type 0 where
  panicked : Reader
  failed : IoError → Reader
  captured : Text → Bool → Reader  -- the bytes kept, and whether some were dropped
