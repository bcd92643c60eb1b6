-- ===== src/Wireless/Process.antt =====
-- `PairProcess` of crates/quadcontrol-android/src/wireless.rs: one `adb pair` in flight. How long it
-- has run is an argument of `poll`.
use quad_control.Base.{
  ℕ, Bool, ◌||◌, Option, none, some, Result, ok, err, ◌>>=◌, leb, if◌then◌else◌,
}
use quad_control.Base.Text.{Text}
use quad_control.Os.{
  IoError, invalid_input, other, Child, try_wait, kill, wait, Reader, panicked, failed, captured,
  code_or_one,
}
use quad_control.Wireless.{WirelessError, io, timed_out, output_too_large}

pub record PairProcess : Type 0 where
  pub child : Child
  pub stdout : Option Reader
  pub stderr : Option Reader

pub record PairResult : Type 0 where
  pub status : ℕ
  pub out : Text
  pub err_text : Text

-- `COMMAND_TIMEOUT`, in milliseconds
abbrev pub command_timeout : ℕ
command_timeout = 10_000

-- The error of a reap: that of `wait` first, then that of `kill` unless the child was gone.
reap_result :
    Result (Unit {0}) IoError → Result (Option ℕ) IoError → Result (Unit {0}) WirelessError
reap_result killed (err e) = err (io e)
reap_result (err invalid_input) (ok s) = ok tt
reap_result (err e) (ok s) = err (io e)
reap_result (ok u) (ok s) = ok tt

unfoldable pub kill_reap : PairProcess → PairProcess × Result (Unit {0}) WirelessError
unfolding kill wait reap_result
kill_reap p =
    let (signalled, killed) = kill p.child in
    let (reaped, waited) = wait signalled in
    (record p { child = reaped; stdout = none; stderr = none }, reap_result killed waited)

-- `impl Drop`
unfoldable pub drop_process : PairProcess → PairProcess
unfolding try_wait kill wait
drop_process p =
    let (polled, answer) = try_wait p.child in
    let gone = record p { child = polled; stdout = none; stderr = none } in
    let ended = record p { child = (wait (kill polled).0).0; stdout = none; stderr = none } in
    elim answer [ err e ↦ ended | ok none ↦ ended | ok (some s) ↦ gone ]

-- `join().map_err(…)??`; the code 0 stands for the text "reader panicked".
join_reader : Reader → Result (Text × Bool) WirelessError
join_reader panicked = err (io (other 0))
join_reader (failed e) = err (io e)
join_reader (captured t truncated) = ok (t, truncated)

pair_result : ℕ → Text × Bool → Text × Bool → Result PairResult WirelessError
pair_result status (out, out_cut) (text, text_cut) =
    if out_cut || text_cut
    then err output_too_large
    else ok (record { status = status; out = out; err_text = text })

-- The readers are taken; `none` as the result is the panic of `expect` on one taken before.
finish : ℕ → PairProcess → PairProcess × Option (Result PairResult WirelessError)
unfolding join_reader pair_result
finish status p = elim p.stdout [
  | none ↦ (p, none)
  | some out ↦ elim (join_reader out) [
    | err e ↦ (record p { stdout = none }, some (err e))
    | ok kept ↦ elim p.stderr [
      | none ↦ (record p { stdout = none }, none)
      | some text ↦ (
        record p { stdout = none; stderr = none },
        some (join_reader text >>= pair_result status kept),
      )
    ]
  ]
]

abbrev Polled : Type 0
Polled = Option (Result (Option PairResult) WirelessError)

ended : Option (Result PairResult WirelessError) → Polled
ended none = none
ended (some (err e)) = some (err e)
ended (some (ok r)) = some (ok (some r))

-- `self.kill_reap()?` before the timeout is reported
overdue : Result (Unit {0}) WirelessError → Polled
overdue (err e) = some (err e)
overdue (ok u) = some (err timed_out)

-- `elapsed` is `started.elapsed()` in milliseconds.
unfoldable pub poll : PairProcess → ℕ → PairProcess × Polled
unfolding try_wait kill_reap finish ended overdue
poll p elapsed =
    let (polled, answer) = try_wait p.child in
    let now = record p { child = polled } in
    let late : PairProcess × Polled = (let (q, r) = kill_reap now in (q, overdue r)) in
    elim answer [
      | err e ↦ (now, some (err (io e)))
      | ok (some status) ↦ (let (q, r) = finish (code_or_one status) now in (q, ended r))
      | ok none ↦ if leb command_timeout elapsed then late else (now, some (ok none))
    ]
