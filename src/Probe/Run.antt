-- ===== src/Probe/Run.antt =====
-- `run_probe` and `read_limited` of agents/android-shell/adb-probe/src/lib.rs. The runner is a
-- parameter: what each of the three commands answers.
pub mod Laws
use quad_control.Base.{
  ℕ, zero, suc, ◌+◌, ◌-◌, ◌<◌, Bool, true, false, not, ◌&&◌, ◌||◌, List, [], ◌∷◌, ◌++◌, Option,
  none, some, Result, ok, err, min, ltb, ◌==◌, if◌then◌else◌, any, length, take, is_ok,
}
use quad_control.Base.Text.{Text, codes, text_eq, contains, to_ascii_lowercase}
use quad_control.Os.{IoError}
use quad_control.Probe.{
  AdbCommand, version, devices_long, mdns_services, CommandOutput, ExecutionError, Device, device,
  Transport, tcp, usb, emulator, unsupported, MdnsReport, unknown, ProbeReport, ProbeError,
  execution, command_failed, is_device,
}
use quad_control.Probe.Parse.{parse_version, parse_devices, parse_mdns}

abbrev pub Runner : Type 0
Runner = AdbCommand → Result CommandOutput ExecutionError

-- The result, with the commands that were run.
abbrev pub Probed : Type 0 → Type 0
Probed A = List AdbCommand × Result A ProbeError

infixl 5 ◌>>=◌
abbrev pub ◌>>=◌ : {A B : Type 0} → Probed A → (A → Probed B) → Probed B
(calls, err e) >>= f = (calls, err e)
(calls, ok a) >>= f = (calls ++ (f a).0, (f a).1)

abbrev parsed : {A : Type 0} → Result A ProbeError → Probed A
parsed r = ([], r)

unfoldable pub command_failure : AdbCommand → CommandOutput → ProbeError
command_failure command output = command_failed command output.status output.stderr

unfoldable pub mdns_is_unsupported : CommandOutput → Bool
unfolding to_ascii_lowercase contains
mdns_is_unsupported output =
    let message = to_ascii_lowercase (output.stdout ++ 10 ∷ output.stderr) in
    contains (codes "unknown command") message || contains (codes "not supported") message

abbrev answer_of : AdbCommand → Result CommandOutput ExecutionError → Probed CommandOutput
answer_of command (err e) = (command ∷ [], err (execution e))
answer_of command (ok output) = (command ∷ [], ok output)

-- `runner.run(command).map_err(…)?`
abbrev pub ask : Runner → AdbCommand → Probed CommandOutput
ask runner command = answer_of command (runner command)

-- a status that is not 0 is the command's failure
abbrev checked : AdbCommand → CommandOutput → Probed CommandOutput
checked command output =
    if output.status == 0 then ([], ok output) else ([], err (command_failure command output))

abbrev pub no_mdns : MdnsReport
no_mdns = record {
  availability = unsupported;
  pairing_service_advertised = false;
  connect_service_advertised = false;
  malformed_lines = 0;
}

mdns_of : CommandOutput → Result MdnsReport ProbeError
unfolding parse_mdns command_failure mdns_is_unsupported
mdns_of output =
    if output.status == 0
    then ok (parse_mdns output.stdout)
    else if mdns_is_unsupported output
    then ok no_mdns
    else err (command_failure mdns_services output)

abbrev is_tcp : Transport → Bool
is_tcp tcp = true
is_tcp _ = false

abbrev pub is_wireless : Device → Bool
is_wireless d = is_tcp d.transport && is_device d.state

abbrev pub report : Text → List Device → MdnsReport → ProbeReport
report adb_version devices mdns = record {
  adb_version = adb_version;
  devices = devices;
  mdns = mdns;
  wireless_connected = any is_wireless devices;
  paired_with_this_host = unknown;
}

unfoldable pub run_probe : Runner → Probed ProbeReport
unfolding parse_version parse_devices mdns_of command_failure
run_probe runner = ask runner version >>= λ output. checked version output >>= λ output.
    parsed (parse_version output.stdout) >>= λ adb_version. ask runner devices_long >>= λ output.
    checked devices_long output >>= λ output. parsed (parse_devices output.stdout) >>= λ devices.
    ask runner mdns_services >>= λ output.
    parsed (mdns_of output) >>= λ mdns. ([], ok (report adb_version devices mdns))

unfoldable pub exit_code_for : Result ProbeReport ProbeError → ℕ
exit_code_for result = if is_ok result then 0 else 1

unfoldable pub cli_args_are_valid : List Text → Bool
unfolding text_eq
cli_args_are_valid [] = true
cli_args_are_valid (flag ∷ value ∷ []) =
    text_eq flag (codes "--format") && text_eq value (codes "json")
cli_args_are_valid _ = false

pub record CapturedOutput : Type 0 where
  pub bytes : Text
  pub truncated : Bool

-- one turn of the loop of `read_limited`
abbrev pub store_chunk : ℕ → Text → CapturedOutput → CapturedOutput
store_chunk limit chunk c =
    let stored = min (limit - length c.bytes) (length chunk) in
    record {
      bytes = c.bytes ++ take stored chunk;
      truncated = c.truncated || ltb stored (length chunk);
    }

-- the answers of the reader: the end is an empty chunk, or that no answer is left
read_from : ℕ → List (Result Text IoError) → CapturedOutput → Result CapturedOutput IoError
read_from limit [] c = ok c
read_from limit (err e ∷ rest) c = err e
read_from limit (ok [] ∷ rest) c = ok c
read_from limit (ok (b ∷ chunk) ∷ rest) c = read_from limit rest (store_chunk limit (b ∷ chunk) c)

unfoldable pub read_limited : ℕ → List (Result Text IoError) → Result CapturedOutput IoError
unfolding read_from
read_limited limit answers = read_from limit answers (record { bytes = []; truncated = false })
