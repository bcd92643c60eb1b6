-- ===== src/Examples/Probe.antt =====
-- A probe that fails at its second command, a stream cut off, and a phone that is listed twice.
use quad_control.Base.{
  some, ℕ, ◌≡◌, refl, List, [], ◌∷◌, map, none, ok, err, length, take, ltb, if◌then◌else◌,
}
use quad_control.Base.Text.{Text, codes, text_eq}
use quad_control.Probe.{
  version, devices_long, mdns_services, ExecutionError, timed_out, device, usb, tcp, Device,
}
use quad_control.Probe.Json.{json_escape, plain, read_json, json_escape-read}
use quad_control.Probe.Run.{Runner, run_probe, read_limited}
use quad_control.Probe.Run.Laws.{
  Follows, steps, run_probe-Follows, bytes_of, answers_of, read_limited-kept,
}
use quad_control.Wireless.Devices.{Pairs, same_device, deduplicate_devices}
use quad_control.Wireless.Devices.Laws.{phones_from, deduplicate_devices-phones}

abbrev silent : Runner
silent version =
    ok (record { status = 0; stdout = codes "Android Debug Bridge version 1.0.41"; stderr = [] })
silent devices_long = err (timed_out devices_long)
silent mdns_services = err ExecutionError.adb_not_found

run_probe-Follows_example : Follows (steps silent) (run_probe silent)
run_probe-Follows_example = run_probe-Follows silent

two_commands : (run_probe silent).0 ≡ version ∷ devices_long ∷ []
unfolding run_probe
two_commands = refl

abbrev chunks : List Text
chunks = codes "abc" ∷ codes "de" ∷ [] ∷ codes "f" ∷ []

read_limited-kept_example :
    read_limited 4 (answers_of chunks)
    ≡ ok (record { bytes = take 4 (bytes_of chunks); truncated = ltb 4 (length (bytes_of chunks)) })
read_limited-kept_example = read_limited-kept 4 chunks

abbrev wired : Device
wired = record { serial = codes "R5"; model = none; state = device; transport = usb }

abbrev wireless : Device
wireless = record { serial = codes "adb-R5"; model = none; state = device; transport = tcp }

abbrev tablet : Device
tablet = record { serial = codes "T9"; model = none; state = device; transport = usb }

abbrev serials : Pairs
serials = (codes "R5", codes "adb-R5") ∷ []

abbrev identity : Device → ℕ
identity d = if text_eq d.serial (codes "T9") then 2 else 1

deduplicate_devices-phones_example :
    map identity (deduplicate_devices (wired ∷ tablet ∷ wireless ∷ []) serials)
    ≡ phones_from serials identity [] (wired ∷ tablet ∷ wireless ∷ [])
unfolding text_eq same_device
deduplicate_devices-phones_example =
    deduplicate_devices-phones serials identity (wired ∷ tablet ∷ wireless ∷ [])
      ((refl, (refl, tt)), ((refl, tt), (tt, tt)))

one_phone : deduplicate_devices (wired ∷ tablet ∷ wireless ∷ []) serials ≡ wireless ∷ tablet ∷ []
unfolding deduplicate_devices
one_phone = refl

json_escape-read_example : read_json plain (json_escape (codes "a\"b")) ≡ some (codes "a\"b")
json_escape-read_example = json_escape-read (codes "a\"b")

bell_escaped : json_escape (b'a' ∷ 7 ∷ []) ≡ codes "a\\u0007"
unfolding json_escape
bell_escaped = refl
