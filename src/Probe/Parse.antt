-- ===== src/Probe/Parse.antt =====
-- `parse_version`, `parse_devices` and `parse_mdns` of agents/android-shell/adb-probe/src/lib.rs.
use quad_control.Base.{
  ℕ, ◌+◌, ◌^◌, ◌==◌, Bool, true, false, not, ◌&&◌, ◌||◌, List, [], ◌∷◌, map, Option, none, some,
  Result, ok, err, ok_or, if◌then◌else◌, is_empty, any, find_map, filter_map,
}
use quad_control.Base.Text.{
  Text, codes, text_eq, starts_with, strip_prefix, contains, rsplit_once, lines, split_whitespace,
  trim, trim_end_while, parse_uint,
}
use quad_control.Probe.{
  version, devices_long, DeviceState, device, offline, unauthorized, other, Transport, usb, tcp,
  emulator, Device, available, MdnsReport, ProbeError, invalid_output,
}

version_of_line : Text → Option Text
unfolding strip_prefix trim
version_of_line line = elim (strip_prefix (codes "Android Debug Bridge version ") line) [
  | none ↦ none
  | some rest ↦ if is_empty (trim rest) then none else some (trim rest)
]

unfoldable pub parse_version : Text → Result Text ProbeError
unfolding version_of_line lines
parse_version stdout =
    ok_or (find_map version_of_line (lines stdout))
      (invalid_output version (codes "version line is missing"))

abbrev is_some : Option ℕ → Bool
is_some none = false
is_some (some n) = true

unfoldable pub is_network_serial : Text → Bool
unfolding contains rsplit_once parse_uint
is_network_serial serial =
    contains (codes "_adb-tls-connect._tcp") serial || (elim (rsplit_once b':' serial) [
      | none ↦ false
      | some (host, port) ↦ not (is_empty host) && is_some (parse_uint (2 ^ 16) port)
    ])

device_state : Text → DeviceState
unfolding text_eq
device_state s =
    if text_eq s (codes "device")
    then device
    else if text_eq s (codes "offline")
    then offline
    else if text_eq s (codes "unauthorized")
    then unauthorized
    else other s

-- `replace('_', " ")`
model_of_field : Text → Option Text
unfolding strip_prefix
model_of_field field = elim (strip_prefix (codes "model:") field) [
  | none ↦ none
  | some model ↦
      if is_empty model then none else some (map (λ c. if c == b'_' then b' ' else c) model)
]

transport_of : Text → List Text → Transport
unfolding starts_with is_network_serial
transport_of serial fields =
    if starts_with (codes "emulator-") serial
    then emulator
    else if is_network_serial serial
    then tcp
    else if any (starts_with (codes "usb:")) fields
    then usb
    else Transport.unknown

device_of_fields : List Text → Option Device
unfolding device_state model_of_field transport_of
device_of_fields (serial ∷ state ∷ rest) = some (record {
  serial = serial;
  model = find_map model_of_field (serial ∷ state ∷ rest);
  state = device_state state;
  transport = transport_of serial rest;
})
device_of_fields _ = none

-- `lines.any(…)`, which leaves the iterator behind the header
after_header : List Text → Option (List Text)
unfolding text_eq trim
after_header [] = none
after_header (line ∷ rest) =
    let later = after_header rest in
    if text_eq (trim line) (codes "List of devices attached") then some rest else later

unfoldable pub parse_devices : Text → Result (List Device) ProbeError
unfolding after_header device_of_fields lines split_whitespace
parse_devices stdout = elim (after_header (lines stdout)) [
  | none ↦ err (invalid_output devices_long (codes "device-list header is missing"))
  | some rest ↦ ok (filter_map (λ line. device_of_fields (split_whitespace line)) rest)
]

-- one line of the mDNS listing
mdns_fields : List Text → MdnsReport → MdnsReport
unfolding text_eq trim_end_while
mdns_fields (name ∷ service ∷ address ∷ rest) r =
    let kind = trim_end_while (λ c. c == b'.') service in
    if text_eq kind (codes "_adb-tls-pairing._tcp")
    then record r { pairing_service_advertised = true }
    else if text_eq kind (codes "_adb-tls-connect._tcp")
    then record r { connect_service_advertised = true }
    else record r { malformed_lines = r.malformed_lines + 1 }
mdns_fields _ r = record r { malformed_lines = r.malformed_lines + 1 }

mdns_lines : List Text → MdnsReport → MdnsReport
unfolding mdns_fields text_eq trim split_whitespace
mdns_lines [] r = r
mdns_lines (line ∷ rest) r =
    let t = trim line in
    let skipped = is_empty t || text_eq t (codes "List of discovered mdns services") in
    mdns_lines rest (if skipped then r else mdns_fields (split_whitespace t) r)

unfoldable pub parse_mdns : Text → MdnsReport
unfolding mdns_lines lines
parse_mdns stdout = mdns_lines (lines stdout) (record {
  availability = available;
  pairing_service_advertised = false;
  connect_service_advertised = false;
  malformed_lines = 0;
})
