-- ===== src/Wireless/Online.antt =====
-- What crates/quadcontrol-android/src/wireless.rs does with adb around the pairing: `check_adb`, `connect`,
-- `restart_adb_server`, `adb_mdns_services`, `wait_for_guid_with_cancel`, and `bring_online`, the part of
-- `pair_qr_command_with_cancel` between the end of its round and the list of devices. What starting
-- adb comes to, what its process does, and when the user cancels are parameters; Collect is one command.
pub mod Waits
pub mod Found
use quad_control.Base.{
  ℕ, zero, suc, ◌+◌, ◌-◌, Bool, true, false, ◌&&◌, ◌||◌, List, [], ◌∷◌, ◌++◌, Option, none, some,
  Result, ok, err, leb, ltb, ◌==◌, if◌then◌else◌, find,
}
use quad_control.Base.Text.{Text, codes}
use quad_control.Probe.{Device, ProbeError, is_device}
use quad_control.Probe.Parse.{parse_devices}
use quad_control.Os.{IoError, not_found}
use quad_control.Wireless.Collect.{Process, Done, collect_child}
use quad_control.Wireless.{
  WirelessError, io, adb_not_found, command_failed, timed_out, mdns_unavailable,
  no_matching_service, devices, cancelled,
}
use quad_control.Wireless.Devices.{Version, require_supported_adb}
use quad_control.Wireless.Services.{
  MdnsService, parse_mdns_services, serial_matches_guid, connect_service_for_guid, endpoint_text,
}

pub data Call : Type 0 where
  version mdns_check mdns_services devices_long kill_server start_server : Call
  connect_to : (endpoint : Text) → Call
  getprop : (serial : Text) → Call  -- `-s <serial> shell getprop ro.serialno`

pub record Adb : Type 0 where
  pub spawn : ℕ → Call → Result Process IoError  -- by the moment
  pub lag : ℕ → ℕ  -- by how much a sleep is longer
  pub cancelled_at : Option ℕ  -- when the token is cancelled
  pub signalled_at : Option ℕ  -- when a signal arrives
  pub describe : ProbeError → Text  -- its `Display`

pub record World : Type 0 where
  pub now : ℕ  -- milliseconds
  pub calls : List Call  -- the last one first

abbrev pub M : Type 0 → Type 0
M A = World → World × Result A WirelessError

abbrev pub then_do :
    {A B : Type 0} → World × Result A WirelessError → (A → M B) → World × Result B WirelessError
then_do (w, ok a) f = f a w
then_do (w, err e) f = (w, err e)

infixl 5 ◌>>=◌
abbrev pub ◌>>=◌ : {A B : Type 0} → M A → (A → M B) → M B
◌>>=◌ m f w = then_do (m w) f

abbrev pub give : {A : Type 0} → Result A WirelessError → M A
give r w = (w, r)

-- the status and the text of a failure
abbrev pub refuse_unless_zero : {A : Type 0} → ℕ → WirelessError → M A → M A
refuse_unless_zero status error next = if status == 0 then next else give (err error)

abbrev came : Option ℕ → ℕ → Bool
came none now = false
came (some t) now = leb t now

abbrev pub service_or : Option MdnsService → Result MdnsService WirelessError
service_or none = err no_matching_service
service_or (some s) = ok s

abbrev pub round_timeout : ℕ
round_timeout = 300000

abbrev spawn_error : IoError → WirelessError
spawn_error not_found = adb_not_found
spawn_error e = io e

-- `collect_child` always ends, as Collect shows; the first clause is never met.
abbrev pub collected_by : World → Option Done → World × Result (ℕ × Text × Text) WirelessError
collected_by w none = (w, err timed_out)
collected_by w (some d) = (record w { now = d.now }, d.result)

unfoldable pub run_process :
    World → Result Process IoError → World × Result (ℕ × Text × Text) WirelessError
unfolding collect_child
run_process w (err e) = (w, err (spawn_error e))
run_process w (ok p) = collected_by w (collect_child p w.now)

pub record AdbPrecheck : Type 0 where
  pub version : Version
  pub below_tested_baseline : Bool

-- `version < (37, 0, 1)`
unfoldable pub precheck : Version → AdbPrecheck
precheck (major, minor, patch) = record {
  version = (major, minor, patch);
  below_tested_baseline = ltb major 37 || (major == 37 && (minor == 0 && ltb patch 1));
}

module _ (adb : Adb) where
  unfoldable pub run_adb : Call → M (ℕ × Text × Text)
  unfolding run_process
  run_adb call w = run_process (record w { calls = call ∷ w.calls }) (adb.spawn w.now call)

  unfoldable pub is_cancelled : ℕ → Bool
  is_cancelled now = came adb.cancelled_at now

  abbrev pub signal_requested : ℕ → Bool
  signal_requested now = came adb.signalled_at now

  abbrev sleep : World → World
  sleep w = record w { now = w.now + 250 + adb.lag w.now }

  unfoldable pub check_adb : M AdbPrecheck
  unfolding run_adb require_supported_adb precheck
  check_adb = do
    (status, stdout, stderr) ← run_adb version
    refuse_unless_zero status (command_failed (codes "version")) (do
      found ← give (require_supported_adb stdout)
      (checked, out, errors) ← run_adb mdns_check
      refuse_unless_zero checked mdns_unavailable (give (ok (precheck found))))

  unfoldable pub restart_adb_server : M (Unit {0})
  unfolding run_adb
  restart_adb_server = do
    (status, stdout, stderr) ← run_adb kill_server
    refuse_unless_zero status (command_failed stderr) (do
      (restarted, out, errors) ← run_adb start_server
      refuse_unless_zero restarted (command_failed errors) (give (ok tt)))

  unfoldable pub connect : Text → M (Unit {0})
  unfolding run_adb
  connect endpoint = do
    (status, stdout, stderr) ← run_adb (connect_to endpoint)
    refuse_unless_zero status (command_failed stderr) (give (ok tt))

  unfoldable pub adb_mdns_services : M (List MdnsService)
  unfolding run_adb parse_mdns_services
  adb_mdns_services = do
    (status, stdout, stderr) ← run_adb mdns_services
    refuse_unless_zero status (command_failed stderr) (give (ok (parse_mdns_services stdout)))

  abbrev described : Result (List Device) ProbeError → Result (List Device) WirelessError
  described (ok found) = ok found
  described (err e) = err (devices (adb.describe e))

  unfoldable pub list_devices : M (List Device)
  unfolding run_adb parse_devices
  list_devices = do
    (status, stdout, stderr) ← run_adb devices_long
    refuse_unless_zero status (command_failed stderr) (give (described (parse_devices stdout)))

  abbrev pub is_found : Text → Device → Bool
  is_found guid d = serial_matches_guid d.serial guid && is_device d.state

  abbrev pub found_or : Option Device → M Text → M Text
  found_or none again w = again (sleep w)
  found_or (some d) again w = (w, ok d.serial)

  -- the loop, on fuel
  unfoldable pub wait_from : ℕ → Text → ℕ → ℕ → M Text
  unfolding list_devices is_cancelled
  wait_from zero guid started timeout w = (w, err timed_out)
  wait_from (suc fuel) guid started timeout w =
      let again = wait_from fuel guid started timeout in
      let looked =
        then_do (list_devices w) (λ found. found_or (find (is_found guid) found) again) in
      if ltb (w.now - started) timeout
      then (if is_cancelled w.now || signal_requested w.now then (w, err cancelled) else looked)
      else (w, err timed_out)

  -- Every turn that goes on takes at least 250 ms.
  unfoldable pub wait_for_guid_with_cancel : Text → ℕ → M Text
  unfolding wait_from
  wait_for_guid_with_cancel guid timeout w = wait_from (suc timeout) guid w.now timeout w

  -- `if cancel.is_cancelled() { return Err(Cancelled) }`; the round it closes again is closed already
  abbrev pub unless_cancelled : {A : Type 0} → M A → M A
  unless_cancelled next w = if is_cancelled w.now then (w, err cancelled) else next w

  abbrev pub arrives : Text → ℕ → M Text
  arrives guid deadline w = wait_for_guid_with_cancel guid (deadline - w.now) w

  abbrev pub connected : Text → ℕ → MdnsService → M Text
  connected guid deadline service =
      ◌>>=◌ (connect (endpoint_text service)) λ _. unless_cancelled (arrives guid deadline)

  abbrev pub reach_service : Text → ℕ → MdnsService → M Text
  reach_service guid deadline service = unless_cancelled (connected guid deadline service)

  -- connecting to the service of the phone, where it did not come by itself
  unfoldable pub connect_by_service : Text → ℕ → M Text
  unfolding adb_mdns_services connect_service_for_guid connect wait_for_guid_with_cancel
      endpoint_text
  connect_by_service guid deadline = do
    services ← adb_mdns_services
    service ← give (service_or (connect_service_for_guid services guid))
    reach_service guid deadline service

  abbrev pub or_connect :
      Text → ℕ → World × Result Text WirelessError → World × Result Text WirelessError
  or_connect guid deadline (w, ok serial) = (w, ok serial)
  or_connect guid deadline (w, err e) =
      if is_cancelled w.now then (w, err e) else connect_by_service guid deadline w

  abbrev pub kept : Text → M Text
  kept serial = unless_cancelled (give (ok serial))

  abbrev pub appears : Text → M Text
  appears guid w =
      then_do
        (or_connect guid (w.now + round_timeout) (wait_for_guid_with_cancel guid round_timeout w))
        kept

  unfoldable pub bring_online : Text → M Text
  unfolding connect_by_service wait_for_guid_with_cancel is_cancelled
  bring_online guid = unless_cancelled (appears guid)
