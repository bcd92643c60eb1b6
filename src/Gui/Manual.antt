-- ===== src/Gui/Manual.antt =====
-- `pair_manual` of crates/quadcontrol-gui/src-tauri/src/lib.rs with `pair` of
-- crates/quadcontrol-android/src/wireless.rs: pairing by an address and a code. Whether a text is the address of a
-- host (`IpAddr::from_str`), the polls of the process of adb, and the devices that adb lists at the end are
-- parameters. The erasure of the code is left out. The store that it shares with the pairing by a QR code
-- is Pairing.
pub mod Told
use quad_control.Base.{
  ℕ, Bool, true, false, not, ◌&&◌, ◌||◌, List, [], ◌∷◌, ◌++◌, Option, none, some, Result, ok, err,
  ok_or, ◌==◌, if◌then◌else◌, all, any, find, length,
}
use quad_control.Base.Text.{Text, codes, text_eq, is_ascii_digit}
use quad_control.Base.Text.Decimal.{decimal}
use quad_control.Android.{Error}
use quad_control.Probe.{Device}
use quad_control.Wireless.{WirelessError, command_failed, pair_output_unparseable}
use quad_control.Wireless.Process.{PairResult}
use quad_control.Wireless.Services.{find_guid}
use quad_control.Wireless.Online.{
  Adb, World, wait_for_guid_with_cancel, is_cancelled, round_timeout,
}

-- The length and the digits are those of the bytes; a byte that is no ASCII digit is refused.
unfoldable pub validate_manual_inputs : (Text → Bool) → Text → ℕ → Text → Result (Unit {0}) Text
validate_manual_inputs is_ip host port code =
    if not (is_ip host)
    then err (codes "pair_failed")
    else if port == 0 || not (all is_ascii_digit code) || not (length code == 6)
    then err (codes "pair_failed")
    else ok tt

-- an address of version 6 has colons and is put into brackets
unfoldable pub manual_endpoint : Text → ℕ → Text
unfolding decimal
manual_endpoint host port =
    if any (λ c. c == b':') host
    then b'[' ∷ (host ++ (codes "]:" ++ decimal port))
    else host ++ (b':' ∷ decimal port)

abbrev pub pair_answer : (Text → Text) → PairResult → Result Text WirelessError
pair_answer summary r =
    if not (r.status == 0)
    then err (command_failed (summary r.err_text))
    else ok_or (find_guid r.out) pair_output_unparseable

-- `pair`, given the answers of its polls; none: the process has not ended by the last of them
unfoldable pub pair :
    (Text → Text)
    → List (Result (Option PairResult) WirelessError)
    → Option (Result Text WirelessError)
unfolding find_guid
pair summary [] = none
pair summary (err e ∷ polls) = some (err e)
pair summary (ok none ∷ polls) = pair summary polls
pair summary (ok (some r) ∷ polls) = some (pair_answer summary r)

abbrev named : Option Text → Text
named none = codes "Android"
named (some model) = model

abbrev model_of : Option Device → Text
model_of none = codes "Android"
model_of (some d) = named d.model

-- `listed` is what `quadcontrol_android::devices` answers
unfoldable pub paired_device_name : Result (List Device) Error → Text → Text
paired_device_name (err e) serial = codes "Android"
paired_device_name (ok listed) serial = model_of (find (λ d. text_eq d.serial serial) listed)

module _ (adb : Adb) (listed : Result (List Device) Error) where
  abbrev pub told : World × Result Text WirelessError → World × Result Text Text
  told (w, ok serial) = (w, ok (paired_device_name listed serial))
  told (w, err e) =
      if is_cancelled adb w.now
      then (w, err (codes "pair_cancelled"))
      else (w, err (codes "manual_pair_needs_connect_port"))

  -- the worker, once `pair` has answered
  unfoldable pub manual_worker : Result Text WirelessError → World → World × Result Text Text
  unfolding wait_for_guid_with_cancel is_cancelled paired_device_name
  manual_worker (err e) w = (w, err (codes "pair_failed"))
  manual_worker (ok guid) w = told (wait_for_guid_with_cancel adb guid round_timeout w)
