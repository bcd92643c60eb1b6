-- ===== src/Wireless/Command.antt =====
-- `pair_qr_command_with_cancel` of crates/quadcontrol-android/src/wireless.rs, with `identity_pairs`: the check of
-- adb, the round and its close, the phone that comes online, and the devices then shown. The QR code, the
-- turns of the round's loop and the devices listed at the end are parameters. `announce` and the handlers for signals are left out.
pub mod Laws
use quad_control.Base.{
  ℕ, Bool, true, false, List, [], ◌∷◌, ◌++◌, map, Option, none, some, Result, ok, err, ◌==◌,
  if◌then◌else◌, filter, is_empty, length,
}
use quad_control.Base.Text.{Text, text_eq, trim}
use quad_control.Probe.{Device}
use quad_control.Wireless.{WirelessError, command_failed}
use quad_control.Wireless.Process.{PairProcess}
use quad_control.Wireless.Round.{CloseReason, RoundEvent, RoundState, new}
use quad_control.Wireless.Close.{PairingSecret, RoundClosed, round_close}
use quad_control.Wireless.Pairing.{Tick, Pairing, Turn, go_on, finished, run, begin}
use quad_control.Wireless.Devices.{Pairs, deduplicate_devices}
use quad_control.Wireless.Online.{Adb, World, getprop, run_adb, check_adb, bring_online}

-- `read_identity_or_unknown`, given the answer to `getprop`
unfoldable pub read_identity_or_unknown : Result (ℕ × Text × Text) WirelessError → Option Text
unfolding trim
read_identity_or_unknown (err e) = none
read_identity_or_unknown (ok (status, stdout, stderr)) =
    let identity = trim stdout in
    if status == 0 then (if is_empty identity then none else some identity) else none

abbrev has_identity : Text → Text × Option Text → Bool
has_identity identity (serial, none) = false
has_identity identity (serial, some other) = text_eq other identity

-- the two loops over what was read
unfoldable pub pairs_of : List (Text × Option Text) → Pairs
unfolding text_eq
pairs_of [] = []
pairs_of ((serial, none) ∷ read) = pairs_of read
pairs_of ((serial, some identity) ∷ read) =
    map (λ other. (serial, other.0)) (filter (has_identity identity) read) ++ pairs_of read

abbrev pub with_identity :
    Text → World × Result (ℕ × Text × Text) WirelessError → World × (Text × Option Text)
with_identity serial (w, r) = (w, (serial, read_identity_or_unknown r))

-- one command for each device, one after another
unfoldable pub read_identities : Adb → List Device → World → World × List (Text × Option Text)
unfolding read_identity_or_unknown run_adb
read_identities adb [] w = (w, [])
read_identities adb (d ∷ listed) w =
    let (v, first) = with_identity d.serial (run_adb adb (getprop d.serial) w) in
    let (u, others) = read_identities adb listed v in (u, first ∷ others)

unfoldable pub identity_pairs : Adb → List Device → World → Pairs
unfolding pairs_of read_identities
identity_pairs adb listed w = pairs_of (read_identities adb listed w).1

pub record Surroundings : Type 0 where
  pub adb : Adb
  pub rendered : Result Text WirelessError  -- `render_qr`
  pub ticks : List (Tick PairProcess)
  pub round_ends : World → World  -- the clock over the loop of the round
  pub both : WirelessError → WirelessError → Text  -- the text that names two errors
  pub listed : Result (List Device) WirelessError  -- `crate::devices`, its error translated

-- the serial, how many devices are shown, and why the round was closed
abbrev pub Answer : Type 0
Answer = Result (Text × ℕ × CloseReason) WirelessError

-- The end of the command: `closed` is none where no round was begun.
pub record Ended : Type 0 where
  pub closed : Option RoundClosed
  pub answer : Answer

abbrev ended : RoundClosed → Answer → Ended
ended c answer = record { closed = some c; answer = answer }

module _ (s : Surroundings) where
  abbrev pub shown : Text → CloseReason → Result (List Device) WirelessError → World → Answer
  shown serial reason (err e) w = err e
  shown serial reason (ok listed) w =
      ok (serial, length (deduplicate_devices listed (identity_pairs s.adb listed w)), reason)

  abbrev pub online : CloseReason → World × Result Text WirelessError → Answer
  online reason (w, err e) = err e
  online reason (w, ok serial) = shown serial reason s.listed w

  -- the match on the outcome of the round and on what its close reports
  abbrev pub after_close :
      RoundClosed → Result Text WirelessError → Result (Unit {0}) WirelessError → World → Answer
  after_close c (err failed) (err reap) w = err (command_failed (s.both failed reap))
  after_close c (err failed) (ok u) w = err failed
  after_close c (ok guid) (err reap) w = err reap
  after_close c (ok guid) (ok u) w = online c.reason (bring_online s.adb guid w)

  abbrev pub concluded :
      PairingSecret
      → Text
      → World
      → Pairing PairProcess
      → RoundEvent
      → Result Text WirelessError
      → Ended
  concluded secret qr w p event outcome =
      let c = round_close p.round p.pairs secret qr event in
      ended c (after_close c outcome c.result (s.round_ends w))

  -- none: the loop of the round has not ended within the turns given
  abbrev pub after_round : PairingSecret → Text → World → Turn PairProcess → Option Ended
  after_round secret qr w (go_on p) = none
  after_round secret qr w (finished p event outcome) = some (concluded secret qr w p event outcome)

  unfoldable pub begin_round : PairingSecret → World → Result Text WirelessError → Option Ended
  unfolding run begin new round_close bring_online identity_pairs deduplicate_devices
  begin_round secret w (err e) =
      some (ended (round_close (new 1) [] secret [] RoundEvent.pair_failed) (err e))
  begin_round secret w (ok qr) =
      after_round secret qr w (run 1 secret.service_name s.ticks (begin (new 1)))

  abbrev pub checked : {A : Type 0} → PairingSecret → World × Result A WirelessError → Option Ended
  checked secret (w, err e) = some (record { closed = none; answer = err e })
  checked secret (w, ok v) = begin_round secret w s.rendered

  unfoldable pub pair_qr_command_with_cancel : PairingSecret → World → Option Ended
  unfolding check_adb begin_round
  pair_qr_command_with_cancel secret w = checked secret (check_adb s.adb w)
