-- ===== src/Wireless/Close.antt =====
-- `round_close` of crates/quadcontrol-android/src/wireless.rs, with the secret that it wipes. The
-- processes that `pairs.clear()` drops are returned, as the drop leaves them.
pub mod Laws
use quad_control.Base.{
  ◌≡◌, Bool, true, false, List, [], ◌∷◌, map, Option, none, some, Result, ok, err, if◌then◌else◌,
}
use quad_control.Base.Text.{Text}
use quad_control.Os.{try_wait}
use quad_control.Wireless.{WirelessError}
use quad_control.Wireless.Process.{PairProcess, kill_reap, drop_process}
use quad_control.Wireless.Round.{
  CloseReason, RoundEvent, RoundAction, wait_for_pair, close, ignored_after_close, RoundState,
  close_round, observe,
}

pub record PairingSecret : Type 0 where
  pub service_name : Text
  pub password : Text
  pub payload : Text

-- `bytes.fill(0)`
abbrev zeroed : Text → Text
zeroed t = map (λ c. 0) t

-- `String::clear`
abbrev cleared : Text → Text
cleared t = []

-- A text has no memory behind its end, so the zeroes do not show afterwards.
abbrev wipe_string : Text → Text
wipe_string t = cleared (zeroed t)

unfoldable pub wipe : PairingSecret → PairingSecret
wipe s = record {
  service_name = wipe_string s.service_name;
  password = wipe_string s.password;
  payload = wipe_string s.payload;
}

-- `Option::get_or_insert` on the first error
abbrev pub or_insert : Option WirelessError → Option WirelessError → Option WirelessError
or_insert (some e) later = some e
or_insert none later = later

abbrev error_of : Result (Unit {0}) WirelessError → Option WirelessError
error_of (ok u) = none
error_of (err e) = some e

-- One turn of the loop: a process that has not ended is killed and reaped.
unfoldable pub reclaim : PairProcess → PairProcess × Option WirelessError
unfolding try_wait kill_reap
reclaim p =
    let (polled, answer) = try_wait p.child in
    let process = record p { child = polled } in
    let (reaped, result) = kill_reap process in
    let ended : PairProcess × Option WirelessError = (reaped, error_of result) in
    elim answer [ err e ↦ ended | ok none ↦ ended | ok (some s) ↦ (process, none) ]

unfoldable pub reclaim_all :
    Option WirelessError → List PairProcess → List PairProcess × Option WirelessError
unfolding reclaim
reclaim_all first [] = ([], first)
reclaim_all first (p ∷ ps) =
    let (p', failed) = reclaim p in
    let (ps', error) = reclaim_all (or_insert first failed) ps in (p' ∷ ps', error)

pub record RoundClosed : Type 0 where
  pub round : RoundState
  pub pairs : List PairProcess
  pub secret : PairingSecret
  pub qr : Text
  pub reason : CloseReason
  pub result : Result (Unit {0}) WirelessError
  pub dropped : List PairProcess

-- The `match action`: the round afterwards, and the reason that is reported.
settle : RoundState × RoundAction → RoundState × CloseReason
unfolding close_round
settle (s, close reason) = (s, reason)
settle (s, ignored_after_close) = (s, CloseReason.cancelled)
settle (s, wait_for_pair) = ((close_round s CloseReason.service_lost).0, CloseReason.service_lost)

abbrev pub result_of : Option WirelessError → Result (Unit {0}) WirelessError
result_of none = ok tt
result_of (some e) = err e

unfoldable pub round_close :
    RoundState → List PairProcess → PairingSecret → Text → RoundEvent → RoundClosed
unfolding settle observe wipe
round_close round pairs secret qr event =
    let (reclaimed, first_error) = reclaim_all none pairs in
    let (closed, reason) = settle (observe (record round { pair_in_flight = false }) event) in
    record {
      round = closed;
      pairs = [];
      secret = wipe secret;
      qr = wipe_string qr;
      reason = reason;
      result = result_of first_error;
      dropped = map drop_process reclaimed;
    }
