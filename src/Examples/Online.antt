-- ===== src/Examples/Online.antt =====
-- Phones that come online after a pairing: runs of crates/quadcontrol-android/src/wireless.rs and of the manual
-- pairing in crates/quadcontrol-gui/src-tauri/src/lib.rs.
use quad_control.Base.{
  ℕ, ap, ltb, if◌then◌else◌, ◌+◌, ◌≤◌, ◌≡◌, refl, true, false, [], ◌∷◌, none, some, Result, ok, err,
  List, arith,
}
use quad_control.Base.Text.{Text, codes}
use quad_control.Probe.{Device, device, tcp}
use quad_control.Android.{Error}
use quad_control.Wireless.{WirelessError}
use quad_control.Wireless.Close.{RoundClosed}
use quad_control.Wireless.Round.{CloseReason}
use quad_control.Os.{IoError, captured}
use quad_control.Wireless.Collect.{Process, Reaped, collect_child, collect_child-Reaped}
use quad_control.Wireless.Online.{Adb, World, Call, version, mdns_check, getprop, bring_online}
use quad_control.Wireless.Online.Waits.{Timely, pairing_shutdown_deadline}
use quad_control.Wireless.Command.{Surroundings, after_close}
use quad_control.Wireless.Command.Laws.{after_close-cancels, paired}
use quad_control.Gui.Manual.{manual_worker, validate_manual_inputs, manual_endpoint}
use quad_control.Gui.Manual.Told.{Tells, Lists, manual_worker-Tells}
use quad_control.Examples.Wireless.{secret, quiet, late}
use quad_control.Examples.Wireless as Round

-- a process that does not end by itself
abbrev stuck : Process
stuck = record {
  try_wait = λ t. ok none;
  wait = ok none;
  stdout = captured [] false;
  stderr = captured [] false;
  lag = λ t. 0;
  wait_time = 0;
  join_time = 0;
}

collect_child-Reaped_example : Reaped stuck 0 500 (collect_child stuck 500)
collect_child-Reaped_example = collect_child-Reaped stuck 0 (λ t. omega arith) 500

abbrev answers : Call → Text
answers version = codes "Android Debug Bridge version 1.0.41\nVersion 35.0.2-12147458\n"
answers mdns_check = codes "mdns daemon version"
answers (getprop serial) = codes "R5CT"
answers _ = codes "List of devices attached\nadb-R5-x._adb-tls-connect._tcp device model:Pixel\n"

-- a process that ends by itself 40 ms after its start
abbrev answering : ℕ → Text → Process
answering started out = record {
  try_wait = λ t. if ltb t (started + 40) then ok none else ok (some (some 0));
  wait = ok none;
  stdout = captured out false;
  stderr = captured [] false;
  lag = λ t. 0;
  wait_time = 5;
  join_time = 9;
}

-- adb with a phone that is listed at once
abbrev adb : Adb
adb = record {
  spawn = λ t call. ok (answering t (answers call));
  lag = λ t. 0;
  cancelled_at = some 70000;
  signalled_at = none;
  describe = λ e. [];
}

abbrev start : World
start = record { now = 0; calls = [] }

abbrev around : Surroundings
around = record {
  adb = adb;
  rendered = ok (codes "qr");
  ticks = quiet ∷ Round.paired ∷ late ∷ [];
  round_ends = λ w. record w { now = w.now + 4000 };
  both = λ e f. [];
  listed = ok [];
}

abbrev lag_at : ℕ → Result Process IoError → ℕ
lag_at u (err e) = 0
lag_at u (ok p) = p.lag u

abbrev block_of : Result Process IoError → ℕ
block_of (err e) = 0
block_of (ok p) = p.wait_time + p.join_time

on_time : Timely adb 0 14
on_time t call p e =
    (λ u. let none_late = ap (lag_at u) e in omega arith, let short = ap block_of e in omega arith)

-- The cancellation comes while the client asks for the devices.
abbrev interrupted : Surroundings
interrupted = record around { adb = record adb { cancelled_at = some 20 } }

abbrev closed : RoundClosed
closed = record {
  round = Round.closed_round;
  pairs = [];
  secret = secret;
  qr = [];
  reason = CloseReason.success;
  result = ok tt;
  dropped = [];
}

after_close-cancels_example :
    let r = bring_online interrupted.adb (codes "adb-R5-x") start in
    (r.0.now ≤ 20 + pairing_shutdown_deadline)
    × (20 ≤ r.0.now
        → (e : WirelessError) × (r.1 ≡ err e)
          × (after_close interrupted closed (ok (codes "adb-R5-x")) (ok tt) start ≡ err e))
after_close-cancels_example =
    after_close-cancels interrupted 0 14 on_time (λ t. omega arith) (omega arith) (omega arith) 20
      refl closed (codes "adb-R5-x") start (omega arith)

-- the devices that are listed at the end
abbrev phone : Result (List Device) Error
phone = ok (
    record {
      serial = codes "adb-R5-x._adb-tls-connect._tcp";
      model = some (codes "Pixel");
      state = device;
      transport = tcp;
    }
    ∷ [])

manual_worker-Tells_example :
    Tells adb phone (ok (codes "adb-R5-x")) (manual_worker adb phone (ok (codes "adb-R5-x")) start)
    × Lists [] (manual_worker adb phone (ok (codes "adb-R5-x")) start).0.calls
manual_worker-Tells_example = manual_worker-Tells adb phone (ok (codes "adb-R5-x")) start

bracketed : manual_endpoint (codes "fe80::1") 37000 ≡ codes "[fe80::1]:37000"
unfolding manual_endpoint
bracketed = refl

short_code :
    validate_manual_inputs (λ host. true) (codes "10.0.0.5") 4 (codes "12345")
    ≡ err (codes "pair_failed")
unfolding validate_manual_inputs
short_code = refl
