-- ===== src/Examples/Wireless.antt =====
-- A pairing round in which one phone answers: runs of crates/quadcontrol-android/src/wireless.rs.
use quad_control.Base.{ℕ, ◌≡◌, refl, ◌⊎◌, ◌↔◌, true, false, List, [], ◌∷◌, none, some, Result, ok}
use quad_control.Base.Text.{Text, codes}
use quad_control.Os.{Child, captured}
use quad_control.Wireless.{WirelessError}
use quad_control.Wireless.Round.{
  CloseReason, RoundEvent, RoundState, close, wait_for_pair, new, next_id, observe,
}
use quad_control.Wireless.Round.Laws.{
  observe_all, observe_all_closed, reason_of, observe_open_cases,
}
use quad_control.Wireless.Process.{PairProcess}
use quad_control.Wireless.Close.{PairingSecret, round_close}
use quad_control.Wireless.Close.Laws.{round_close-closes}
use quad_control.Wireless.Services.{MdnsService}
use quad_control.Wireless.Pairing.{Tick, Pairing, finished, run, begin}
use quad_control.Wireless.Pairing.Invariant.{Inv, Ensures}
use quad_control.Wireless.Pairing.Turns.{run-Ensures}
use quad_control.Wireless.Pairing.Outcome.{event_reason, Succeeds, run-round_close, run-ends}

abbrev pub closed_round : RoundState
closed_round = record {
  id = 8;
  pair_in_flight = false;
  closed = true;
  guid = none;
  service_lost_pending = false;
}

abbrev late_events : List (ℕ × RoundEvent)
late_events = (8, RoundEvent.pair_succeeded (codes "adb-1")) ∷ (7, RoundEvent.timeout) ∷ []

observe_all_closed_run : observe_all closed_round late_events ≡ closed_round
observe_all_closed_run = observe_all_closed closed_round late_events refl

abbrev busy_round : RoundState
busy_round = record (new 7) { pair_in_flight = true; service_lost_pending = true }

abbrev failing : RoundEvent
failing = RoundEvent.pair_failed

observe_open_cases_run :
    ((failing ≡ RoundEvent.service_lost)
      × (busy_round.pair_in_flight ≡ true)
      × (observe busy_round failing
          ≡ (record busy_round { service_lost_pending = true }, wait_for_pair)))
    ⊎ (((observe busy_round failing).0.closed ≡ true)
        × ((observe busy_round failing).0.pair_in_flight ≡ false)
        × ((observe busy_round failing).0.id ≡ next_id busy_round.id)
        × ((observe busy_round failing).1 ≡ close (reason_of busy_round failing)))
unfolding new
observe_open_cases_run = observe_open_cases busy_round failing refl

abbrev phone_child : Child
phone_child = record {
  exit = none;
  signalled = false;
  try_wait_answer = ok none;
  kill_answer = ok tt;
  wait_answer = ok (some 0);
}

abbrev phone : PairProcess
phone = record {
  child = phone_child;
  stdout = some (captured (codes "Successfully paired [guid=adb-R5-x]") false);
  stderr = some (captured [] false);
}

abbrev pub secret : PairingSecret
secret = record {
  service_name = codes "studio-1";
  password = codes "pw";
  payload = codes "WIFI:T:ADB;S:studio-1;P:pw;;";
}

abbrev the_end : RoundEvent
the_end = RoundEvent.pair_succeeded (codes "adb-R5-x")

round_close-closes_example :
    let c = round_close busy_round (phone ∷ []) secret (codes "qr") the_end in
    (c.round.closed ≡ true)
    × (c.round.pair_in_flight ≡ false)
    × (c.round.id ≡ next_id busy_round.id)
    × (c.reason ≡ reason_of (record busy_round { pair_in_flight = false }) the_end)
    × (c.pairs ≡ [])
    × (c.secret ≡ record { service_name = []; password = []; payload = [] })
    × (c.qr ≡ [])
unfolding new
round_close-closes_example =
    round_close-closes busy_round (phone ∷ []) secret (codes "qr") the_end refl

abbrev pairing_service : MdnsService
pairing_service = record {
  instance_name = codes "studio-1";
  service = codes "_adb-tls-pairing._tcp";
  address = codes "10.0.0.5";
  port = 4;
}

abbrev pub quiet : Tick PairProcess
quiet = record {
  is_cancelled = false;
  is_expired = false;
  services = ok (pairing_service ∷ []);
  spawn = λ endpoint. ok phone;
  poll = λ p. (p, ok none);
  summary = λ text. text;
}

abbrev pub paired : Tick PairProcess
paired = record quiet {
  poll = λ p. (
    p,
    ok (
        some (record {
          status = 0;
          out = codes "Successfully paired [guid=adb-R5-x]";
          err_text = [];
        })),
  );
}

abbrev pub late : Tick PairProcess
late = record quiet { is_expired = true }

abbrev name : Text
name = codes "studio-1"

run-Ensures_example :
    Ensures 7 (Inv PairProcess 7) (run 7 name (quiet ∷ paired ∷ []) (begin (new 7)))
unfolding new begin
run-Ensures_example = run-Ensures 7 name (quiet ∷ paired ∷ []) (begin (new 7)) (record {
  is_open = refl;
  same_id = refl;
  in_flight = refl;
  not_started = λ _. refl;
  no_failure = λ _. refl;
})

-- where the round of the two turns ends
abbrev ended_state : Pairing PairProcess
ended_state = record {
  round = record (new 7) { pair_in_flight = true };
  pairs = phone ∷ [];
  spawned = codes "10.0.0.5:4" ∷ [];
  service_lost = false;
  failure = none;
  pair_timed_out = false;
}

run-round_close_example :
    let c = round_close ended_state.round ended_state.pairs secret (codes "qr") the_end in
    (c.round.closed ≡ true)
    × (c.round.id ≡ next_id 7)
    × (c.reason ≡ event_reason the_end)
    × (Succeeds (ok (codes "adb-R5-x")) ↔ (c.reason ≡ CloseReason.success))
run-round_close_example =
    run-round_close 7 name (quiet ∷ paired ∷ []) secret (codes "qr") {s = ended_state} {e = the_end}
      {r = ok (codes "adb-R5-x")} (unfold run new begin in refl)

run-ends_run :
    (s : Pairing PairProcess) × (e : RoundEvent) × (r : Result Text WirelessError) × (run 7 name
        (quiet ∷ late ∷ [])
        (begin (new 7))
      ≡ finished s e r)
run-ends_run = run-ends 7 name (quiet ∷ late ∷ []) (begin (new 7)) refl
