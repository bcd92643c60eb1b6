-- ===== src/Wireless/Pairing.antt =====
-- `run_pairing_round_with_cancel` of crates/quadcontrol-android/src/wireless.rs. What the system
-- shows in one turn of its loop is a `Tick`; `P` stands for a pair process.
pub mod Invariant
pub mod Turns
pub mod Outcome
use quad_control.Base.{
  ℕ, Bool, true, false, not, ◌&&◌, List, [], ◌∷◌, ◌++◌, Option, none, some, Result, ok, err, ◌==◌,
  if◌then◌else◌, is_empty,
}
use quad_control.Base.Text.{Text, codes, text_eq, one_of}
use quad_control.Wireless.{
  WirelessError, command_failed, cancelled, round_timed_out, service_lost, timed_out,
  pair_output_unparseable,
}
use quad_control.Wireless.Close.{or_insert}
use quad_control.Wireless.Process.{PairResult}
use quad_control.Wireless.Round.{RoundEvent, RoundState, observe_for_round}
use quad_control.Wireless.Services.{MdnsService, find_pairing_services, find_guid, endpoint_text}

pub record Tick (P : Type 0) : Type 0 where
  pub is_cancelled : Bool  -- `cancel.is_cancelled() || signal_requested()`
  pub is_expired : Bool  -- `Instant::now() >= deadline`
  pub services : Result (List MdnsService) WirelessError
  pub spawn : Text → Result P WirelessError
  pub poll : P → P × Result (Option PairResult) WirelessError
  pub summary : Text → Text  -- `stderr_summary` for the secret's password

-- The variables of the loop.
pub record Pairing (P : Type 0) : Type 0 where
  pub round : RoundState
  pub pairs : List P
  pub spawned : List Text
  pub service_lost : Bool
  pub failure : Option WirelessError
  pub pair_timed_out : Bool

pub data Turn (P : Type 0) : Type 0 where
  go_on : Pairing P → Turn P
  finished : Pairing P → RoundEvent → Result Text WirelessError → Turn P

unfoldable pub classify_round_failure : Bool → Bool → WirelessError → RoundEvent × WirelessError
classify_round_failure lost timed first =
    if lost
    then (RoundEvent.service_lost, WirelessError.service_lost)
    else if timed
    then (RoundEvent.pair_timed_out, timed_out)
    else (RoundEvent.pair_failed, first)

-- `failure.take().unwrap_or(error)`
abbrev first_of_failure : Option WirelessError → WirelessError → WirelessError
first_of_failure none error = error
first_of_failure (some first) error = first

module _ {P : Type 0} where
  infixl 5 ◌>>=◌
  abbrev ◌>>=◌ : Turn P → (Pairing P → Turn P) → Turn P
  go_on s >>= f = f s
  finished s e r >>= f = finished s e r

  -- the early return with the classified failure
  unfoldable pub fail : Pairing P → WirelessError → Turn P
  unfolding classify_round_failure
  fail s error =
      let (event, classified) = classify_round_failure s.service_lost s.pair_timed_out error in
      finished s event (err classified)

  abbrev note : Pairing P → WirelessError → Pairing P
  note s error = record s { failure = or_insert s.failure (some error) }

  -- An error ends the round only where no pair process is in flight.
  unfoldable pub note_or_fail : Pairing P → WirelessError → Turn P
  unfolding fail
  note_or_fail s error =
      if is_empty s.pairs
      then fail (record s { failure = none }) (first_of_failure s.failure error)
      else go_on (note s error)

  unfoldable pub started : Pairing P → Text → P → Pairing P
  started s endpoint process = record s {
    pairs = s.pairs ++ process ∷ [];
    spawned = s.spawned ++ endpoint ∷ [];
    round = record (s.round) { pair_in_flight = true };
  }

  -- after `PairProcess::spawn`: an error breaks the loop over the services, or ends the round
  unfoldable pub spawned_or :
      Pairing P → Text → Result P WirelessError → (Pairing P → Turn P) → Turn P
  spawned_or s endpoint (ok process) next = next (started s endpoint process)
  spawned_or s endpoint (err error) next = note_or_fail s error

  -- one process for each endpoint that is new
  unfoldable pub spawn_all : Tick P → List MdnsService → Pairing P → Turn P
  unfolding started note_or_fail spawned_or endpoint_text text_eq
  spawn_all t [] s = go_on s
  spawn_all t (service ∷ rest) s =
      let endpoint = endpoint_text service in
      let skipped = spawn_all t rest s in
      let tried = spawned_or s endpoint (t.spawn endpoint) (λ s'. spawn_all t rest s') in
      if one_of s.spawned endpoint then skipped else tried

  -- the withdrawal of the service, noted once
  unfoldable pub observe_loss : ℕ → List MdnsService → Pairing P → Pairing P
  observe_loss round_id matching s =
      if is_empty matching && not (is_empty s.spawned) && not s.service_lost
      then record s {
        service_lost = true;
        round = (observe_for_round s.round round_id RoundEvent.service_lost).0;
      }
      else s

  unfoldable pub discover : ℕ → Text → Tick P → Pairing P → Turn P
  unfolding spawn_all observe_loss note_or_fail find_pairing_services
  discover round_id name t s = elim t.services [
    | err error ↦ note_or_fail s error
    | ok found ↦
        let matching = find_pairing_services found name in
        spawn_all t matching s >>= λ s'. go_on (observe_loss round_id matching s')
  ]

  -- what one answer of `poll` leads to, for the process `p` behind those `kept`
  unfoldable pub poll_one :
      Tick P
      → List P
      → P
      → List P
      → Pairing P
      → Result (Option PairResult) WirelessError
      → (List P → Pairing P → Turn P)
      → Turn P
  unfolding find_guid
  poll_one t kept p rest s (ok none) next = next (kept ++ p ∷ []) s
  poll_one t kept p rest s (ok (some r)) next =
      let succeeded : Turn P = elim (find_guid r.out) [
        | some guid ↦
            finished (record s { pairs = kept ++ p ∷ rest }) (RoundEvent.pair_succeeded guid)
              (ok guid)
        | none ↦ next kept (note s pair_output_unparseable)
      ] in
      let text = t.summary r.err_text in
      let message = if is_empty text then codes "pair failed" else text in
      let failed = next kept (note s (command_failed message)) in
      if r.status == 0 then succeeded else failed
  poll_one t kept p rest s (err timed_out) next =
      next kept (note (record s { pair_timed_out = true }) timed_out)
  poll_one t kept p rest s (err error) next = next kept (note s error)

  unfoldable pub poll_all : Tick P → List P → List P → Pairing P → Turn P
  unfolding poll_one
  poll_all t kept [] s = go_on (record s { pairs = kept })
  poll_all t kept (p ∷ rest) s =
      let (p', answer) = t.poll p in
      poll_one t kept p' rest s answer (λ kept' s'. poll_all t kept' rest s')

  unfoldable pub conclude : Pairing P → Turn P
  unfolding fail
  conclude s =
      let idle = record s { round = record (s.round) { pair_in_flight = false } } in
      let ended : Turn P = elim s.failure [ none ↦ go_on idle | some error ↦ fail idle error ] in
      if is_empty s.pairs then ended else go_on s

  -- one turn of the `loop`
  unfoldable pub turn : ℕ → Text → Tick P → Pairing P → Turn P
  unfolding discover poll_all conclude
  turn round_id name t s =
      let work = (discover round_id name t s >>= λ s'. poll_all t [] s'.pairs s') >>= conclude in
      if t.is_cancelled
      then finished s RoundEvent.cancelled (err cancelled)
      else if t.is_expired
      then finished s RoundEvent.timeout (err round_timed_out)
      else work

  unfoldable pub run : ℕ → Text → List (Tick P) → Pairing P → Turn P
  unfolding turn
  run round_id name [] s = go_on s
  run round_id name (t ∷ ts) s = turn round_id name t s >>= λ s'. run round_id name ts s'

-- The variables before the loop, over the round that the caller passes.
unfoldable pub begin : {P : Type 0} → RoundState → Pairing P
begin round = record {
  round = round;
  pairs = [];
  spawned = [];
  service_lost = false;
  failure = none;
  pair_timed_out = false;
}
