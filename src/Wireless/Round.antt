-- ===== src/Wireless/Round.antt =====
-- `RoundState` of crates/quadcontrol-android/src/wireless.rs: the life of one pairing round.
pub mod Laws
use quad_control.Base.{
  ℕ, ◌+◌, ◌%◌, ◌^◌, Bool, true, false, ◌||◌, not, Option, none, some, ◌==◌, if◌then◌else◌,
}
use quad_control.Base.Text.{Text}

pub data CloseReason : Type 0 where
  success timeout cancelled service_lost pair_failed pair_timed_out : CloseReason

pub data RoundEvent : Type 0 where
  service_lost : RoundEvent
  pair_succeeded : Text → RoundEvent
  pair_failed pair_timed_out timeout cancelled : RoundEvent

pub data RoundAction : Type 0 where
  wait_for_pair : RoundAction
  close : CloseReason → RoundAction
  ignored_after_close : RoundAction

pub record RoundState : Type 0 where
  pub id : ℕ  -- u64
  pub pair_in_flight : Bool
  pub closed : Bool
  pub guid : Option Text
  pub service_lost_pending : Bool

unfoldable pub new : ℕ → RoundState
new id = record {
  id = id;
  pair_in_flight = false;
  closed = false;
  guid = none;
  service_lost_pending = false;
}

-- `u64::wrapping_add(1)`
abbrev pub next_id : ℕ → ℕ
next_id id = (id + 1) % 2 ^ 64

unfoldable pub close_round : RoundState → CloseReason → RoundState × RoundAction
close_round s reason =
    (record s { pair_in_flight = false; closed = true; id = next_id s.id }, close reason)

-- A pair process that was in flight has ended; `reason` stands for the event's own.
pair_ended : RoundState → CloseReason → RoundState × RoundAction
unfolding close_round
pair_ended s reason =
    if s.pair_in_flight
    then close_round (record s { pair_in_flight = false })
        (if s.service_lost_pending then CloseReason.service_lost else reason)
    else close_round s reason

-- The `match event` of `observe`, on a round that is not closed.
observe_open : RoundState → RoundEvent → RoundState × RoundAction
unfolding close_round pair_ended
observe_open s RoundEvent.service_lost =
    if s.pair_in_flight
    then (record s { service_lost_pending = true }, wait_for_pair)
    else close_round s CloseReason.service_lost
observe_open s RoundEvent.cancelled = close_round s CloseReason.cancelled
observe_open s RoundEvent.timeout = close_round s CloseReason.timeout
observe_open s (RoundEvent.pair_succeeded guid) =
    close_round (record s { pair_in_flight = false; guid = some guid }) CloseReason.success
observe_open s RoundEvent.pair_failed = pair_ended s CloseReason.pair_failed
observe_open s RoundEvent.pair_timed_out = pair_ended s CloseReason.pair_timed_out

unfoldable pub observe : RoundState → RoundEvent → RoundState × RoundAction
unfolding observe_open
observe s e = if s.closed then (s, ignored_after_close) else observe_open s e

unfoldable pub observe_for_round : RoundState → ℕ → RoundEvent → RoundState × RoundAction
unfolding observe
observe_for_round s round_id e =
    if not (round_id == s.id) || s.closed then (s, ignored_after_close) else observe s e
