-- ===== src/Wireless/Round/Laws.antt =====
-- Laws of `RoundState` in crates/quadcontrol-android/src/wireless.rs.
use quad_control.Base.{ℕ, ◌≡◌, refl, ◌⊎◌, true, false, List, [], ◌∷◌, arith, if◌then◌else◌}
use quad_control.Wireless.Round.{
  CloseReason, RoundEvent, wait_for_pair, close, ignored_after_close, RoundState, next_id, observe,
  observe_for_round,
}

-- The events of a round, addressed by the round id that their sender knows.
abbrev pub observe_all : RoundState → List (ℕ × RoundEvent) → RoundState
observe_all s [] = s
observe_all s ((round_id, e) ∷ es) = observe_all (observe_for_round s round_id e).0 es

observe_for_round_closed :
    (s : RoundState) (round_id : ℕ) (e : RoundEvent)
    → s.closed ≡ true
    → observe_for_round s round_id e ≡ (s, ignored_after_close)
unfolding observe_for_round
observe_for_round_closed s round_id e h = ground arith

-- A closed round is unchanged by any later events, whatever round they are addressed to.
pub observe_all_closed :
    (s : RoundState) (es : List (ℕ × RoundEvent)) → s.closed ≡ true → observe_all s es ≡ s
observe_all_closed s [] h = refl
observe_all_closed s ((round_id, e) ∷ es) h =
    rw (observe_for_round_closed s round_id e h) (observe_all_closed s es h)

-- The reason for which an event closes a round that had a pair in flight, or not.
abbrev pub reason_of : RoundState → RoundEvent → CloseReason
reason_of s RoundEvent.service_lost = CloseReason.service_lost
reason_of s RoundEvent.cancelled = CloseReason.cancelled
reason_of s RoundEvent.timeout = CloseReason.timeout
reason_of s (RoundEvent.pair_succeeded guid) = CloseReason.success
reason_of s RoundEvent.pair_failed =
    if s.pair_in_flight
    then (if s.service_lost_pending then CloseReason.service_lost else CloseReason.pair_failed)
    else CloseReason.pair_failed
reason_of s RoundEvent.pair_timed_out =
    if s.pair_in_flight
    then (if s.service_lost_pending then CloseReason.service_lost else CloseReason.pair_timed_out)
    else CloseReason.pair_timed_out

-- On an open round an event either closes it, with its reason and the next id, or it is the loss
-- of the service while a pair is in flight, which is only remembered.
pub observe_open_cases :
    (s : RoundState) (e : RoundEvent)
    → s.closed ≡ false
    → ((e ≡ RoundEvent.service_lost)
        × (s.pair_in_flight ≡ true)
        × (observe s e ≡ (record s { service_lost_pending = true }, wait_for_pair)))
      ⊎ (((observe s e).0.closed ≡ true)
          × ((observe s e).0.pair_in_flight ≡ false)
          × ((observe s e).0.id ≡ next_id s.id)
          × ((observe s e).1 ≡ close (reason_of s e)))
unfolding observe
observe_open_cases s e h = ground arith
