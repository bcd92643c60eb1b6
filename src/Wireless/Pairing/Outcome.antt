-- ===== src/Wireless/Pairing/Outcome.antt =====
-- The round as `pair_qr_command_with_cancel` runs it: the loop, then `round_close` on its event.
use quad_control.Base.{
  ℕ, ◌≡◌, refl, sym, ◌∙◌, ◌↔◌, inl, inr, true, false, ◌||◌, List, [], ◌∷◌, Result, ok, err, arith,
  any, Bool-cases,
}
use quad_control.Base.Text.{Text}
use quad_control.Wireless.{WirelessError, cancelled, round_timed_out}
use quad_control.Wireless.Process.{PairProcess}
use quad_control.Wireless.Close.{PairingSecret, round_close}
use quad_control.Wireless.Close.Laws.{round_close-closes}
use quad_control.Wireless.Round.Laws.{reason_of}
use quad_control.Wireless.Round.{CloseReason, RoundEvent, RoundState, next_id, new}
use quad_control.Wireless.Pairing.Invariant.{Inv, Agrees, Ends}
use quad_control.Wireless.Pairing.Turns.{run-Ensures}
use quad_control.Wireless.Pairing.{Tick, Pairing, Turn, go_on, finished, ◌>>=◌, turn, run, begin}

begin-Inv : {P : Type 0} (id : ℕ) → Inv P id (begin (new id))
unfolding begin new
begin-Inv id = ground arith

-- The reason that an event by itself stands for.
abbrev pub event_reason : RoundEvent → CloseReason
event_reason RoundEvent.service_lost = CloseReason.service_lost
event_reason RoundEvent.cancelled = CloseReason.cancelled
event_reason RoundEvent.timeout = CloseReason.timeout
event_reason (RoundEvent.pair_succeeded guid) = CloseReason.success
event_reason RoundEvent.pair_failed = CloseReason.pair_failed
event_reason RoundEvent.pair_timed_out = CloseReason.pair_timed_out

abbrev pub Succeeds : Result Text WirelessError → Type 0
Succeeds r = (guid : Text) × (r ≡ ok guid)

Succeeds-Agrees :
    (e : RoundEvent) (r : Result Text WirelessError)
    → Agrees e r
    → Succeeds r ↔ (event_reason e ≡ CloseReason.success)
Succeeds-Agrees (RoundEvent.pair_succeeded guid) r h = (λ _. refl, λ _. (guid, h))
Succeeds-Agrees RoundEvent.pair_failed r h = ground arith
Succeeds-Agrees RoundEvent.service_lost r h = ground arith
Succeeds-Agrees RoundEvent.cancelled r h = ground arith
Succeeds-Agrees RoundEvent.timeout r h = ground arith
Succeeds-Agrees RoundEvent.pair_timed_out r h = ground arith

reason_of-idle :
    (s : RoundState) (e : RoundEvent)
    → reason_of (record s { pair_in_flight = false }) e ≡ event_reason e
reason_of-idle s e = ground arith

-- Where the loop of a new round ends, `round_close` closes that round under the next id, for the
-- reason of the event that the loop returned, and the result is a guid exactly if that reason is
-- success.
pub run-round_close :
    (id : ℕ) (name : Text) (ts : List (Tick PairProcess)) (secret : PairingSecret) (qr : Text)
    {s : Pairing PairProcess} {e : RoundEvent} {r : Result Text WirelessError}
    → run id name ts (begin (new id)) ≡ finished s e r
    → let c = round_close s.round s.pairs secret qr e in
      (c.round.closed ≡ true)
      × (c.round.id ≡ next_id id)
      × (c.reason ≡ event_reason e)
      × (Succeeds r ↔ (c.reason ≡ CloseReason.success))
run-round_close id name ts secret qr {s} {e} {r} h =
    let ends : Ends id s e r = rw h at (run-Ensures id name ts (begin (new id)) (begin-Inv id)) in
    let closed = round_close-closes s.round s.pairs secret qr e ends.0 in
    let reason = closed.3 ∙ reason_of-idle s.round e in
    let (to_reason, from_reason) = Succeeds-Agrees e r ends.2 in
    (
      closed.0,
      rw (← ends.1) closed.2,
      reason,
      (λ x. reason ∙ to_reason x, λ x. from_reason (sym reason ∙ x)),
    )

abbrev HasEnded : {P : Type 0} → Turn P → Type 0
HasEnded {P} m =
    (s : Pairing P) × (e : RoundEvent) × (r : Result Text WirelessError) × (m ≡ finished s e r)

HasEnded-bind : {P : Type 0} (m : Turn P) (f : Pairing P → Turn P) → HasEnded m → HasEnded (m >>= f)
HasEnded-bind (go_on s) f h = ground arith
HasEnded-bind (finished s e r) f h = (s, e, r, refl)

HasEnded-bind_all :
    {P : Type 0} (m : Turn P) (f : Pairing P → Turn P)
    → ((s : Pairing P) → HasEnded (f s))
    → HasEnded (m >>= f)
HasEnded-bind_all (go_on s) f h = h s
HasEnded-bind_all (finished s e r) f h = (s, e, r, refl)

turn-HasEnded :
    {P : Type 0} (round_id : ℕ) (name : Text) (t : Tick P) (s : Pairing P)
    → (t.is_cancelled || t.is_expired) ≡ true
    → HasEnded (turn round_id name t s)
unfolding turn
turn-HasEnded round_id name t s h = elim (Bool-cases t.is_cancelled) [
  | inl stop ↦ (s, RoundEvent.cancelled, err cancelled, rw stop)
  | inr on ↦ (s, RoundEvent.timeout, err round_timed_out, rw on (rw (rw on at h)))
]

-- The loop ends in the turn that sees the deadline passed or the cancellation, at the latest.
pub run-ends :
    {P : Type 0} (round_id : ℕ) (name : Text) (ts : List (Tick P)) (s : Pairing P)
    → any (λ t. t.is_cancelled || t.is_expired) ts ≡ true
    → (s' : Pairing P) × (e : RoundEvent) × (r : Result Text WirelessError) × (run round_id name ts
          s
        ≡ finished s' e r)
unfolding run
run-ends round_id name [] s h = cc
run-ends round_id name (t ∷ ts) s h = elim (Bool-cases (t.is_cancelled || t.is_expired)) [
  | inl now ↦ HasEnded-bind (turn round_id name t s) _ (turn-HasEnded round_id name t s now)
  | inr later ↦
      HasEnded-bind_all (turn round_id name t s) _
        (λ s'. run-ends round_id name ts s' (rw later at h))
]
