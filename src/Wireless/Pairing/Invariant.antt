-- ===== src/Wireless/Pairing/Invariant.antt =====
-- What holds between two turns of the pairing loop, and that every turn keeps it.
use quad_control.Base.{
  ℕ, ◌≡◌, refl, inl, inr, Bool, true, false, not, List, [], ◌∷◌, none, Result, ok, err, arith,
  is_empty, Bool-cases, Result-cases,
}
use quad_control.Base.Text.{Text, one_of}
use quad_control.Wireless.{WirelessError, cancelled, round_timed_out, service_lost, timed_out}
use quad_control.Wireless.Round.{RoundEvent, observe, observe_for_round}
use quad_control.Wireless.Services.{MdnsService, find_pairing_services, endpoint_text}
use quad_control.Wireless.Pairing.{
  Tick, Pairing, Turn, go_on, finished, ◌>>=◌, fail, note_or_fail, started, spawned_or, spawn_all,
  observe_loss, discover,
}

-- The round is open under its id, `pair_in_flight` says whether there is a process, and without a
-- process none was started and nothing has failed.
pub record Inv (P : Type 0) (round_id : ℕ) (s : Pairing P) : Type 0 where
  pub is_open : s.round.closed ≡ false
  pub same_id : s.round.id ≡ round_id
  pub in_flight : s.round.pair_in_flight ≡ not (is_empty s.pairs)
  pub not_started : is_empty s.pairs ≡ true → is_empty s.spawned ≡ true
  pub no_failure : is_empty s.pairs ≡ true → s.failure ≡ none

-- The event and the result of a round have one source.
abbrev pub Agrees : RoundEvent → Result Text WirelessError → Type 0
Agrees (RoundEvent.pair_succeeded guid) r = r ≡ ok guid
Agrees RoundEvent.cancelled r = r ≡ err cancelled
Agrees RoundEvent.timeout r = r ≡ err round_timed_out
Agrees RoundEvent.service_lost r = r ≡ err service_lost
Agrees RoundEvent.pair_timed_out r = r ≡ err timed_out
Agrees RoundEvent.pair_failed r = (e : WirelessError) × (r ≡ err e)

-- A failure ends the round only when no process is left in flight.
abbrev pub Spares : RoundEvent → Bool → Type 0
Spares RoundEvent.service_lost idle = idle ≡ true
Spares RoundEvent.pair_timed_out idle = idle ≡ true
Spares RoundEvent.pair_failed idle = idle ≡ true
Spares _ idle = Unit

abbrev pub Ends : {P : Type 0} → ℕ → Pairing P → RoundEvent → Result Text WirelessError → Type 0
Ends round_id s e r =
    (s.round.closed ≡ false) × (s.round.id ≡ round_id) × Agrees e r × Spares e (is_empty s.pairs)

-- `Q` where the loop goes on; an open round and a fitting result where it ends.
abbrev pub Ensures : {P : Type 0} → ℕ → (Pairing P → Type 0) → Turn P → Type 0
Ensures round_id Q (go_on s) = Q s
Ensures round_id Q (finished s e r) = Ends round_id s e r

module _ {P : Type 0} (round_id : ℕ) where
  pub Ensures-bind :
      (Q R : Pairing P → Type 0) (m : Turn P) (f : Pairing P → Turn P)
      → ((s : Pairing P) → Q s → Ensures round_id R (f s))
      → Ensures round_id Q m
      → Ensures round_id R (m >>= f)
  Ensures-bind Q R (go_on s) f k h = k s h
  Ensures-bind Q R (finished s e r) f k h = h

  pub fail-Ensures :
      (Q : Pairing P → Type 0) (s : Pairing P) (error : WirelessError)
      → s.round.closed ≡ false
      → s.round.id ≡ round_id
      → is_empty s.pairs ≡ true
      → Ensures round_id Q (fail s error)
  unfolding fail
  fail-Ensures Q s error o i z = elim (Bool-cases s.service_lost) [
    | inl lost ↦ rw lost (o, i, refl, z)
    | inr here ↦ rw here (elim (Bool-cases s.pair_timed_out) [
      | inl timed ↦ rw timed (o, i, refl, z)
      | inr other ↦ rw other (o, i, (error, refl), z)
    ])
  ]

  pub note_or_fail-Inv :
      (s : Pairing P) (error : WirelessError)
      → Inv P round_id s
      → Ensures round_id (Inv P round_id) (note_or_fail s error)
  unfolding note_or_fail
  note_or_fail-Inv s error v = elim (Bool-cases (is_empty s.pairs)) [
    | inl idle ↦
        rw idle
          (fail-Ensures (Inv P round_id) (record s { failure = none }) _ v.is_open v.same_id idle)
    | inr busy ↦ rw busy (ground arith)
  ]

  started-Inv :
      (s : Pairing P) (endpoint : Text) (process : P)
      → Inv P round_id s
      → Inv P round_id (started s endpoint process)
  unfolding started
  started-Inv s endpoint process v = ground arith

  spawned_or-Inv :
      (s : Pairing P) (endpoint : Text) (answer : Result P WirelessError)
      (next : Pairing P → Turn P)
      → Inv P round_id s
      → ((s' : Pairing P) → Inv P round_id s' → Ensures round_id (Inv P round_id) (next s'))
      → Ensures round_id (Inv P round_id) (spawned_or s endpoint answer next)
  unfolding spawned_or
  spawned_or-Inv s endpoint (ok process) next v k = k _ (started-Inv s endpoint process v)
  spawned_or-Inv s endpoint (err error) next v k = note_or_fail-Inv s error v

  spawn_all-Inv :
      (t : Tick P) (services : List MdnsService) (s : Pairing P)
      → Inv P round_id s
      → Ensures round_id (Inv P round_id) (spawn_all t services s)
  unfolding spawn_all
  spawn_all-Inv t [] s v = v
  spawn_all-Inv t (service ∷ rest) s v =
      let endpoint = endpoint_text service in
      elim (Bool-cases (one_of s.spawned endpoint)) [
        | inl old ↦ rw old (spawn_all-Inv t rest s v)
        | inr new ↦
            rw new (
              spawned_or-Inv s endpoint (t.spawn endpoint) _ v
                (λ s' v'. spawn_all-Inv t rest s' v'))
      ]

  observe_loss-Inv :
      (matching : List MdnsService) (s : Pairing P)
      → Inv P round_id s
      → Inv P round_id (observe_loss round_id matching s)
  unfolding observe_loss observe_for_round observe
  observe_loss-Inv matching s v = ground arith

  pub discover-Inv :
      (name : Text) (t : Tick P) (s : Pairing P)
      → Inv P round_id s
      → Ensures round_id (Inv P round_id) (discover round_id name t s)
  unfolding discover
  discover-Inv name t s v = elim (Result-cases t.services) [
    | inl (found, e) ↦
        rw (e, discover)
          (Ensures-bind (Inv P round_id) (Inv P round_id)
            (spawn_all t (find_pairing_services found name) s) _
            (λ s' v'. observe_loss-Inv (find_pairing_services found name) s' v')
            (spawn_all-Inv t (find_pairing_services found name) s v))
    | inr (error, e) ↦ rw (e, discover) (note_or_fail-Inv s error v)
  ]
