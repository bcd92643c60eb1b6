-- ===== src/Wireless/Pairing/Turns.antt =====
-- The polls of the pair processes, and whole turns of the pairing loop.
use quad_control.Base.{
  ℕ, ◌≡◌, refl, inl, inr, true, false, ◌&&◌, List, [], ◌∷◌, ◌++◌, Option, none, some, Result, ok,
  err, arith, is_empty, Bool-cases, Option-cases, ◌==◌,
}
use quad_control.Base.Text.{Text}
use quad_control.Wireless.{WirelessError, timed_out, pair_output_unparseable}
use quad_control.Wireless.Process.{PairResult}
use quad_control.Wireless.Services.{find_guid}
use quad_control.Wireless.Pairing.Invariant.{Inv, Ensures, Ensures-bind, fail-Ensures, discover-Inv}
use quad_control.Wireless.Pairing.{
  Tick, Pairing, Turn, note, discover, poll_one, poll_all, conclude, turn, run,
}

-- Amid the polls: `kept` has been polled, `rest` has not.
record Polling (P : Type 0) (round_id : ℕ) (kept rest : List P) (s : Pairing P) : Type 0 where
  is_open : s.round.closed ≡ false
  same_id : s.round.id ≡ round_id
  busy : (is_empty kept && is_empty rest) ≡ false → s.round.pair_in_flight ≡ true
  idle : (is_empty kept && is_empty rest) ≡ true → s.failure ≡ none → is_empty s.spawned ≡ true

module _ {P : Type 0} (round_id : ℕ) where
  abbrev Kept : Pairing P → Type 0
  Kept s = Polling P round_id s.pairs [] s

  note-Polling :
      (kept : List P) (p : P) (rest : List P) (s : Pairing P) (error : WirelessError)
      → Polling P round_id kept (p ∷ rest) s
      → Polling P round_id kept rest (note s error)
  note-Polling kept p rest s error v = ground arith

  keep-Polling :
      (kept : List P) (p p' : P) (rest : List P) (s : Pairing P)
      → Polling P round_id kept (p ∷ rest) s
      → Polling P round_id (kept ++ p' ∷ []) rest s
  keep-Polling kept p p' rest s v = ground arith

  poll_one-Ensures :
      (t : Tick P) (kept : List P) (p p' : P) (rest : List P) (s : Pairing P)
      (answer : Result (Option PairResult) WirelessError) (next : List P → Pairing P → Turn P)
      → Polling P round_id kept (p ∷ rest) s
      → ((kept' : List P) (s' : Pairing P)
          → Polling P round_id kept' rest s'
          → Ensures round_id Kept (next kept' s'))
      → Ensures round_id Kept (poll_one t kept p' rest s answer next)
  unfolding poll_one
  poll_one-Ensures t kept p p' rest s (ok none) next v k = k _ s (keep-Polling kept p p' rest s v)
  poll_one-Ensures t kept p p' rest s (ok (some r)) next v k = elim (Bool-cases (r.status == 0)) [
    | inl zero_status ↦ rw zero_status (elim (Option-cases (find_guid r.out)) [
      | inl e ↦ rw (e, poll_one) (k kept _ (note-Polling kept p rest s pair_output_unparseable v))
      | inr (guid, e) ↦ rw (e, poll_one) (v.is_open, v.same_id, refl, tt)
    ])
    | inr nonzero ↦ rw nonzero (k kept _ (note-Polling kept p rest s _ v))
  ]
  poll_one-Ensures t kept p p' rest s (err timed_out) next v k = k kept _ (ground arith)
  poll_one-Ensures t kept p p' rest s (err error) next v k =
      k kept _ (note-Polling kept p rest s error v)

  poll_all-Ensures :
      (t : Tick P) (kept rest : List P) (s : Pairing P)
      → Polling P round_id kept rest s
      → Ensures round_id Kept (poll_all t kept rest s)
  unfolding poll_all
  poll_all-Ensures t kept [] s v = ground arith
  poll_all-Ensures t kept (p ∷ rest) s v =
      poll_one-Ensures t kept p (t.poll p).0 rest s (t.poll p).1 _ v
        (λ kept' s' v'. poll_all-Ensures t kept' rest s' v')

  abbrev idle_of : Pairing P → Pairing P
  idle_of s = record s { round = record (s.round) { pair_in_flight = false } }

  conclude-Inv : (s : Pairing P) → Kept s → Ensures round_id (Inv P round_id) (conclude s)
  unfolding conclude
  conclude-Inv s v = elim (Bool-cases (is_empty s.pairs)) [
    | inl idle ↦ rw idle (elim (Option-cases s.failure) [
      | inl e ↦ rw (e, conclude) (ground arith)
      | inr (error, e) ↦
          rw (e, conclude)
            (fail-Ensures round_id (Inv P round_id) (idle_of s) error v.is_open v.same_id idle)
    ])
    | inr busy ↦ rw busy (ground arith)
  ]

  turn-Inv :
      (name : Text) (t : Tick P) (s : Pairing P)
      → Inv P round_id s
      → Ensures round_id (Inv P round_id) (turn round_id name t s)
  unfolding turn
  turn-Inv name t s v = elim (Bool-cases t.is_cancelled) [
    | inl stop ↦ rw stop (v.is_open, v.same_id, refl, tt)
    | inr on ↦ rw on (elim (Bool-cases t.is_expired) [
      | inl late ↦ rw late (v.is_open, v.same_id, refl, tt)
      | inr early ↦ rw early (
          Ensures-bind round_id Kept (Inv P round_id) _ conclude conclude-Inv (
            Ensures-bind round_id (Inv P round_id) Kept (discover round_id name t s) _
              (λ s' v'. poll_all-Ensures t [] s'.pairs s' (ground arith))
              (discover-Inv round_id name t s v)))
    ])
  ]

  -- However many turns are taken from a state that satisfies the invariant, and whatever the system
  -- shows in them: while the loop goes on the invariant holds, and where it ends the round is still
  -- open under its id, the event and the result have one source, and no failure ends the round
  -- while a pair process is in flight.
  pub run-Ensures :
      (name : Text) (ts : List (Tick P)) (s : Pairing P)
      → Inv P round_id s
      → Ensures round_id (Inv P round_id) (run round_id name ts s)
  unfolding run
  run-Ensures name [] s v = v
  run-Ensures name (t ∷ ts) s v =
      Ensures-bind round_id (Inv P round_id) (Inv P round_id) (turn round_id name t s) _
        (λ s' v'. run-Ensures name ts s' v') (turn-Inv name t s v)
