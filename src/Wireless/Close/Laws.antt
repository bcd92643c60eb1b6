-- ===== src/Wireless/Close/Laws.antt =====
-- Laws of `round_close` in crates/quadcontrol-android/src/wireless.rs.
use quad_control.Base.{◌≡◌, ◌≢◌, true, false, List, [], none, ok, arith}
use quad_control.Base.Text.{Text}
use quad_control.Os.{ExitStatus}
use quad_control.Wireless.Process.{PairProcess}
use quad_control.Wireless.Round.Laws.{reason_of}
use quad_control.Wireless.Round.{RoundEvent, RoundState, next_id}
use quad_control.Wireless.Close.{PairingSecret, round_close}

-- Closing an open round, on any event: the round is closed under the next id for the event's
-- reason, no pair is in flight or in the list, and the secret and the code shown are wiped.
pub round_close-closes :
    (round : RoundState) (pairs : List PairProcess) (secret : PairingSecret) (qr : Text)
    (event : RoundEvent)
    → round.closed ≡ false
    → let c = round_close round pairs secret qr event in
      (c.round.closed ≡ true)
      × (c.round.pair_in_flight ≡ false)
      × (c.round.id ≡ next_id round.id)
      × (c.reason ≡ reason_of (record round { pair_in_flight = false }) event)
      × (c.pairs ≡ [])
      × (c.secret ≡ record { service_name = []; password = []; payload = [] })
      × (c.qr ≡ [])
unfolding round_close
round_close-closes round pairs secret qr event h = ground arith

-- The system lets the child be waited for, or it is reaped already.
abbrev pub CanReap : PairProcess → Type 0
CanReap p = (s : ExitStatus) × (p.child.wait_answer ≡ ok s)

abbrev pub IsReaped : PairProcess → Type 0
IsReaped p = (p.child.exit ≢ none) × (p.stdout ≡ none) × (p.stderr ≡ none)
