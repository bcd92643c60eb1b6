-- ===== src/Wireless/Command/Laws.antt =====
-- What the command that pairs a phone comes to, for crates/quadcontrol-android/src/wireless.rs.
use quad_control.Base.{
  ◌+◌, ℕ, ◌≤◌, arith, ◌≡◌, refl, true, false, [], Option, none, some, Result, ok, err,
}
use quad_control.Base.Text.{Text}
use quad_control.Wireless.{WirelessError}
use quad_control.Wireless.Process.{PairProcess}
use quad_control.Wireless.Round.{CloseReason, new}
use quad_control.Wireless.Close.{PairingSecret, RoundClosed}
use quad_control.Wireless.Pairing.{Pairing, Turn, go_on, finished, run, begin}
use quad_control.Wireless.Online.{Adb, World, bring_online, is_cancelled}
use quad_control.Wireless.Online.Waits.{Timely, bring_online-cancels, pairing_shutdown_deadline}
use quad_control.Wireless.Online.Found.{Found, Comes, bring_online-Comes}
use quad_control.Wireless.Command.{Surroundings, Answer, Ended, shown, online, after_close}

-- The round is closed, no process of it is left in its list, and the secret and the code are wiped.
abbrev pub Closed : Option RoundClosed → Type 0
Closed none = Unit
Closed (some c) =
    (c.round.closed ≡ true)
    × (c.pairs ≡ [])
    × (c.secret ≡ record { service_name = []; password = []; payload = [] })
    × (c.qr ≡ [])

-- the identity that the round of the command gave
abbrev pub guid_of : Turn PairProcess → Option Text
guid_of (go_on p) = none
guid_of (finished p event (ok guid)) = some guid
guid_of (finished p event (err e)) = none

abbrev pub paired : Surroundings → PairingSecret → Option Text
paired s secret = guid_of (run 1 secret.service_name s.ticks (begin (new 1)))

-- A success comes from a round that was closed for it, and is a phone of the identity it gave.
abbrev pub Succeeded : Surroundings → Option Text → Option RoundClosed → Answer → Type 0
Succeeded s paired closed (err e) = Unit
Succeeded s paired none (ok (serial, shown, reason)) = true ≡ false
Succeeded s paired (some c) (ok (serial, shown, reason)) =
    (reason ≡ CloseReason.success)
    × (c.reason ≡ CloseReason.success)
    × (guid : Text) × (paired ≡ some guid)
    × Found s.adb guid serial

abbrev pub IsClean : Surroundings → Option Text → Option Ended → Type 0
IsClean s paired none = true ≡ false
IsClean s paired (some e) = Closed e.closed × Succeeded s paired e.closed e.answer

-- What an answer of `bring_online` means for a cancellation at `c`: one that came before it is an error, and the
-- error of the command, which then runs nothing more.
abbrev EndsThere : Surroundings → CloseReason → ℕ → World × Result Text WirelessError → Type 0
EndsThere s reason c r =
    c ≤ r.0.now → (e : WirelessError) × (r.1 ≡ err e) × (online s reason r ≡ err e)

passed : (adb : Adb) (c now : ℕ) → adb.cancelled_at ≡ some c → c ≤ now → is_cancelled adb now ≡ true
unfolding is_cancelled
passed adb c now cut le = rw cut (ground arith)

ends_there :
    (s : Surroundings) (reason : CloseReason) (c : ℕ) (guid : Text)
    (r : World × Result Text WirelessError)
    → s.adb.cancelled_at ≡ some c
    → Comes s.adb guid r
    → EndsThere s reason c r
ends_there s reason c guid (w, err e) cut comes le = (e, refl, refl)
ends_there s reason c guid (w, ok serial) cut comes le =
    let not_yet = comes.1 in let by_then = passed s.adb c w.now cut le in cc

-- A pairing that is cancelled while it brings the phone online, after its round was closed, ends within the 13 s
-- that the client waits for it: where no sleep is late by more than a second, and no command of adb holds up the
-- wait for it and the joins of its readers by more than 0.7 s. It ends right where `bring_online` ends and with
-- its error, with no look at the devices any more. A later cancellation is not the matter of this statement.
pub after_close-cancels :
    (s : Surroundings) (late block : ℕ)
    → Timely s.adb late block
    → ((t : ℕ) → s.adb.lag t ≤ late)
    → late ≤ 1000
    → block ≤ 700
    → (c : ℕ) → s.adb.cancelled_at ≡ some c
    → (closed : RoundClosed) (guid : Text) (w : World) → w.now ≤ c
    → let r = bring_online s.adb guid w in
      (r.0.now ≤ c + pairing_shutdown_deadline)
      × (c ≤ r.0.now
          → (e : WirelessError) × (r.1 ≡ err e)
            × (after_close s closed (ok guid) (ok tt) w ≡ err e))
after_close-cancels s late block timely lag small short c cut closed guid w before = (
  bring_online-cancels s.adb late block timely lag small short c cut guid w before,
  ends_there s closed.reason c guid (bring_online s.adb guid w) cut
      (bring_online-Comes s.adb guid w),
)
