-- ===== src/Examples/Pairing.antt =====
-- A pairing that is cancelled, in the store of the desktop client.
use quad_control.Base.{◌≡◌, refl, [], ◌∷◌, ok, ◌⊎◌, true, false}
use quad_control.Base.Text.{codes}
use quad_control.Gui.Pairing.{
  PairingStore, idle, new, begin, cancel_pairing, report, pairing_status_from,
}
use quad_control.Gui.Pairing.Single.{
  Single, Reachable, starts, moves, begins, cancels, Reachable-Single, is_busy,
  pairing_status_from-true,
}

abbrev cancelled_store : PairingStore
cancelled_store = cancel_pairing (begin 5 new).0

cancelled_store-Reachable : Reachable cancelled_store
cancelled_store-Reachable = moves (moves starts (begins 5)) cancels

Reachable-Single_example : Single cancelled_store
Reachable-Single_example = Reachable-Single cancelled_store cancelled_store-Reachable

-- The worker's success comes too late to be shown.
late_success : (report 1 (ok (codes "Pixel")) cancelled_store).state ≡ idle
unfolding report begin cancel_pairing new
late_success = refl

pairing_status_from-true_run :
    ((is_busy (pairing_status_from 9 cancelled_store.state) ≡ true)
      × (cancelled_store.workers ≡ (pairing_status_from 9 cancelled_store.state).generation ∷ []))
    ⊎ ((is_busy (pairing_status_from 9 cancelled_store.state) ≡ false)
        × (cancelled_store.workers ≡ []))
pairing_status_from-true_run = pairing_status_from-true 9 cancelled_store cancelled_store-Reachable
