-- ===== src/Examples/IosSlot.antt =====
-- A session that was started for one phone, and a start for another beside it.
use quad_control.Base.{◌≡◌, refl, some, ok}
use quad_control.Base.Text.{codes}
use quad_control.Gui.IosSlot.{IosSessionStore, handle, new, start, answer}
use quad_control.Gui.IosSlot.Single.{
  Accounts, Reachable, begins, moves, starts, answers, Reachable-Accounts,
}

abbrev running : IosSessionStore
running = (answer 1 (ok (ok tt)) (start (codes "phone") new).0).0

abbrev refused : IosSessionStore
refused = (start (codes "tablet") running).0

refused-Reachable : Reachable refused
unfolding new start
refused-Reachable =
    moves (moves (moves begins (starts (codes "phone"))) (answers 1 (ok (ok tt)) refl))
      (starts (codes "tablet"))

Reachable-Accounts_example : Accounts refused
Reachable-Accounts_example = Reachable-Accounts refused refused-Reachable

-- The session of the phone goes on, under the identity of the tablet.
wrong_device : (refused.session ≡ some (handle 1)) × (refused.device_id ≡ some (codes "tablet"))
unfolding new start answer
wrong_device = (refl, refl)
