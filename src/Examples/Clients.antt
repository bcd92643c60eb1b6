-- ===== src/Examples/Clients.antt =====
-- Runs of the desktop client's stores and of the MJPEG proxy.
use quad_control.Base.{is_empty, some, false, ◌+◌, ◌≡◌, refl, List, [], ◌∷◌, none, length, take}
use quad_control.Base.Text.{Text, codes}
use quad_control.Gui.Recent.{app_display_name}
use quad_control.Gui.Recent.Names.{app_display_name-filled}
use quad_control.Gui.Recent.Laws.{Installed, ids, remember_all, history, remember_all-history}
use quad_control.Ios.Slot.{is_unseen}
use quad_control.Ios.Slot.Delivery.{
  Event, publishes, polls, joins, run, Delivered, count, run-accounts,
}

abbrev seen : List (Text × Installed)
seen =
    (codes "a", none)
    ∷ (codes "b", none)
    ∷ (codes "com.apple.SpringBoard", none)
    ∷ (codes "a", none)
    ∷ []

remember_all-history_example : ids (remember_all seen) ≡ take 8 (history seen)
remember_all-history_example = remember_all-history seen

two_remembered : ids (remember_all seen) ≡ codes "a" ∷ codes "b" ∷ []
unfolding remember_all
two_remembered = refl

abbrev events : List Event
events =
    polls
    ∷ publishes 30 (codes "jpg3")
    ∷ publishes 20 (codes "jpg2")
    ∷ joins
    ∷ publishes 10 (codes "jpg1")
    ∷ []

run-accounts_example :
    Delivered (run events).published (run events).slot.seq (run events).received
    × ((run events).slot.seq ≡ length (run events).published)
    × ((run events).slot.drops
          + (run events).missed
          + (run events).seen
          + count (is_unseen (run events).slot)
        ≡ length (run events).published)
run-accounts_example = run-accounts events

name_filled : is_empty (app_display_name (codes "com.example.") (some (codes " ")) none) ≡ false
name_filled = app_display_name-filled (codes "com.example.") (some (codes " ")) none refl
