-- ===== src/Examples/Sessions.antt =====
-- The sessions of the desktop client: a mirroring session that the shutdown finds, one that it does not, and
-- the end of the client.
use quad_control.Base.{◌+◌, ◌≤◌, ◌≡◌, refl, true, [], ◌∷◌, none, some, ok, err, arith}
use quad_control.Base.Text.{codes, text_eq}
use quad_control.Base.Text.Map.{get}
use quad_control.Android.Session.{running}
use quad_control.Gui.Sessions.{SessionStore, new, start_session, show, answer, drain, truncate_tail}
use quad_control.Gui.Sessions.Reach.{
  Reachable, begins, moves, starts, comes_up, answers, drains, Visible, Reachable-Visible,
}
use quad_control.Gui.Shutdown.{
  Client, Shutdown, RunEvent, exit, exit_requested, close_requested, other, passes, waits,
  begin_shutdown, background_ends, on_event, reclaim_sessions, wait_exit, session_budget,
}
use quad_control.Gui.Shutdown as End
use quad_control.Gui.Shutdown.Once as Once
use quad_control.Gui.Shutdown.Once.{Answered, on_event-reclaims}
use quad_control.Gui.Shutdown.Budget.{Ends, unreported, reclaim_sessions-Ends, wait_exit-sees}

-- the session that is running when the client ends
abbrev up : SessionStore
up = show 1 running (start_session (codes "phone") new).0

abbrev reclaimed : SessionStore
reclaimed = drain (answer (codes "phone") 1 (ok (ok tt)) up).0

reclaimed-Reachable : Reachable reclaimed
unfolding new start_session show
reclaimed-Reachable =
    moves
      (moves (moves (moves begins (starts (codes "phone"))) (comes_up 1 refl))
        (answers (codes "phone") 1 (ok (ok tt)) refl tt))
      drains

Reachable-Visible_example : Visible reclaimed
Reachable-Visible_example = Reachable-Visible reclaimed reclaimed-Reachable

-- A session whose start is in flight during the shutdown is put into the map after it, and nothing has
-- asked it to stop.
abbrev left_over : SessionStore
left_over =
    (answer (codes "phone") 1 (ok (ok tt))
      (show 1 running (drain (start_session (codes "phone") new).0))).0

left_running :
    (get (codes "phone") left_over.sessions ≡ some 1)
    × (left_over.status 1 ≡ some running)
    × (left_over.stops ≡ [])
unfolding new start_session show drain answer get text_eq
left_running = (refl, refl, refl)

last_two : truncate_tail (codes "abc") 2 ≡ codes "bc"
unfolding truncate_tail
last_two = refl

abbrev closing : Shutdown
closing = (on_event close_requested End.new).0

-- the background task has ended, here with a panic of what it called
abbrev closed : Shutdown
closed = background_ends (err tt) closing

closed-Reachable : Once.Reachable closed
unfolding on_event End.new begin_shutdown
closed-Reachable =
    Once.moves (Once.moves Once.begins (Once.happens close_requested)) (Once.ends (err tt) refl)

-- the exit that it has asked for
on_event-reclaims_example :
    let after = (on_event exit_requested closed).0 in
    (after.reclaims ≤ 1)
    × (after.exits ≤ after.reclaimed + after.panicked)
    × Answered exit_requested after (on_event exit_requested closed).1
on_event-reclaims_example = on_event-reclaims closed closed-Reachable exit_requested (λ h. cc)

it_passes : (on_event exit_requested closed).1 ≡ passes
unfolding on_event End.new begin_shutdown background_ends
it_passes = refl

it_waits : (on_event exit closing).1 ≡ waits
unfolding on_event End.new begin_shutdown
it_waits = refl

-- one session that ends after two seconds, one that does not, and a pairing that is cancelled in time
abbrev client : Client
client = record {
  android = record { id = 1; done_at = some 2000 } ∷ record { id = 2; done_at = none } ∷ [];
  ios = [];
  pairing_over = some 9000;
  lag = λ t. 5;
}

reclaim_sessions-Ends_example :
    Ends client 5 100 (reclaim_sessions client 100).0
    × ((reclaim_sessions client 100).1
        ≡ unreported (100 + session_budget) client.android
          + unreported (100 + session_budget) client.ios)
reclaim_sessions-Ends_example = reclaim_sessions-Ends client 5 (λ t. omega arith) 100

-- The wait ends when the pairing is over, with one session late.
one_late : reclaim_sessions client 100 ≡ (9020, 1)
unfolding reclaim_sessions
one_late = refl

wait_exit-sees_example : (wait_exit (λ t. 5) (some 9000) 300).1 ≡ true
wait_exit-sees_example =
    wait_exit-sees client 5 (λ t. omega arith) (omega arith) (λ t. 5) 100 9000 300 (omega arith)
      (rw one_late (omega arith))
