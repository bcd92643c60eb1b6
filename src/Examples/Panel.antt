-- ===== src/Examples/Panel.antt =====
-- Turns of the poll behind the panel of the iPhone.
use quad_control.Base.{ℕ, ◌≡◌, refl, true, List, [], ◌∷◌, map, none, some, ok, err, arith}
use quad_control.Base.Text.{Text, codes}
use quad_control.Ios.GoIos.Apps.{InstalledApp}
use quad_control.Gui.Status.{diff_fps, named_apps, apps_loaded}
use quad_control.Gui.Status.Poll.{answers_of}
use quad_control.Gui.Status.Poll.Remembered.{Running, latest}
use quad_control.Gui.Status.Names.{
  lists_come, noted, Following, Own, Reachable, begins, moves, turns, starts, begun, follow_turn,
}
use quad_control.Gui.Status.Names.Kept.{Reachable-Own}

abbrev rate : ℕ → ℕ → ℕ
rate frames elapsed = frames

-- a turn with all answers, and one in which the device did not answer in time
abbrev answered : Running
answered = record {
  port = 9200;
  frames = 30;
  now = 1000;
  answers = ok (record {
    locked = some true;
    window = some (record { width = 390; height = 844 });
    active = some (record { bundle_id = codes "com.example.notes"; pid = 7 });
  });
}

abbrev unanswered : Running
unanswered = record { port = 9200; frames = 60; now = 2000; answers = err tt }

-- It stays locked on the panel.
still_locked :
    latest (map (λ r. (answers_of r.answers).locked) (unanswered ∷ answered ∷ [])) ≡ some true
still_locked = refl

same_rate : diff_fps rate (some (10, 1000)) 50 1100 24 ≡ 24
unfolding diff_fps
same_rate = refl

abbrev lists : Text → List InstalledApp
lists udid = record { bundle_id = codes "com.example.notes"; name = codes "Notes" } ∷ []

abbrev followed : Following
followed = follow_turn rate lists 9200 30 1000 none (begun 4 (codes "udid"))

-- The names of session 4 come before and after session 5 has begun.
abbrev listed : Following
listed = record followed { panel = apps_loaded 4 (ok (ok (lists (codes "udid")))) followed.panel }

abbrev next_session : Following
next_session = record (begun 5 (codes "udid")) { asked = listed.asked }

listed-Reachable : Reachable rate lists listed
unfolding begun follow_turn
listed-Reachable =
    moves (moves (begins 4 (codes "udid")) (turns 9200 30 1000 none (λ h. cc)))
      (lists_come 4 (codes "udid") refl)

Reachable-Own_example : Own rate lists listed
Reachable-Own_example = Reachable-Own rate lists listed listed-Reachable

has_names : listed.panel.meta.installed ≡ some (named_apps (lists (codes "udid")))
unfolding begun follow_turn apps_loaded
has_names = refl

next_session-Reachable : Reachable rate lists next_session
unfolding begun follow_turn apps_loaded
next_session-Reachable = moves listed-Reachable (starts 5 (codes "udid") (omega arith))

-- A start for a second phone is refused, and the session of the first then asks with the UDID of the second.
other_phone :
    (follow_turn rate lists 9200 30 1000 none (record (begun 4 (codes "first")) {
      panel = noted (some (codes "second")) (begun 4 (codes "first")).panel;
    })).asked
    ≡ (4, codes "second") ∷ []
unfolding begun follow_turn
other_phone = refl
