-- ===== src/Gui/Status/Names.antt =====
-- Whose names of applications the panel of the iPhone holds over starts, turns of its poll and the answers
-- of `ios apps --list`, for crates/quadcontrol-gui/src-tauri/src/lib.rs.
pub mod Kept
use quad_control.Base.{
  ℕ, ◌+◌, ◌<◌, ◌≤◌, ◌≡◌, refl, ap, ◌∙◌, sym, ◌⊎◌, inl, inr, ◌≢◌, Bool, true, false, not, List, [],
  ◌∷◌, Option, none, some, Result, ok, err, ◌==◌, ◌&&◌, ◌||◌, leb, if◌then◌else◌, any, all, arith,
  Bool-cases, ==_iff,
}
use quad_control.Base.Text.{Text}
use quad_control.Ios.Error.{Error}
use quad_control.Ios.GoIos.Apps.{InstalledApp}
use quad_control.Ios.Session.{IosSessionStatus, running, starting, stopping, exited, failed}
use quad_control.Gui.Status.{
  IosMeta, Panel, default, is_id, named_apps, apps_loaded, load_for, spawn_installed_apps_load,
}
use quad_control.Gui.Status.Poll.{Turn, Answers, counted, answered, other_turn, ios_session_status}

pub data Phase : Type 0 where
  before during after : Phase

-- The panel, the session it belongs to, whether that session has been seen running, and the sessions for which
-- `ios apps --list` was run, each with the UDID that it was given.
pub record Following : Type 0 where
  pub panel : Panel
  pub current : ℕ
  pub phase : Phase
  pub asked : List (ℕ × Text)

abbrev pub member : ℕ → List (ℕ × Text) → Bool
member id asked = any (λ a. a.0 == id) asked

-- the UDID with which the session asked last
abbrev pub udid_of : ℕ → List (ℕ × Text) → Option Text
udid_of id [] = none
udid_of id ((i, udid) ∷ asked) = if i == id then some udid else udid_of id asked

abbrev pub live_turn : ℕ → ℕ → ℕ → ℕ → Option (Result Answers (Unit {0})) → Turn
live_turn id port frames now client = record {
  status = running port;
  session_id = id;
  frames = frames;
  now = now;
  client = client;
}

abbrev pub asked_for : ℕ → Option Text → List (ℕ × Text) → List (ℕ × Text)
asked_for id none asked = asked
asked_for id (some udid) asked = (id, udid) ∷ asked

abbrev pub left : Phase → Phase
left before = before
left during = after
left after = after

-- the end of `start_ios_session` for the device, under the next number
unfoldable pub begun : ℕ → Text → Following
unfolding default
begun id device = record {
  panel = record { meta = default; device_id = some device };
  current = id;
  phase = before;
  asked = [];
}

-- `store.device_id` is written, by a start, also one that is then refused since a session is live, or by a stop
abbrev pub noted : Option Text → Panel → Panel
noted device panel = record panel { device_id = device }

module _ (rate : ℕ → ℕ → ℕ) (lists : Text → List InstalledApp) where
  unfoldable pub follow_turn :
      ℕ → ℕ → ℕ → Option (Result Answers (Unit {0})) → Following → Following
  unfolding ios_session_status
  follow_turn port frames now client s =
      let turn =
        ios_session_status rate (some (live_turn s.current port frames now client)) s.panel in
      record {
        panel = turn.0;
        current = s.current;
        phase = during;
        asked = asked_for s.current turn.2 s.asked;
      }

  -- `lists` is what `ios apps --list` answers for a UDID, where it succeeds.
  pub data Move (s : Following) : Following → Type 0 where
    starts :
        (id : ℕ) (device : Text)
        → s.current < id
        → Move s (record (begun id device) { asked = s.asked })
    turns :
        (port frames now : ℕ) (client : Option (Result Answers (Unit {0})))
        → s.phase ≢ after
        → Move s (follow_turn port frames now client s)
    ends :
        (status : IosSessionStatus)
        → Move s (record s { panel = other_turn status s.panel; phase = left s.phase })
    refused : (device : Text) → Move s (record s { panel = noted (some device) s.panel })
    stops : Move s (record s { panel = noted none s.panel })
    lists_come :
        (id : ℕ) (udid : Text)
        → udid_of id s.asked ≡ some udid
        → Move s (record s { panel = apps_loaded id (ok (ok (lists udid))) s.panel })
    lists_fail :
        (id : ℕ) (e : Error)
        → member id s.asked ≡ true
        → Move s (record s { panel = apps_loaded id (ok (err e)) s.panel })
    lists_panic :
        (id : ℕ)
        → member id s.asked ≡ true
        → Move s (record s { panel = apps_loaded id (err tt) s.panel })

  pub data Reachable : Following → Type 0 where
    begins : (id : ℕ) (device : Text) → Reachable (begun id device)
    moves : {s s' : Following} → Reachable s → Move s s' → Reachable s'

  abbrev pub Distinct : List (ℕ × Text) → Type 0
  Distinct [] = Unit
  Distinct ((id, udid) ∷ asked) = (member id asked ≡ false) × Distinct asked

  pub record Own (s : Following) : Type 0 where
    pub names :
        (s.panel.meta.installed ≡ none)
        ⊎ ((udid : Text) × (udid_of s.current s.asked ≡ some udid)
            × (s.panel.meta.installed ≡ some (named_apps (lists udid))))
    pub session : (s.panel.meta.session_id ≡ none) ⊎ (s.panel.meta.session_id ≡ some s.current)
    pub fresh :
        s.phase ≢ after
        → (s.panel.meta.installed_requested ≡ some s.current) ⊎ (member s.current s.asked ≡ false)
    pub old : all (λ a. leb a.0 s.current) s.asked ≡ true
    pub once : Distinct s.asked
    pub early : s.phase ≡ before → member s.current s.asked ≡ false
