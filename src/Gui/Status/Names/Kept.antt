-- ===== src/Gui/Status/Names/Kept.antt =====
-- What the panel of the iPhone keeps of the names of applications, for the moves in Names
-- (crates/quadcontrol-gui/src-tauri/src/lib.rs).
use quad_control.Base.{
  ℕ, ◌<◌, ◌≡◌, refl, ◌∙◌, ◌==◌, ◌⊎◌, inl, inr, ◌≢◌, true, false, List, [], ◌∷◌, Option, none, some,
  Result, ok, leb, all, arith, Bool-cases,
}
use quad_control.Base.Text.{Text}
use quad_control.Ios.GoIos.Apps.{InstalledApp}
use quad_control.Ios.Session.{IosSessionStatus}
use quad_control.Gui.Status.{
  IosMeta, Panel, default, is_id, named_apps, apps_loaded, load_for, spawn_installed_apps_load,
}
use quad_control.Gui.Status.Poll.{Answers, counted, answered, other_turn}
use quad_control.Gui.Status.Names.{
  Phase, before, during, after, Following, member, udid_of, live_turn, asked_for, left, begun,
  follow_turn, Move, starts, turns, ends, refused, stops, lists_come, lists_fail, lists_panic,
  Reachable, begins, moves, Own,
}

module _ (rate : ℕ → ℕ → ℕ) (lists : Text → List InstalledApp) where
  above :
      (c id : ℕ) (ids : List (ℕ × Text))
      → all (λ a. leb a.0 c) ids ≡ true
      → c < id
      → member id ids ≡ false
  above c id [] h lt = refl
  above c id ((i, udid) ∷ ids) h lt = ground (arith, above c id ids)

  higher :
      (c id : ℕ) (ids : List (ℕ × Text))
      → all (λ a. leb a.0 c) ids ≡ true
      → c < id
      → all (λ a. leb a.0 id) ids ≡ true
  higher c id [] h lt = refl
  higher c id ((i, udid) ∷ ids) h lt = ground (arith, higher c id ids)

  starts-Own :
      (id : ℕ) (device : Text) (s : Following)
      → s.current < id
      → Own rate lists s
      → Own rate lists (record (begun id device) { asked = s.asked })
  unfolding begun default
  starts-Own id device s lt v = record {
    names = inl refl;
    session = inl refl;
    fresh = λ _. inr (above s.current id s.asked v.old lt);
    old = higher s.current id s.asked v.old lt;
    once = v.once;
    early = λ _. above s.current id s.asked v.old lt;
  }

  left_early : (p : Phase) → left p ≢ after → p ≡ before
  left_early before n = refl
  left_early during n = absurd (n refl)
  left_early after n = absurd (n refl)

  still_early : (p : Phase) → left p ≡ before → p ≡ before
  still_early before e = refl
  still_early during e = cc
  still_early after e = cc

  ends-Own :
      (status : IosSessionStatus) (s : Following)
      → Own rate lists s
      → Own rate lists (record s { panel = other_turn status s.panel; phase = left s.phase })
  unfolding other_turn default
  ends-Own status s v = record {
    names = inl refl;
    session = inl refl;
    fresh = λ n. inr (v.early (left_early s.phase n));
    old = v.old;
    once = v.once;
    early = λ e. v.early (still_early s.phase e);
  }

  loaded :
      (id : ℕ) (apps : List InstalledApp) (p : Panel)
      → (apps_loaded id (ok (ok apps)) p ≡ p)
        ⊎ ((is_id id p.meta.session_id ≡ true)
            × (apps_loaded id (ok (ok apps)) p
                ≡ record p { meta = record p.meta { installed = some (named_apps apps) } }))
  unfolding apps_loaded
  loaded id apps p = elim (Bool-cases (is_id id p.meta.session_id)) [
    | inl e ↦ inr (e, rw e refl)
    | inr e ↦ inl (rw e refl)
  ]

  same_session :
      (id current : ℕ) (o : Option ℕ)
      → is_id id o ≡ true
      → (o ≡ none) ⊎ (o ≡ some current)
      → id ≡ current
  same_session id current none h e = cc
  same_session id current (some i) h (inl e) = cc
  same_session id current (some i) h (inr e) = ground arith

  lists-Own :
      (id : ℕ) (udid : Text) (s : Following)
      → udid_of id s.asked ≡ some udid
      → Own rate lists s
      → Own rate lists (record s { panel = apps_loaded id (ok (ok (lists udid))) s.panel })
  lists-Own id udid s asked v = elim (loaded id (lists udid) s.panel) [
    | inl e ↦ rw e v
    | inr (h, e) ↦
        let same = same_session id s.current _ h v.session in
        rw e record {
          names = inr (udid, rw (← same) asked, refl);
          session = v.session;
          fresh = v.fresh;
          old = v.old;
          once = v.once;
          early = v.early;
        }
  ]

  -- Who has a UDID has asked.
  nothing_asked :
      (id : ℕ) (udid : Text) (asked : List (ℕ × Text))
      → member id asked ≡ false
      → udid_of id asked ≡ some udid
      → {A : Type 0} → A
  nothing_asked id udid [] h e = cc
  nothing_asked id udid ((i, u) ∷ asked) h e = elim (Bool-cases (i == id)) [
    | inl t ↦ absurd (ground arith)
    | inr f ↦ nothing_asked id udid asked (ground arith) (rw f at e)
  ]

  -- The session does not have names before it asks for them.
  no_names :
      (s : Following)
      → member s.current s.asked ≡ false
      → Own rate lists s
      → s.panel.meta.installed ≡ none
  no_names s h v = elim v.names [
    | inl e ↦ e
    | inr (udid, e, names) ↦ nothing_asked s.current udid s.asked h e
  ]

  unasked :
      (id : ℕ) (o : Option ℕ) (asked : List (ℕ × Text))
      → is_id id o ≡ false
      → (o ≡ some id) ⊎ (member id asked ≡ false)
      → member id asked ≡ false
  unasked id none asked h (inl e) = cc
  unasked id (some i) asked h (inl e) = ground arith
  unasked id o asked h (inr e) = e

  -- the last step of a turn: the names are asked for, if they have not been
  loads-Own :
      (s : Following) (meta : IosMeta) (device : Option Text)
      → meta.installed ≡ s.panel.meta.installed
      → meta.installed_requested ≡ s.panel.meta.installed_requested
      → meta.session_id ≡ some s.current
      → s.phase ≢ after
      → Own rate lists s
      → let load = load_for s.current (record s.panel { meta = meta }) device in
        Own rate lists (record {
          panel = load.0;
          current = s.current;
          phase = during;
          asked = asked_for s.current load.1 s.asked;
        })
  unfolding load_for
  loads-Own s meta none i r e n v = record {
    names = rw i v.names;
    session = inr e;
    fresh = λ _. rw r (v.fresh n);
    old = v.old;
    once = v.once;
    early = λ h. cc;
  }
  loads-Own s meta (some udid) i r e n v =
      elim (Bool-cases (is_id s.current meta.installed_requested)) [
        | inl h ↦ rw h record {
          names = rw i v.names;
          session = inr e;
          fresh = λ _. rw r (v.fresh n);
          old = v.old;
          once = v.once;
          early = λ h. cc;
        }
        | inr h ↦
            let new =
              unasked s.current s.panel.meta.installed_requested s.asked (rw (← r) h) (v.fresh n) in
            rw h record {
              names = inl (i ∙ no_names s new v);
              session = inr e;
              fresh = λ _. inl refl;
              old = let o = v.old in ground arith;
              once = (new, v.once);
              early = λ h. cc;
            }
      ]

  turns-Own :
      (port frames now : ℕ) (client : Option (Result Answers (Unit {0}))) (s : Following)
      → s.phase ≢ after
      → Own rate lists s
      → Own rate lists (follow_turn rate lists port frames now client s)
  unfolding follow_turn spawn_installed_apps_load answered counted
  turns-Own port frames now none s n v =
      loads-Own s (counted rate (live_turn s.current port frames now none) s.panel.meta)
        s.panel.device_id refl refl refl n v
  turns-Own port frames now (some r) s n v =
      loads-Own s
        (answered (some r)
          (counted rate (live_turn s.current port frames now (some r)) s.panel.meta))
        s.panel.device_id refl refl refl n v

  Move-Own : {s s' : Following} → Move rate lists s s' → Own rate lists s → Own rate lists s'
  unfolding apps_loaded
  Move-Own {s} (starts id device lt) v = starts-Own id device s lt v
  Move-Own {s} (turns port frames now client n) v = turns-Own port frames now client s n v
  Move-Own {s} (ends status) v = ends-Own status s v
  Move-Own {s} (refused device) v = record {
    names = v.names;
    session = v.session;
    fresh = v.fresh;
    old = v.old;
    once = v.once;
    early = v.early;
  }
  Move-Own {s} stops v = record {
    names = v.names;
    session = v.session;
    fresh = v.fresh;
    old = v.old;
    once = v.once;
    early = v.early;
  }
  Move-Own {s} (lists_come id udid h) v = lists-Own id udid s h v
  Move-Own {s} (lists_fail id e h) v = v
  Move-Own {s} (lists_panic id h) v = v

  -- However starts, also refused ones, stops, turns of the poll, ends of sessions and the answers of
  -- `ios apps --list` follow one another, the names that the panel uses are those that were listed for the UDID
  -- with which the session it shows has asked, and not for an earlier session, and each session asks at most
  -- once. The moves hold what is not shown here: a session that has been running and is not any more does not
  -- run again, and the numbers of sessions rise.
  pub Reachable-Own : (s : Following) → Reachable rate lists s → Own rate lists s
  unfolding begun default
  Reachable-Own s (begins id device) = record {
    names = inl refl;
    session = inl refl;
    fresh = λ _. inr refl;
    old = refl;
    once = tt;
    early = λ _. refl;
  }
  Reachable-Own s (moves {s = b} reached move) = Move-Own move (Reachable-Own b reached)
