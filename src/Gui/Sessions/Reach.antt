-- ===== src/Gui/Sessions/Reach.antt =====
-- The sequences of starts, answers, stops and changes of status of Android sessions, for the store in
-- crates/quadcontrol-gui/src-tauri/src/lib.rs.
use quad_control.Base.{
  ℕ, ◌≡◌, refl, sym, ◌⊎◌, inl, inr, Bool, true, false, List, [], ◌∷◌, ◌++◌, map, Option, none, some,
  Result, ok, err, arith, ◌==◌, any, Bool-cases, ==_iff, ap,
}
use quad_control.Base.Text.{Text, text_eq}
use quad_control.Base.Text.Map.{get, insert, get-insert, get-remove, get-any}
use quad_control.Base.Text.Equality.{text_eq_iff, text_eq_refl}
use quad_control.Android.{Error}
use quad_control.Android.Session.{SessionStatus, running}
use quad_control.Gui.Sessions.{
  SessionStore, new, is_live, occupied, start_session, show, except, answer, request_stop,
  stop_session, drain,
}

abbrev pub member : ℕ → List ℕ → Bool
member id ids = any (λ i. i == id) ids

-- Where no session came up, none is live under the number.
abbrev pub Started : Result (Result (Unit {0}) Error) (Unit {0}) → Option SessionStatus → Type 0
Started (ok (ok u)) s = Unit
Started (ok (err e)) s = is_live s ≡ false
Started (err panicked) s = is_live s ≡ false

pub data Move (s : SessionStore) : SessionStore → Type 0 where
  starts : (device : Text) → Move s (start_session device s).0
  comes_up : (id : ℕ) → member id s.pending ≡ true → Move s (show id running s)
  answers :
      (device : Text) (id : ℕ) (r : Result (Result (Unit {0}) Error) (Unit {0}))
      → member id s.pending ≡ true
      → Started r (s.status id)
      → Move s (answer device id r s).0
  stops : (device : Text) → Move s (stop_session device s)
  shows :
      (id : ℕ) (status : SessionStatus) → is_live (s.status id) ≡ true → Move s (show id status s)
  drains : Move s (drain s)

pub data Reachable : SessionStore → Type 0 where
  begins : Reachable new
  moves : {s s' : SessionStore} → Reachable s → Move s s' → Reachable s'

-- the session is the one of a device in the map, was asked to stop, or is that of a start that has not
-- been answered
abbrev pub InReach : SessionStore → ℕ → Type 0
InReach s id =
    ((device : Text) × (get device s.sessions ≡ some id))
    ⊎ ((member id s.stops ≡ true) ⊎ (member id s.pending ≡ true))

abbrev pub Visible : SessionStore → Type 0
Visible s = (id : ℕ) → is_live (s.status id) ≡ true → InReach s id

unpended :
    (id i : ℕ) (ids : List ℕ) → member i ids ≡ true → (i ≡ id) ⊎ (member i (except id ids) ≡ true)
unpended id i [] h = cc
unpended id i (x ∷ ids) h = elim (Bool-cases (x == i)) [
  | inl e ↦ elim (Bool-cases (x == id)) [ inl f ↦ inl (ground arith) | inr f ↦ inr (ground arith) ]
  | inr e ↦ elim (unpended id i ids (ground arith)) [
    | inl same ↦ inl same
    | inr kept ↦ inr (ground arith)
  ]
]

-- A live session that is not under the device is under another one.
elsewhere :
    (device d : Text) (id : ℕ) (s : SessionStore)
    → occupied device s ≡ false
    → is_live (s.status id) ≡ true
    → get d s.sessions ≡ some id
    → text_eq device d ≡ false
unfolding occupied
elsewhere device d id s free live g = elim (Bool-cases (text_eq device d)) [
  | inl e ↦
      let same : occupied device s ≡ occupied d s =
        ap (λ x. occupied x s) ((text_eq_iff device d).0 e) in
      let busy : occupied d s ≡ true = rw g live in cc
  | inr e ↦ e
]

start-Visible : (device : Text) (s : SessionStore) → Visible s → Visible (start_session device s).0
unfolding start_session
start-Visible device s v = elim (Bool-cases (occupied device s)) [
  | inl busy ↦ rw busy v
  | inr free ↦ rw free λ id live. elim (v id live) [
    | inl (d, g) ↦
        inl (d, rw (get-remove d device s.sessions, elsewhere device d id s free live g) g)
    | inr (inl asked) ↦ inr (inl asked)
    | inr (inr waits) ↦ inr (inr (ground arith))
  ]
]

ends-Visible :
    (id : ℕ) (s : SessionStore)
    → is_live (s.status id) ≡ false
    → Visible s
    → Visible (record s { pending = except id s.pending })
ends-Visible id s dead v i live = elim (v i live) [
  | inl found ↦ inl found
  | inr (inl asked) ↦ inr (inl asked)
  | inr (inr waits) ↦ elim (unpended id i s.pending waits) [
    | inl same ↦ let alive : is_live (s.status id) ≡ true = rw (sym same) live in cc
    | inr kept ↦ inr (inr kept)
  ]
]

refused-Visible :
    (id : ℕ) (s : SessionStore)
    → Visible s
    → Visible (record s { pending = except id s.pending; stops = id ∷ s.stops })
refused-Visible id s v i live = elim (v i live) [
  | inl found ↦ inl found
  | inr (inl asked) ↦ inr (inl (ground arith))
  | inr (inr waits) ↦ elim (unpended id i s.pending waits) [
    | inl same ↦ inr (inl (ground arith))
    | inr kept ↦ inr (inr kept)
  ]
]

inserted-Visible :
    (device : Text) (id : ℕ) (s : SessionStore)
    → occupied device s ≡ false
    → Visible s
    → Visible (record s { pending = except id s.pending; sessions = insert device id s.sessions })
inserted-Visible device id s free v i live = elim (v i live) [
  | inl (d, g) ↦
      inl (d, rw (get-insert d device id s.sessions, elsewhere device d i s free live g) g)
  | inr (inl asked) ↦ inr (inl asked)
  | inr (inr waits) ↦ elim (unpended id i s.pending waits) [
    | inl same ↦ inl (
      device,
      rw (get-insert device device id s.sessions, text_eq_refl device) (ap some (sym same)),
    )
    | inr kept ↦ inr (inr kept)
  ]
]

answer-Visible :
    (device : Text) (id : ℕ) (r : Result (Result (Unit {0}) Error) (Unit {0})) (s : SessionStore)
    → Started r (s.status id)
    → Visible s
    → Visible (answer device id r s).0
unfolding answer
answer-Visible device id (err panicked) s dead v = ends-Visible id s dead v
answer-Visible device id (ok (err e)) s dead v = ends-Visible id s dead v
answer-Visible device id (ok (ok u)) s _ v = elim (Bool-cases (occupied device s)) [
  | inl busy ↦ rw busy (refused-Visible id s v)
  | inr free ↦ rw free (inserted-Visible device id s free v)
]

-- A session that was live or is being started shows another status.
show-Visible :
    (id : ℕ) (status : SessionStatus) (s : SessionStore)
    → InReach s id
    → Visible s
    → Visible (show id status s)
unfolding show
show-Visible id status s known v i live = elim (Bool-cases (id == i)) [
  | inl e ↦ rw (sym ((==_iff id i).0 e)) known
  | inr e ↦ v i (rw e at live)
]

member-append : (id : ℕ) (xs ys : List ℕ) → member id ys ≡ true → member id (xs ++ ys) ≡ true
member-append id [] ys h = h
member-append id (x ∷ xs) ys h = ground (arith, member-append id xs ys)

drained :
    (id : ℕ) (m : List (Text × ℕ)) (asked : List ℕ)
    → any (λ e. e.1 == id) m ≡ true
    → member id (map (λ e. e.1) m ++ asked) ≡ true
drained id [] asked h = cc
drained id (e ∷ m) asked h = ground (arith, drained id m asked)

drain-Visible : (s : SessionStore) → Visible s → Visible (drain s)
unfolding drain
drain-Visible s v id live = elim (v id live) [
  | inl (d, g) ↦ inr (
      inl (
        drained id s.sessions s.stops
          (get-any (λ i. i == id) d id s.sessions ((==_iff id id).1 refl) g)))
  | inr (inl asked) ↦ inr (inl (member-append id (map (λ e. e.1) s.sessions) s.stops asked))
  | inr (inr waits) ↦ inr (inr waits)
]

stop-Visible : (device : Text) (s : SessionStore) → Visible s → Visible (stop_session device s)
unfolding stop_session
stop-Visible device s v id live = elim (v id live) [
  | inl found ↦ inl found
  | inr (inl asked) ↦ inr (inl (stop_keeps (get device s.sessions) asked))
  | inr (inr waits) ↦ inr (inr waits)
]
  where
    stop_keeps :
        (o : Option ℕ) → member id s.stops ≡ true → member id (request_stop o s.stops) ≡ true
    stop_keeps none h = h
    stop_keeps (some i) h = ground arith

Move-Visible : {s s' : SessionStore} → Move s s' → Visible s → Visible s'
Move-Visible {s} (starts device) v = start-Visible device s v
Move-Visible {s} (comes_up id waits) v = show-Visible id running s (inr (inr waits)) v
Move-Visible {s} (answers device id r waits dead) v = answer-Visible device id r s dead v
Move-Visible {s} (stops device) v = stop-Visible device s v
Move-Visible {s} (shows id status live) v = show-Visible id status s (v id live) v
Move-Visible {s} drains v = drain-Visible s v

-- However starts, their answers, stops, the shutdown and the changes of the supervisors follow one
-- another, no live session is out of reach: it is the session of a device in the map, or it was asked
-- to stop, or its start has not been answered yet.
pub Reachable-Visible : (s : SessionStore) → Reachable s → Visible s
unfolding new
Reachable-Visible s begins = λ id live. cc
Reachable-Visible s (moves before move) = Move-Visible move (Reachable-Visible _ before)

none_of : {A : Type 0} (id : ℕ) (ids : List ℕ) → ids ≡ [] → member id ids ≡ true → A
none_of id [] e h = cc
none_of id (x ∷ ids) e h = cc

only_asked :
    (id : ℕ) (s : SessionStore)
    → s.pending ≡ []
    → InReach (drain s) id
    → member id (drain s).stops ≡ true
unfolding drain get
only_asked id s idle (inl (d, g)) = cc
only_asked id s idle (inr (inl asked)) = asked
only_asked id s idle (inr (inr waits)) = none_of id s.pending idle waits

-- In every state that the commands and the supervisors reach and in which no start is in flight, the
-- shutdown asks every live session to stop.
pub drain-asks :
    (s : SessionStore)
    → Reachable s
    → s.pending ≡ []
    → (id : ℕ) → is_live (s.status id) ≡ true
    → member id (drain s).stops ≡ true
unfolding drain
drain-asks s reached idle id live =
    only_asked id s idle (drain-Visible s (Reachable-Visible s reached) id live)
