-- ===== src/Gui/IosSlot/Single.antt =====
-- The sequences of starts, answers, stops and ends of iOS sessions, for the slot in
-- crates/quadcontrol-gui/src-tauri/src/lib.rs.
use quad_control.Base.{
  ℕ, ◌≡◌, refl, ◌⊎◌, inl, inr, true, not, List, [], ◌∷◌, Option, none, some, Result, ok, err, arith,
  ◌==◌, filter, Bool-cases,
}
use quad_control.Base.Text.{Text}
use quad_control.Gui.IosSlot.{
  IosSlot, starting, failed, handle, IosSessionStore, new, is_alive, start, answer,
  stop_ios_session, ends,
}

pub data Move (s : IosSessionStore) : IosSessionStore → Type 0 where
  starts : (device : Text) → Move s (start device s).0
  answers :
      (id : ℕ) (r : Result (Result (Unit {0}) Text) (Unit {0}))
      → is_alive s.pending id ≡ true
      → Move s (answer id r s).0
  stops : Move s (stop_ios_session s)
  dies : (id : ℕ) → Move s (ends id s)

pub data Reachable : IosSessionStore → Type 0 where
  begins : Reachable new
  moves : {s s' : IosSessionStore} → Reachable s → Move s s' → Reachable s'

-- The slot accounts for every start that has not been answered and every session that is live.
abbrev pub Accounted : Option IosSlot → List ℕ → List ℕ → Type 0
Accounted none pending alive = (pending ≡ []) × (alive ≡ [])
Accounted (some starting) pending alive = (id : ℕ) × (pending ≡ id ∷ []) × (alive ≡ [])
Accounted (some (failed code)) pending alive = (pending ≡ []) × (alive ≡ [])
Accounted (some (handle id)) pending alive = (pending ≡ []) × ((alive ≡ []) ⊎ (alive ≡ id ∷ []))

abbrev pub Accounts : IosSessionStore → Type 0
Accounts s = Accounted s.session s.pending s.alive

at : Option IosSlot → IosSessionStore → IosSessionStore
at slot s = record s { session = slot }

itself : (id : ℕ) → is_alive (id ∷ []) id ≡ true
itself id = ground arith

found : {A : Type 0} (id : ℕ) (xs : List ℕ) → is_alive xs id ≡ true → xs ≡ [] → A
found id [] h e = ground arith
found id (x ∷ xs) h e = ground arith

only_found :
    (id i : ℕ) (xs : List ℕ)
    → is_alive xs id ≡ true
    → xs ≡ i ∷ []
    → filter (λ x. not (x == id)) xs ≡ []
only_found id i [] h e = ground arith
only_found id i (x ∷ []) h e = ground arith
only_found id i (x ∷ y ∷ xs) h e = ground arith

start-at :
    (device : Text) (s : IosSessionStore) (slot : Option IosSlot)
    → Accounts (at slot s)
    → Accounts (start device (at slot s)).0
unfolding start at
start-at device s none (p, a) = (s.next_id, rw p refl, a)
start-at device s (some starting) h = h
start-at device s (some (failed code)) (p, a) = (s.next_id, rw p refl, a)
start-at device s (some (handle id)) (p, inl a) = rw a (s.next_id, rw p refl, refl)
start-at device s (some (handle id)) (p, inr a) = rw (a, itself id) (p, inr refl)

answer-at :
    (id : ℕ) (r : Result (Result (Unit {0}) Text) (Unit {0})) (s : IosSessionStore)
    (slot : Option IosSlot)
    → is_alive s.pending id ≡ true
    → Accounts (at slot s)
    → Accounts (answer id r (at slot s)).0
unfolding answer at
answer-at id r s none h (p, a) = found id s.pending h p
answer-at id (err e) s (some starting) h (i, p, a) = (only_found id i s.pending h p, a)
answer-at id (ok (err e)) s (some starting) h (i, p, a) = (only_found id i s.pending h p, a)
answer-at id (ok (ok u)) s (some starting) h (i, p, a) =
    (only_found id i s.pending h p, inr (rw a refl))
answer-at id r s (some (failed code)) h (p, a) = found id s.pending h p
answer-at id r s (some (handle i)) h (p, a) = found id s.pending h p

dies-at :
    (id : ℕ) (s : IosSessionStore) (slot : Option IosSlot)
    → Accounts (at slot s)
    → Accounts (ends id (at slot s))
unfolding ends at
dies-at id s none (p, a) = (p, rw a refl)
dies-at id s (some starting) (i, p, a) = (i, p, rw a refl)
dies-at id s (some (failed code)) (p, a) = (p, rw a refl)
dies-at id s (some (handle i)) (p, inl a) = (p, inl (rw a refl))
dies-at id s (some (handle i)) (p, inr a) = elim (Bool-cases (i == id)) [
  | inl e ↦ (p, inl (rw (a, e) refl))
  | inr e ↦ (p, inr (rw (a, e) refl))
]

-- However starts, their answers, stops and the ends of sessions follow one another, at most one
-- session is live or being started, and it is the one of the slot: no start begins beside a live
-- session or beside another start.
pub Reachable-Accounts : (s : IosSessionStore) → Reachable s → Accounts s
unfolding new at stop_ios_session
Reachable-Accounts s begins = (refl, refl)
Reachable-Accounts s (moves {s = b} before (starts device)) =
    start-at device b b.session (Reachable-Accounts b before)
Reachable-Accounts s (moves {s = b} before (answers id r h)) =
    answer-at id r b b.session h (Reachable-Accounts b before)
Reachable-Accounts s (moves {s = b} before stops) = Reachable-Accounts b before
Reachable-Accounts s (moves {s = b} before (dies id)) =
    dies-at id b b.session (Reachable-Accounts b before)
