-- ===== src/Gui/Pairing/Single.antt =====
-- The sequences of commands and of workers' reports, for `PairingStore` in
-- crates/quadcontrol-gui/src-tauri/src/lib.rs.
use quad_control.Base.{
  Bool, ◌⊎◌, inl, inr, ◌%◌, ◌^◌, ℕ, ◌+◌, ◌≡◌, refl, true, false, not, List, [], ◌∷◌, none, some,
  Result, ok, err, arith, ◌==◌, filter, any,
}
use quad_control.Base.Text.{Text, codes, text_eq, one_of}
use quad_control.Gui.Pairing.{
  PairingState, idle, waiting, succeeded, failed, cancelling, PairingStore, PairingStatusDto,
  pairing_status_from, new, pairing_generation, pairing_is_active, set_pairing_result, begin,
  cancel_pairing, report, is_cancelled, accept,
}

-- One command, or one worker that is in flight and reports.
pub data Move (s : PairingStore) : PairingStore → Type 0 where
  begins : (now : ℕ) → Move s (begin now s).0
  cancels : Move s (cancel_pairing s)
  reports :
      (g : ℕ) (r : Result Text Text) → any (λ w. w == g) s.workers ≡ true → Move s (report g r s)

pub data Reachable : PairingStore → Type 0 where
  starts : Reachable new
  moves : {s s' : PairingStore} → Reachable s → Move s s' → Reachable s'

-- The store and its workers agree: a worker is in flight exactly while a pairing is active, it is the
-- only one and of the store's generation, the token in the store is its own, and the token has been
-- cancelled exactly when the store says so.
abbrev pub Single : PairingStore → Type 0
Single s = elim s.state [
  | idle ↦ (s.workers ≡ []) × (s.cancel ≡ none)
  | succeeded g name ↦ (s.workers ≡ []) × (s.cancel ≡ none)
  | failed g code ↦ (s.workers ≡ []) × (s.cancel ≡ none)
  | waiting g started ↦ (s.workers ≡ g ∷ []) × (s.cancel ≡ some g) × (is_cancelled g s ≡ false)
  | cancelling g ↦ (s.workers ≡ g ∷ []) × (s.cancel ≡ some g) × (is_cancelled g s ≡ true)
]

-- the store at a state
at : PairingState → PairingStore → PairingStore
at st s = record s { state = st }

not_in_filter :
    (g : ℕ) (tokens : List ℕ) → any (λ t. t == g) (filter (λ x. not (x == g)) tokens) ≡ false
not_in_filter g [] = refl
not_in_filter g (x ∷ tokens) = ground (arith, not_in_filter g tokens)

begin-at :
    (now : ℕ) (s : PairingStore) (st : PairingState)
    → Single (at st s)
    → Single (begin now (at st s)).0
unfolding begin at pairing_is_active
begin-at now s idle h =
    ground (arith, not_in_filter ((s.next_generation + 1) % 2 ^ 64) s.cancelled_tokens)
begin-at now s (waiting g t) h = h
begin-at now s (succeeded g name) h =
    ground (arith, not_in_filter ((s.next_generation + 1) % 2 ^ 64) s.cancelled_tokens)
begin-at now s (failed g code) h =
    ground (arith, not_in_filter ((s.next_generation + 1) % 2 ^ 64) s.cancelled_tokens)
begin-at now s (cancelling g) h = h

cancel-at :
    (s : PairingStore) (st : PairingState) → Single (at st s) → Single (cancel_pairing (at st s))
unfolding cancel_pairing at
cancel-at s idle h = h
cancel-at s (waiting g t) (alone, token, _) = (alone, token, rw token (ground arith))
cancel-at s (succeeded g name) h = h
cancel-at s (failed g code) h = h
cancel-at s (cancelling g) h = h

idle_is_silent :
    {A : Type 0} (g : ℕ) (workers : List ℕ) → any (λ w. w == g) workers ≡ true → workers ≡ [] → A
idle_is_silent g [] flying none_left = ground arith
idle_is_silent g (w ∷ ws) flying none_left = ground arith

-- the one worker: its generation, what it leaves behind, and that its result is not late
alone-own :
    (g g' : ℕ) (workers : List ℕ)
    → any (λ w. w == g) workers ≡ true
    → workers ≡ g' ∷ []
    → (filter (λ w. not (w == g)) workers ≡ []) × ((g' == g) ≡ true)
alone-own g g' [] flying alone = ground arith
alone-own g g' (w ∷ []) flying alone = ground arith
alone-own g g' (w ∷ v ∷ ws) flying alone = ground arith

report-at :
    (g : ℕ) (r : Result Text Text) (s : PairingStore) (st : PairingState)
    → any (λ w. w == g) s.workers ≡ true
    → Single (at st s)
    → Single (report g r (at st s))
unfolding report set_pairing_result pairing_generation accept at
report-at g r s idle flying (none_left, _) = idle_is_silent g s.workers flying none_left
report-at g (ok name) s (waiting g' t) flying (alone, token, _) =
    let (gone, own) = alone-own g g' s.workers flying alone in rw own (gone, refl)
report-at g (err code) s (waiting g' t) flying (alone, token, _) =
    let (gone, own) = alone-own g g' s.workers flying alone in rw own (gone, refl)
report-at g r s (succeeded g' name) flying (none_left, _) =
    idle_is_silent g s.workers flying none_left
report-at g r s (failed g' code) flying (none_left, _) = idle_is_silent g s.workers flying none_left
report-at g r s (cancelling g') flying (alone, token, _) =
    let (gone, own) = alone-own g g' s.workers flying alone in rw own (gone, refl)

-- Whatever the commands and the workers do, in any order, there is at most one worker in flight: it
-- is there exactly while a pairing waits or is being cancelled, it reports to its own generation, and
-- its token is cancelled exactly from the cancel command on.
pub Reachable-Single : (s : PairingStore) → Reachable s → Single s
unfolding new at
Reachable-Single s starts = (refl, refl)
Reachable-Single s (moves {s = b} before (begins now)) =
    begin-at now b b.state (Reachable-Single b before)
Reachable-Single s (moves {s = b} before cancels) = cancel-at b b.state (Reachable-Single b before)
Reachable-Single s (moves {s = b} before (reports g r flying)) =
    report-at g r b b.state flying (Reachable-Single b before)

-- what the page takes for a pairing in progress
abbrev pub is_busy : PairingStatusDto → Bool
is_busy dto = one_of (codes "waiting" ∷ codes "cancelling" ∷ []) dto.state

status-at :
    (now : ℕ) (s : PairingStore) (st : PairingState)
    → Single (at st s)
    → ((is_busy (pairing_status_from now st) ≡ true)
        × (s.workers ≡ (pairing_status_from now st).generation ∷ []))
      ⊎ ((is_busy (pairing_status_from now st) ≡ false) × (s.workers ≡ []))
unfolding at pairing_status_from text_eq
status-at now s idle h = inr (refl, h.0)
status-at now s (waiting g t) h = inl (refl, h.0)
status-at now s (succeeded g name) h = inr (refl, h.0)
status-at now s (failed g code) h = inr (refl, h.0)
status-at now s (cancelling g) h = inl (refl, h.0)

-- The status that the page is shown tells the truth: it names a pairing in progress exactly while a
-- worker is in flight, and then with the generation of that worker.
pub pairing_status_from-true :
    (now : ℕ) (s : PairingStore)
    → Reachable s
    → ((is_busy (pairing_status_from now s.state) ≡ true)
        × (s.workers ≡ (pairing_status_from now s.state).generation ∷ []))
      ⊎ ((is_busy (pairing_status_from now s.state) ≡ false) × (s.workers ≡ []))
unfolding at
pairing_status_from-true now s h = status-at now s s.state (Reachable-Single s h)
