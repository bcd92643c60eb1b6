-- ===== src/Android/Shutdown.antt =====
-- `shutdown_all` of crates/quadcontrol-android/src/lib.rs. When each supervisor reports that it is done
-- is a parameter, a field of its handle.
use quad_control.Base.{
  ℕ, ◌+◌, ◌≤◌, ◌≡◌, refl, Bool, true, false, not, List, [], ◌∷◌, map, Option, none, some, arith,
  leb, max, if◌then◌else◌, filter, ap, Bool-cases, inl, inr, leb→le,
}

pub record SessionHandle : Type 0 where
  pub id : ℕ
  pub done_at : Option ℕ  -- the moment at which it has reported; none: never

-- has the supervisor reported by this moment
abbrev pub done_by : ℕ → SessionHandle → Bool
done_by moment h = elim h.done_at [ none ↦ false | some t ↦ leb t moment ]

-- the moment at which `recv_timeout` returns, begun at `now` with the time that remains to `deadline`
abbrev received_at : ℕ → ℕ → SessionHandle → ℕ
received_at deadline now h =
    if done_by deadline h
    then (elim h.done_at [ none ↦ now | some t ↦ max now t ])
    else max now deadline

-- the loop over the handles: the moment at which it ends, and the sessions that have not reported
unfoldable pub wait_handles : ℕ → ℕ → List SessionHandle → ℕ × List ℕ
wait_handles deadline now [] = (now, [])
wait_handles deadline now (h ∷ handles) =
    let (end, late) = wait_handles deadline (received_at deadline now h) handles in
    (end, if done_by deadline h then late else h.id ∷ late)

-- `now` is the moment after the requests to stop
unfoldable pub shutdown_all : ℕ → ℕ → List SessionHandle → ℕ × List ℕ
unfolding wait_handles
shutdown_all now budget handles = wait_handles (now + budget) now handles

received_at-le :
    (deadline now : ℕ) (h : SessionHandle) → now ≤ deadline → received_at deadline now h ≤ deadline
received_at-le deadline now h le = at h.done_at
  where
    at : (t : Option ℕ) → received_at deadline now (record h { done_at = t }) ≤ deadline
    at none = omega arith
    at (some t) = elim (Bool-cases (leb t deadline)) [
      | inl e ↦ let early = leb→le t deadline e in rw e (omega arith)
      | inr e ↦ rw e (omega arith)
    ]

late-cons :
    (b : Bool) (h : SessionHandle) (late : List ℕ) (kept : List SessionHandle)
    → late ≡ map (λ h. h.id) kept
    → (if b then late else h.id ∷ late) ≡ map (λ h. h.id) (if not b then h ∷ kept else kept)
late-cons true h late kept same = same
late-cons false h late kept same = ap {B = List ℕ} (λ ids. h.id ∷ ids) same

pub wait_handles-late :
    (deadline now : ℕ) (handles : List SessionHandle)
    → now ≤ deadline
    → ((wait_handles deadline now handles).0 ≤ deadline)
      × ((wait_handles deadline now handles).1
          ≡ map (λ h. h.id) (filter (λ h. not (done_by deadline h)) handles))
unfolding wait_handles
wait_handles-late deadline now [] le = (le, refl)
wait_handles-late deadline now (h ∷ handles) le =
    let (ends, same) =
      wait_handles-late deadline (received_at deadline now h) handles
        (received_at-le deadline now h le) in
    (ends, late-cons (done_by deadline h) h _ _ same)

received_at-ge : (deadline now : ℕ) (h : SessionHandle) → now ≤ received_at deadline now h
received_at-ge deadline now h = at h.done_at
  where
    at : (t : Option ℕ) → now ≤ received_at deadline now (record h { done_at = t })
    at none = omega arith
    at (some t) = elim (Bool-cases (leb t deadline)) [
      | inl e ↦ rw e (omega arith)
      | inr e ↦ rw e (omega arith)
    ]

pub wait_handles-ge :
    (deadline now : ℕ) (handles : List SessionHandle) → now ≤ (wait_handles deadline now handles).0
unfolding wait_handles
wait_handles-ge deadline now [] = omega arith
wait_handles-ge deadline now (h ∷ handles) = omega (
  arith,
  received_at-ge deadline now h,
  wait_handles-ge deadline (received_at deadline now h) handles,
)

-- All sessions share one budget: the wait for them ends within it, however many they are, and the
-- sessions named in the report are exactly those that have not reported by its end, in their order.
pub shutdown_all-late :
    (now budget : ℕ) (handles : List SessionHandle)
    → ((shutdown_all now budget handles).0 ≤ now + budget)
      × ((shutdown_all now budget handles).1
          ≡ map (λ h. h.id) (filter (λ h. not (done_by (now + budget) h)) handles))
unfolding shutdown_all
shutdown_all-late now budget handles = wait_handles-late (now + budget) now handles (omega arith)
