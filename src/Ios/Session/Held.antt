-- ===== src/Ios/Session/Held.antt =====
-- What holds until the supervisor of crates/quadcontrol-ios/src/session.rs shuts the session down: no
-- process is lost, each command names the session's own tunnel, and the handle shows what is there.
use quad_control.Base.{
  ℕ, ◌<◌, ◌≡◌, refl, ap, Bool, true, false, ◌||◌, List, [], ◌∷◌, ◌++◌, none, length, any, All, ◌==◌,
  arith, inl, inr, Bool-cases,
}
use quad_control.Base.Text.{Text}
use quad_control.Ios.Session.{
  starting, ChildKind, IosLaunchOptions, Machine, World, SupervisedChild, pids,
}
use quad_control.Ios.Session.Spawn.{adopt, wait_for_child}
use quad_control.Ios.Session.Kept.{IsBound, Kept, as_started, new_child}

abbrev pub has : ℕ → List ℕ → Bool
has p = any (λ x. x == p)

pub has-append : (p : ℕ) (xs ys : List ℕ) → has p (xs ++ ys) ≡ (has p xs || has p ys)
has-append p [] ys = refl
has-append p (x ∷ xs) ys = ground (arith, has-append p xs ys)

pids-append :
    (cs : List SupervisedChild) (c : SupervisedChild) → pids (cs ++ c ∷ []) ≡ pids cs ++ c.pid ∷ []
pids-append [] c = refl
pids-append (x ∷ cs) c = ap {B = List ℕ} (λ ps. x.pid ∷ ps) (pids-append cs c)

-- Each process that was started has been waited for, or is one of the children.
abbrev pub IsHeld : World → Type 0
IsHeld w = (p : ℕ) → p < length w.started → (has p w.waited || has p (pids w.children)) ≡ true

abbrev pub IsHeldBut : SupervisedChild → World → Type 0
IsHeldBut c w =
    (p : ℕ)
    → p < length w.started
    → (c.pid == p || (has p w.waited || has p (pids w.children))) ≡ true

spawned-IsHeldBut :
    (kind : ChildKind) (args : List Text) (w : World)
    → IsHeld w
    → IsHeldBut (new_child kind w) (as_started kind args w)
spawned-IsHeldBut kind args w h p lt = elim (Bool-cases (length w.started == p)) [
  | inl e ↦ rw e refl
  | inr e ↦ rw e (h p (ground arith))
]

or_last : (a b c : Bool) → (a || (b || c)) ≡ true → (b || (c || (a || false))) ≡ true
or_last true true c h = refl
or_last true false true h = refl
or_last true false false h = refl
or_last false true c h = refl
or_last false false true h = refl
or_last false false false h = h

or_first : (a b c : Bool) → (a || (b || c)) ≡ true → ((a || b) || c) ≡ true
or_first true b c h = refl
or_first false b c h = h

adopted-IsHeld : (c : SupervisedChild) (w : World) → IsHeldBut c w → IsHeld (adopt c w)
adopted-IsHeld c w h p lt =
    rw (pids-append w.children c, has-append p (pids w.children) (c.pid ∷ []))
      (or_last (c.pid == p) (has p w.waited) (has p (pids w.children)) (h p lt))

waited-IsHeld : (c : SupervisedChild) (w : World) → IsHeldBut c w → IsHeld (wait_for_child c w)
waited-IsHeld c w h p lt = or_first (c.pid == p) (has p w.waited) (has p (pids w.children)) (h p lt)

-- What the handle shows while the session starts.
abbrev pub IsFresh : World → Type 0
IsFresh w =
    (w.statuses ≡ starting ∷ [])
    × (w.proxy ≡ none)
    × (w.client ≡ none)
    × (w.stopped_proxies ≡ [])
    × (w.deleted_sessions ≡ [])
    × (w.clock.sent ≡ [])

module _ (options : IosLaunchOptions) where
  abbrev pub AreBound : World → Type 0
  AreBound w = All (λ s. IsBound options s.args) w.started

  abbrev pub Starting : World → Type 0
  Starting w = IsHeld w × AreBound w × IsFresh w

  pub Starting-Kept :
      (m : Machine) → Kept m options Starting (λ c w. IsHeldBut c w × AreBound w × IsFresh w)
  Starting-Kept m = record {
    later = λ ms w h. h;
    later_new = λ c ms w h. h;
    spawned = λ kind args w b h. (spawned-IsHeldBut kind args w h.0, (b, h.1), h.2);
    adopted = λ c w h. (adopted-IsHeld c w h.0, h.1, h.2);
    waited = λ c w h. (waited-IsHeld c w h.0, h.1, h.2);
  }
