-- ===== src/Ios/Wda/Waking.antt =====
-- What `wake` of crates/quadcontrol-ios/src/wda.rs makes sure of, and that it ends.
use quad_control.Base.{
  ℕ, zero, suc, ◌+◌, ◌*◌, ◌≤◌, ◌≡◌, refl, Bool, true, false, none, some, Result, ok, err, leb,
  if◌then◌else◌, arith, inl, inr, Bool-cases,
}
use quad_control.Ios.Error.{Error, device_locked}
use quad_control.Ios.Wda.{Device, World}
use quad_control.Ios.Wda.Actions.{locked}
use quad_control.Ios.Wda.Verified.{
  wake, if_locked, settle_from, after_unlock, unlock, napped, Waiting,
}

module _ {S J F : Type 0} (d : Device S J F) where
  abbrev Stopped : World S F → Waiting d → Type 0
  Stopped v o = o ≡ some (v, ok tt)

  -- the device has just answered that it is not locked
  abbrev pub Awake : World S F → Type 0
  Awake v = (u : World S F) × (locked d u ≡ (v, ok false))

  if_locked-Awake :
      (u : World S F) (o : World S F × Result Bool Error) (next : World S F → Waiting d)
      (v : World S F)
      → locked d u ≡ o
      → ((w : World S F) → Stopped v (next w) → Awake v)
      → Stopped v (if_locked d o next)
      → Awake v
  if_locked-Awake u (w, ok true) next v e k h = k w h
  if_locked-Awake u (w, ok false) next v e k h = let same : w ≡ v = cc in (u, rw (← same) e)
  if_locked-Awake u (w, err x) next v e k h = cc

  expired-Awake :
      (b : Bool) (u v : World S F) (rest : Waiting d)
      → (Stopped v rest → Awake v)
      → Stopped v (if b then some (u, err device_locked) else rest)
      → Awake v
  expired-Awake true u v rest k h = cc
  expired-Awake false u v rest k h = k h

  settle_from-Awake :
      (fuel deadline : ℕ) (w v : World S F) → Stopped v (settle_from d fuel deadline w) → Awake v
  unfolding settle_from
  settle_from-Awake zero deadline w v h = cc
  settle_from-Awake (suc fuel) deadline w v h =
      if_locked-Awake w (locked d w)
        (λ u.
          if leb deadline (d.now u.device)
          then some (u, err device_locked)
          else settle_from d fuel deadline (napped d u))
        v refl
        (λ u.
          expired-Awake (leb deadline (d.now u.device)) u v
            (settle_from d fuel deadline (napped d u))
            (settle_from-Awake fuel deadline (napped d u) v))
        h

  after_unlock-Awake :
      (o : World S F × Result Bool Error) (v : World S F) → Stopped v (after_unlock d o) → Awake v
  after_unlock-Awake (w, ok true) v h = settle_from-Awake 21 (d.now w.device + 2000) w v h
  after_unlock-Awake (w, ok false) v h =
      if_locked-Awake w (locked d w) (λ u. some (u, err device_locked)) v refl (λ u k. cc) h
  after_unlock-Awake (w, err e) v h = cc

  -- `wake` succeeds only if the last answer of the device was that it is not locked, whatever became of
  -- the request to unlock it.
  pub wake-Awake : (w v : World S F) → Stopped v (wake d w) → Awake v
  unfolding wake
  wake-Awake w v h =
      if_locked-Awake w (locked d w) (λ u. after_unlock d (unlock d u)) v refl
        (λ u. after_unlock-Awake (unlock d u) v) h

  -- the device's clock goes on: a sleep takes its time, and no request takes the clock back
  module _ (sleeps : (ms : ℕ) (s : S) → d.now s + ms ≤ d.now (d.slept ms s))
      (onward : (w : World S F) → d.now w.device ≤ d.now (locked d w).0.device) where
    abbrev Finishes : Waiting d → Type 0
    Finishes none = true ≡ false
    Finishes (some x) = Unit

    if_locked-Finishes :
        (t : ℕ) (o : World S F × Result Bool Error) (next : World S F → Waiting d)
        → t ≤ d.now o.0.device
        → ((u : World S F) → t ≤ d.now u.device → Finishes (next u))
        → Finishes (if_locked d o next)
    if_locked-Finishes t (w, ok true) next le k = k w le
    if_locked-Finishes t (w, ok false) next le k = tt
    if_locked-Finishes t (w, err x) next le k = tt

    polled :
        (f deadline : ℕ) (w : World S F)
        → ((u : World S F)
            → d.now w.device ≤ d.now u.device
            → leb deadline (d.now u.device) ≡ false
            → Finishes (settle_from d f deadline (napped d u)))
        → Finishes (settle_from d (suc f) deadline w)
    unfolding settle_from
    polled f deadline w next = if_locked-Finishes (d.now w.device) (locked d w) _ (onward w) λ u le.
        elim (Bool-cases (leb deadline (d.now u.device))) [
          | inl e ↦ rw e tt
          | inr e ↦ rw e (next u le e)
        ]

    settle_from-Finishes :
        (f deadline : ℕ) (w : World S F)
        → deadline ≤ d.now w.device + f * 100
        → Finishes (settle_from d (suc f) deadline w)
    settle_from-Finishes zero deadline w le =
        polled zero deadline w (λ u at e. absurd (ground arith))
    settle_from-Finishes (suc f) deadline w le =
        polled (suc f) deadline w λ u at e.
          settle_from-Finishes f deadline (napped d u) (omega (arith, sleeps 100 u.device))

    after_unlock-Finishes : (o : World S F × Result Bool Error) → Finishes (after_unlock d o)
    after_unlock-Finishes (w, ok true) =
        settle_from-Finishes 20 (d.now w.device + 2000) w (omega arith)
    after_unlock-Finishes (w, ok false) =
        if_locked-Finishes (d.now w.device) (locked d w) (λ u. some (u, err device_locked))
          (onward w) (λ u le. tt)
    after_unlock-Finishes (w, err e) = tt

    finished :
        (o : Waiting d) → Finishes o → (x : World S F × Result (Unit {0}) Error) × (o ≡ some x)
    finished none h = absurd cc
    finished (some x) h = (x, refl)

    -- Where the device's clock goes on, `wake` comes to a result.
    pub wake-finishes :
        (w : World S F) → (x : World S F × Result (Unit {0}) Error) × (wake d w ≡ some x)
    unfolding wake
    wake-finishes w = finished _ (
        if_locked-Finishes (d.now w.device) (locked d w) (λ u. after_unlock d (unlock d u))
          (onward w) (λ u le. after_unlock-Finishes (unlock d u)))
