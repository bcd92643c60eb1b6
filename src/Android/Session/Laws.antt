-- ===== src/Android/Session/Laws.antt =====
-- That a session of crates/quadcontrol-android/src/lib.rs ends when it is asked to, and how.
use quad_control.Base.{
  ℕ, ◌≤◌, ◌≡◌, refl, Bool, true, false, [], ◌∷◌, ◌&&◌, sym, Option, none, some, Result, ok, err,
  ◌⊎◌, inl, inr, ◌>>=◌,
}
use quad_control.Os.{IoError}
use quad_control.Process.Ladder as Ladder
use quad_control.Process.Ladder.Laws.{Ended}
use quad_control.Android.Session.{
  SessionStatus, running, stopping, exited, failed, Machine, World, has_exited, polled_as, try_wait,
}

module _ (m : Machine) where
  -- An end: the process has exited, and its code is shown, or an error of the system is.
  abbrev pub IsEnd : Ladder.World → SessionStatus → Type 0
  IsEnd clock s =
      ((code : ℕ) × (s ≡ exited code m.stderr_tail) × (has_exited m clock ≡ true))
      ⊎ ((e : IoError) × (s ≡ failed (m.io_text e)))

  -- What a session has shown at its end.
  abbrev pub IsOver : World → Type 0
  IsOver w =
      (w.is_done ≡ true)
      × ((s : SessionStatus) × IsEnd w.clock s
          × ((w.statuses ≡ s ∷ running ∷ []) ⊎ (w.statuses ≡ s ∷ stopping ∷ running ∷ [])))

  abbrev Comes : Option World → Type 0
  Comes none = true ≡ false
  Comes (some w) = IsOver w

  -- the two starts of what was shown
  abbrev Before : World → Type 0
  Before w = (w.statuses ≡ running ∷ []) ⊎ (w.statuses ≡ stopping ∷ running ∷ [])

  shown :
      (s : SessionStatus) (w : World)
      → Before w
      → ((s ∷ w.statuses ≡ s ∷ running ∷ []) ⊎ (s ∷ w.statuses ≡ s ∷ stopping ∷ running ∷ []))
  shown s w (inl e) = inl (rw e refl)
  shown s w (inr e) = inr (rw e refl)

  polled_as-exited :
      (o : Option IoError) (x : Bool) (code : ℕ) → polled_as m o x ≡ ok (some code) → x ≡ true
  polled_as-exited (some e) x code h = cc
  polled_as-exited none true code h = refl
  polled_as-exited none false code h = cc

  all_one : (b : Bool) → (b && true) ≡ true → b ≡ true
  all_one true h = refl
  all_one false h = h

  module _ (d t : ℕ) (steady : (t : ℕ) → m.os.lag t ≤ d) (at : m.stop_at ≡ some t)
      -- `wait` returns a status only once the process has exited
      (waits : (clock : Ladder.World)
        → m.os.wait_answer m.pid clock.sent ≡ ok tt
        → has_exited m clock ≡ true) where
    collected :
        (clock : Ladder.World) (r : Result (Unit {0}) IoError)
        → m.os.wait_answer m.pid clock.sent ≡ r
        → (r >>= λ u. Ladder.collect m.os [] clock.sent) ≡ ok tt
        → has_exited m clock ≡ true
    collected clock (ok u) e h = waits clock e
    collected clock (err x) e h = cc

    ended :
        (w clock : Ladder.World)
        → Ended m.os d steady (m.pid ∷ []) w clock (ok tt)
        → has_exited m clock ≡ true
    ended w clock (inl (sent, x, r, time)) = all_one (has_exited m clock) x
    ended w clock (inr (inl (sent, x, r, time))) = all_one (has_exited m clock) x
    ended w clock (inr (inr (sent, r, time))) =
        collected clock (m.os.wait_answer m.pid clock.sent) refl (sym r)

    seen :
        (clock : Ladder.World) (code : ℕ)
        → try_wait m clock ≡ ok (some code)
        → has_exited m clock ≡ true
    unfolding try_wait
    seen clock code h = polled_as-exited (m.try_wait_error clock.now) (has_exited m clock) code h
