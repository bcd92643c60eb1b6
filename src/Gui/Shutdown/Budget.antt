-- ===== src/Gui/Shutdown/Budget.antt =====
-- How long the end of the client takes, for `reclaim_sessions` and the wait of `RunEvent::Exit` in
-- crates/quadcontrol-gui/src-tauri/src/lib.rs.
use quad_control.Base.{
  ℕ, zero, suc, ◌+◌, ◌-◌, ◌*◌, ◌≤◌, ◌≡◌, refl, true, some, arith, ltb, List, [], ◌∷◌, ◌⊎◌, ◌∙◌,
  length, map, filter, not, Bool-cases, inl, inr, ltb→lt, ap,
}
use quad_control.Android.Shutdown.{
  SessionHandle, done_by, wait_handles, wait_handles-late, wait_handles-ge,
}
use quad_control.Android.Shutdown as Android
use quad_control.Ios.Shutdown as Ios
use quad_control.Gui.Shutdown.{
  Client, reached, session_budget, pairing_budget, exit_wait_budget, wait_pairing, pairing_turns,
  reclaim_sessions, wait_done, wait_exit, exit_turns,
}

-- the moments at which the loop over the pairing ends by one of its tests
abbrev pub Ends : Client → ℕ → ℕ → ℕ → Type 0
Ends client late c t =
    (t ≤ c + pairing_budget + 25 + late)
    × ((c + pairing_budget ≤ t) ⊎ (reached client.pairing_over t ≡ true))

module _ (client : Client) (late : ℕ) (timely : (t : ℕ) → client.lag t ≤ late) where
  wait_pairing-Ends :
      (fuel c now : ℕ)
      → c + pairing_budget ≤ now + 25 * fuel
      → now ≤ c + pairing_budget + 25 + late
      → Ends client late c (wait_pairing client fuel c now)
  unfolding wait_pairing
  wait_pairing-Ends zero c now f h = (h, inl (omega arith))
  wait_pairing-Ends (suc fuel) c now f h = elim (Bool-cases (ltb (now - c) pairing_budget)) [
    | inl early ↦ rw early (elim (Bool-cases (reached client.pairing_over now)) [
      | inl over ↦ rw over (h, inr over)
      | inr goes_on ↦
          let less = ltb→lt (now - c) pairing_budget early in
          let short = timely now in
          rw goes_on (wait_pairing-Ends fuel c _ (omega arith) (omega arith))
    ])
    | inr over ↦ rw over (h, inl (ground arith))
  ]

abbrev pub unreported : ℕ → List SessionHandle → ℕ
unreported moment handles = length (filter (λ h. not (done_by moment h)) handles)

length-map : (handles : List SessionHandle) → length (map (λ h. h.id) handles) ≡ length handles
length-map [] = refl
length-map (h ∷ handles) = omega (arith, length-map handles)

count_late :
    (moment : ℕ) (handles : List SessionHandle) (ids : List ℕ)
    → ids ≡ map (λ h. h.id) (filter (λ h. not (done_by moment h)) handles)
    → length ids ≡ unreported moment handles
count_late moment handles ids e =
    ap length e ∙ length-map (filter (λ h. not (done_by moment h)) handles)

-- a wait for handles whose budget runs to one deadline
android_wait :
    (now deadline : ℕ) (handles : List SessionHandle)
    → now ≤ deadline
    → Android.shutdown_all now (deadline - now) handles ≡ wait_handles deadline now handles
unfolding Android.shutdown_all
android_wait now deadline handles le =
    let same : now + (deadline - now) ≡ deadline = omega arith in rw same

ios_wait :
    (now deadline : ℕ) (handles : List SessionHandle)
    → now ≤ deadline
    → Ios.shutdown_all now (deadline - now) handles ≡ wait_handles deadline now handles
unfolding Ios.shutdown_all
ios_wait now deadline handles le =
    let same : now + (deadline - now) ≡ deadline = omega arith in rw same

module _ (client : Client) where
  -- the two waits one after the other, to one deadline
  abbrev between : ℕ → ℕ × List ℕ
  between c = wait_handles (c + session_budget) c client.android

  abbrev stopped : ℕ → ℕ × List ℕ
  stopped c = wait_handles (c + session_budget) (between c).0 client.ios

  reclaim_sessions_lem :
      (c : ℕ)
      → reclaim_sessions client c ≡ (
        wait_pairing client pairing_turns c (stopped c).0,
        length (between c).1 + length (stopped c).1,
      )
  unfolding reclaim_sessions
  reclaim_sessions_lem c =
      let (ends, late) = wait_handles-late (c + session_budget) c client.android (omega arith) in
      rw
        (
          android_wait c (c + session_budget) client.android (omega arith),
          ios_wait (between c).0 (c + session_budget) client.ios ends,
        )
        refl

-- Where no sleep is late by more than `late`, reclaiming the sessions and the pairing takes at most 13 s
-- and one sleep, however many sessions there are. It counts exactly the sessions of either kind that have
-- not reported seven seconds after its beginning, and then it goes on until the pairing is over or the 13 s
-- have passed.
pub reclaim_sessions-Ends :
    (client : Client) (late : ℕ)
    → ((t : ℕ) → client.lag t ≤ late)
    → (c : ℕ)
    → Ends client late c (reclaim_sessions client c).0
      × ((reclaim_sessions client c).1
          ≡ unreported (c + session_budget) client.android
            + unreported (c + session_budget) client.ios)
reclaim_sessions-Ends client late timely c =
    let (ends, androids) = wait_handles-late (c + session_budget) c client.android (omega arith) in
    let (stops, phones) = wait_handles-late (c + session_budget) _ client.ios ends in
    let first = wait_handles-ge (c + session_budget) c client.android in
    let second = wait_handles-ge (c + session_budget) (between client c).0 client.ios in
    rw (reclaim_sessions_lem client c) (
      wait_pairing-Ends client late timely pairing_turns c _ (omega arith) (omega arith),
      omega (
        arith,
        count_late (c + session_budget) client.android _ androids,
        count_late (c + session_budget) client.ios _ phones,
      ),
    )

wait_done-sees :
    (lag : ℕ → ℕ) (d fuel deadline now : ℕ)
    → d ≤ deadline
    → deadline ≤ now + 25 * fuel
    → (wait_done lag (some d) fuel deadline now).1 ≡ true
unfolding wait_done
wait_done-sees lag d zero deadline now h f = ground arith
wait_done-sees lag d (suc fuel) deadline now h f =
    ground (arith, wait_done-sees lag d fuel deadline (now + 25 + lag now))

-- `RunEvent::Exit` never gives up on a shutdown in the background that began before it: where sleeps and
-- the setting of the flag are late by at most 0.9 s, the wait ends with the flag seen.
pub wait_exit-sees :
    (client : Client) (late : ℕ)
    → ((t : ℕ) → client.lag t ≤ late)
    → late ≤ 900
    → (lag : ℕ → ℕ) (c posted now : ℕ) → c ≤ now
    → posted ≤ (reclaim_sessions client c).0 + late
    → (wait_exit lag (some posted) now).1 ≡ true
unfolding wait_exit
wait_exit-sees client late timely small lag c posted now before h =
    let bound = (reclaim_sessions-Ends client late timely c).0.0 in
    wait_done-sees lag posted exit_turns (now + exit_wait_budget) now (omega arith) (omega arith)
