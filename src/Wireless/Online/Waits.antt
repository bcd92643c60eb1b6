-- ===== src/Wireless/Online/Waits.antt =====
-- How long the waits for a phone take, for crates/quadcontrol-android/src/wireless.rs.
use quad_control.Base.{
  ℕ, zero, suc, ◌+◌, ◌-◌, ◌≤◌, ◌<◌, ◌≡◌, refl, ap, ◌⊎◌, inl, inr, true, false, ◌||◌, List, ◌∷◌,
  Option, none, some, Result, ok, err, arith, ltb, leb, ◌==◌, find, Bool-cases, leb→le,
}
use quad_control.Base.Text.{Text}
use quad_control.Probe.{Device}
use quad_control.Wireless.{WirelessError}
use quad_control.Os.{IoError}
use quad_control.Wireless.Collect.{
  Process, Done, Reaped, command_timeout, collect_child, collect_child-Reaped,
}
use quad_control.Wireless.Services.{MdnsService, connect_service_for_guid, endpoint_text}
use quad_control.Wireless.Online.{
  Call, Adb, World, M, then_do, ◌>>=◌, give, refuse_unless_zero, collected_by, run_process, run_adb,
  is_cancelled, signal_requested, list_devices, adb_mdns_services, connect, is_found, found_or,
  wait_from, wait_for_guid_with_cancel, unless_cancelled, service_or, round_timeout, arrives,
  connected, reach_service, kept, appears, connect_by_service, or_connect, bring_online,
}

module _ {A B : Type 0} where
  then_do-same :
      (r : World × Result A WirelessError) (f : A → M B)
      → ((a : A) (w : World) → (f a w).0 ≡ w)
      → (then_do r f).0 ≡ r.0
  then_do-same (w, ok a) f h = h a w
  then_do-same (w, err e) f h = refl

  then_do-le :
      (b : ℕ) (r : World × Result A WirelessError) (f : A → M B)
      → r.0.now ≤ b
      → ((a : A) → (f a r.0).0.now ≤ b)
      → (then_do r f).0.now ≤ b
  then_do-le b (w, ok a) f le h = h a
  then_do-le b (w, err e) f le h = le

refuse-same :
    {A : Type 0} (status : ℕ) (e : WirelessError) (r : Result A WirelessError) (w : World)
    → (refuse_unless_zero status e (give r) w).0 ≡ w
refuse-same status e r w = elim (Bool-cases (status == 0)) [ inl z ↦ rw z refl | inr n ↦ rw n refl ]

collected_by-le :
    (p : Process) (late : ℕ) (w : World) (o : Option Done)
    → Reaped p late w.now o
    → (collected_by w o).0.now ≤ w.now + (command_timeout + 10 + late) + p.wait_time + p.join_time
collected_by-le p late w none r = cc
collected_by-le p late w (some d) r = let timely = r.0 in omega arith

-- The sleeps of a process of adb are late by no more than `late`, and it holds up the wait for it and the
-- joins of its readers by no more than `block`.
abbrev pub IsTimely : ℕ → ℕ → Process → Type 0
IsTimely late block p = ((u : ℕ) → p.lag u ≤ late) × (p.wait_time + p.join_time ≤ block)

run_process-le :
    (late block : ℕ) (w : World) (r : Result Process IoError)
    → ((p : Process) → r ≡ ok p → IsTimely late block p)
    → (run_process w r).0.now ≤ w.now + (command_timeout + 10 + late + block)
unfolding run_process
run_process-le late block w (err e) h = omega arith
run_process-le late block w (ok p) h =
    let timely = h p refl in
    let bound =
      collected_by-le p late w (collect_child p w.now)
        (collect_child-Reaped p late timely.0 w.now) in
    omega (arith, timely.1)

abbrev pub Timely : Adb → ℕ → ℕ → Type 0
Timely adb late block =
    (t : ℕ) (call : Call) (p : Process) → adb.spawn t call ≡ ok p → IsTimely late block p

run_adb-le :
    (adb : Adb) (late block : ℕ)
    → Timely adb late block
    → (call : Call) (w : World)
    → (run_adb adb call w).0.now ≤ w.now + (command_timeout + 10 + late + block)
unfolding run_adb
run_adb-le adb late block timely call w =
    run_process-le late block (record w { calls = call ∷ w.calls }) (adb.spawn w.now call)
      (timely w.now call)

module _ (adb : Adb) (slow late : ℕ)
    (took : (c : Call) (w : World) → (run_adb adb c w).0.now ≤ w.now + slow)
    (lag : (t : ℕ) → adb.lag t ≤ late) where
  list_devices-le : (w : World) → (list_devices adb w).0.now ≤ w.now + slow
  unfolding list_devices
  list_devices-le w =
      let same : (list_devices adb w).0.now ≡ (run_adb adb Call.devices_long w).0.now =
        ap (λ (v : World). v.now)
          (then_do-same (run_adb adb Call.devices_long w) _ (λ a v. refuse-same a.0 _ _ v)) in
      let t = took Call.devices_long w in omega arith

  adb_mdns_services-le : (w : World) → (adb_mdns_services adb w).0.now ≤ w.now + slow
  unfolding adb_mdns_services
  adb_mdns_services-le w =
      let same : (adb_mdns_services adb w).0.now ≡ (run_adb adb Call.mdns_services w).0.now =
        ap (λ (v : World). v.now)
          (then_do-same (run_adb adb Call.mdns_services w) _ (λ a v. refuse-same a.0 _ _ v)) in
      let t = took Call.mdns_services w in omega arith

  connect-le : (endpoint : Text) (w : World) → (connect adb endpoint w).0.now ≤ w.now + slow
  unfolding connect
  connect-le endpoint w =
      let same : (connect adb endpoint w).0.now ≡ (run_adb adb (Call.connect_to endpoint) w).0.now =
        ap (λ (v : World). v.now)
          (then_do-same (run_adb adb (Call.connect_to endpoint) w) _
            (λ a v. refuse-same a.0 _ _ v)) in
      let t = took (Call.connect_to endpoint) w in omega arith

  -- No turn of the loop begins at or after `limit`.
  abbrev Stops : ℕ → ℕ → ℕ → Type 0
  Stops limit started timeout =
      (t : ℕ)
      → limit ≤ t
      → (ltb (t - started) timeout ≡ false)
        ⊎ ((is_cancelled adb t || signal_requested adb t) ≡ true)

  early :
      (limit started timeout : ℕ)
      → Stops limit started timeout
      → (t : ℕ) → ltb (t - started) timeout ≡ true
      → (is_cancelled adb t || signal_requested adb t) ≡ false
      → t < limit
  early limit started timeout stops t more goes_on = elim (Bool-cases (leb limit t)) [
    | inl h ↦ elim (stops t (leb→le limit t h)) [ inl over ↦ cc | inr c ↦ cc ]
    | inr h ↦ ground arith
  ]

  looked-le :
      (b : ℕ) (o : Option Device) (again : M Text) (w : World)
      → w.now ≤ b
      → ((v : World) → v.now ≤ w.now + 250 + late → (again v).0.now ≤ b)
      → (found_or adb o again w).0.now ≤ b
  looked-le b none again w le h = h _ (let t = lag w.now in omega arith)
  looked-le b (some d) again w le h = le

  wait_from-le :
      (limit fuel : ℕ) (guid : Text) (started timeout : ℕ)
      → Stops limit started timeout
      → (w : World) → w.now ≤ limit + slow + 250 + late
      → (wait_from adb fuel guid started timeout w).0.now ≤ limit + slow + 250 + late
  unfolding wait_from
  wait_from-le limit zero guid started timeout stops w le = le
  wait_from-le limit (suc fuel) guid started timeout stops w le =
      elim (Bool-cases (ltb (w.now - started) timeout)) [
        | inr over ↦ rw over le
        | inl more ↦
            rw more (elim (Bool-cases (is_cancelled adb w.now || signal_requested adb w.now)) [
              | inl c ↦ rw c le
              | inr n ↦ rw n (
                  let begun = early limit started timeout stops w.now more n in
                  let listed = list_devices-le w in
                  then_do-le (limit + slow + 250 + late) (list_devices adb w) _ (omega arith)
                    λ found.
                      looked-le (limit + slow + 250 + late) (find (is_found adb guid) found) _
                        (list_devices adb w).0 (omega arith)
                        (λ v h. wait_from-le limit fuel guid started timeout stops v (omega arith)))
            ])
      ]

  module _ (c : ℕ) (cut : adb.cancelled_at ≡ some c) where
    abbrev soon : ℕ
    soon = c + slow + 250 + late

    cancelled_from : (t : ℕ) → c ≤ t → is_cancelled adb t ≡ true
    unfolding is_cancelled
    cancelled_from t h = rw cut (ground arith)

    cancels : (started timeout : ℕ) → Stops c started timeout
    cancels started timeout t h = inr (let e = cancelled_from t h in rw e refl)

    before : (t : ℕ) → is_cancelled adb t ≡ false → t < c
    before t h = elim (Bool-cases (leb c t)) [
      | inl e ↦ let stop = cancelled_from t (leb→le c t e) in cc
      | inr e ↦ ground arith
    ]

    wait-le :
        (guid : Text) (timeout : ℕ) (w : World)
        → w.now ≤ soon
        → (wait_for_guid_with_cancel adb guid timeout w).0.now ≤ soon
    unfolding wait_for_guid_with_cancel
    wait-le guid timeout w le =
        wait_from-le c (suc timeout) guid w.now timeout (cancels w.now timeout) w le

    unless-le :
        {A : Type 0} (next : M A) (w : World)
        → w.now ≤ soon
        → (w.now < c → (next w).0.now ≤ soon)
        → (unless_cancelled adb next w).0.now ≤ soon
    unless-le next w le h = elim (Bool-cases (is_cancelled adb w.now)) [
      | inl e ↦ rw e le
      | inr e ↦ rw e (h (before w.now e))
    ]

    reach_service-le :
        (guid : Text) (deadline : ℕ) (service : MdnsService) (w : World)
        → w.now ≤ soon
        → (reach_service adb guid deadline service w).0.now ≤ soon
    reach_service-le guid deadline service w le =
        unless-le (connected adb guid deadline service) w le λ early.
          let v = (connect adb (endpoint_text service) w).0 in
          let joined = connect-le (endpoint_text service) w in
          then_do-le soon (connect adb (endpoint_text service) w)
            (λ _. unless_cancelled adb (arrives adb guid deadline)) (omega arith)
            λ _.
              unless-le (arrives adb guid deadline) v (omega arith)
                λ _. wait-le guid (deadline - v.now) v (omega arith)

    connect_by_service-le :
        (guid : Text) (deadline : ℕ) (w : World)
        → w.now < c
        → (connect_by_service adb guid deadline w).0.now ≤ soon
    unfolding connect_by_service
    connect_by_service-le guid deadline w h =
        let listed = adb_mdns_services-le w in
        let w' = (adb_mdns_services adb w).0 in
        then_do-le soon (adb_mdns_services adb w) (found guid deadline) (omega arith) λ services.
          then_do-le soon (give (service_or (connect_service_for_guid services guid)) w')
            (reach_service adb guid deadline) (omega arith)
            λ service. reach_service-le guid deadline service w' (omega arith)
      where
        found : Text → ℕ → List MdnsService → M Text
        found guid deadline services =
            ◌>>=◌ (give (service_or (connect_service_for_guid services guid)))
              (reach_service adb guid deadline)

    or_connect-le :
        (guid : Text) (deadline : ℕ) (r : World × Result Text WirelessError)
        → r.0.now ≤ soon
        → (or_connect adb guid deadline r).0.now ≤ soon
    or_connect-le guid deadline (w, ok serial) le = le
    or_connect-le guid deadline (w, err e) le = elim (Bool-cases (is_cancelled adb w.now)) [
      | inl e' ↦ rw e' le
      | inr e' ↦ rw e' (connect_by_service-le guid deadline w (before w.now e'))
    ]

    bring_online-le :
        (guid : Text) (w : World) → w.now ≤ soon → (bring_online adb guid w).0.now ≤ soon
    unfolding bring_online
    bring_online-le guid w le = unless-le (appears adb guid) w le λ early.
        let r =
          or_connect adb guid (w.now + round_timeout)
            (wait_for_guid_with_cancel adb guid round_timeout w) in
        let bound =
          or_connect-le guid (w.now + round_timeout) _ (wait-le guid round_timeout w le) in
        then_do-le soon r (kept adb) bound
          λ serial. unless-le (give (ok serial)) r.0 bound (λ _. bound)

-- the time that the desktop client gives a pairing worker that it has cancelled
abbrev pub pairing_shutdown_deadline : ℕ
pairing_shutdown_deadline = 13000

-- Bringing the phone online ends within the time that the client waits for a cancelled worker, wherever the
-- cancellation finds it: where no sleep is late by more than a second, and no command of adb holds up the wait
-- for it and the joins of its readers by more than 0.7 s.
pub bring_online-cancels :
    (adb : Adb) (late block : ℕ)
    → Timely adb late block
    → ((t : ℕ) → adb.lag t ≤ late)
    → late ≤ 1000
    → block ≤ 700
    → (c : ℕ) → adb.cancelled_at ≡ some c
    → (guid : Text) (w : World) → w.now ≤ c
    → (bring_online adb guid w).0.now ≤ c + pairing_shutdown_deadline
bring_online-cancels adb late block timely lag small short c cut guid w before = omega (
  arith,
  bring_online-le adb (command_timeout + 10 + late + block) late (run_adb-le adb late block timely)
      lag c cut guid w (omega arith),
)
