-- ===== src/Wireless/Online/Found.antt =====
-- Which phone comes online, for `bring_online` of crates/quadcontrol-android/src/wireless.rs.
use quad_control.Base.{
  ℕ, zero, suc, ◌+◌, ◌-◌, ◌≡◌, refl, true, false, ◌&&◌, ◌||◌, List, [], ◌∷◌, Option, none, some,
  Result, ok, err, Holds, ltb, find, any, arith, Bool-cases, inl, inr,
}
use mathlib.Core.Path.{subst}
use quad_control.Base.Text.{Text, text_eq}
use quad_control.Base.Text.Equality.{text_eq_refl}
use quad_control.Probe.{Device, is_device}
use quad_control.Wireless.{WirelessError}
use quad_control.Wireless.Services.{
  MdnsService, serial_matches_guid, connect_service_for_guid, endpoint_text,
}
use quad_control.Wireless.Online.{
  Adb, World, M, then_do, give, is_cancelled, signal_requested, list_devices, adb_mdns_services,
  connect, is_found, found_or, wait_from, wait_for_guid_with_cancel, unless_cancelled, service_or,
  round_timeout, arrives, connected, reach_service, connect_by_service, or_connect, kept, appears,
  bring_online,
}

module _ (adb : Adb) (guid : Text) where
  -- A list that adb gave has a device of that serial, ready for use, and the serial is of the pairing.
  abbrev pub Found : Text → Type 0
  Found serial =
      (u : World) × (ds : List Device) × ((list_devices adb u).1 ≡ ok ds)
      × (any (λ d. text_eq d.serial serial && is_device d.state) ds ≡ true)
      × (serial_matches_guid serial guid ≡ true)

  abbrev Listed : List Device → Text → Type 0
  Listed ds serial =
      (any (λ x. text_eq x.serial serial && is_device x.state) ds ≡ true)
      × (serial_matches_guid serial guid ≡ true)

  first_found :
      (x : Device) (ds : List Device) → is_found adb guid x ≡ true → Listed (x ∷ ds) x.serial
  first_found x ds e = let same = text_eq_refl x.serial in (ground arith, ground arith)

  later_found :
      (x : Device) (ds : List Device) (serial : Text) → Listed ds serial → Listed (x ∷ ds) serial
  later_found x ds serial (m, g) = (ground arith, g)

  found_in :
      (ds : List Device) (d : Device) → find (is_found adb guid) ds ≡ some d → Listed ds d.serial
  found_in [] d h = cc
  found_in (x ∷ ds) d h = elim (Bool-cases (is_found adb guid x)) [
    | inl e ↦
        let h' : some x ≡ some d = rw e at h in
        let same : x ≡ d = cc in subst (λ y. Listed (x ∷ ds) y.serial) same (first_found x ds e)
    | inr e ↦
        let h' : find (is_found adb guid) ds ≡ some d = rw e at h in
        later_found x ds d.serial (found_in ds d h')
  ]

  found_or-Found :
      (u : World) (ds : List Device)
      → (list_devices adb u).1 ≡ ok ds
      → (o : Option Device) → find (is_found adb guid) ds ≡ o
      → (again : M Text) (v : World) → ((w : World) → Holds Found (again w).1)
      → Holds Found (found_or adb o again v).1
  found_or-Found u ds e none f again v h = h _
  found_or-Found u ds e (some d) f again v h = (u, ds, e, (found_in ds d f).0, (found_in ds d f).1)

  looked-Found :
      (u : World) (r : World × Result (List Device) WirelessError) (again : M Text)
      → list_devices adb u ≡ r
      → ((w : World) → Holds Found (again w).1)
      → Holds Found (then_do r (λ ds. found_or adb (find (is_found adb guid) ds) again)).1
  looked-Found u (v, ok ds) again e h = found_or-Found u ds (rw e refl) _ refl again v h
  looked-Found u (v, err x) again e h = tt

  wait_from-Found :
      (fuel started timeout : ℕ) (w : World)
      → Holds Found (wait_from adb fuel guid started timeout w).1
  unfolding wait_from
  wait_from-Found zero started timeout w = tt
  wait_from-Found (suc fuel) started timeout w = elim (Bool-cases (ltb (w.now - started) timeout)) [
    | inr over ↦ rw over tt
    | inl more ↦ rw more (elim (Bool-cases (is_cancelled adb w.now || signal_requested adb w.now)) [
      | inl c ↦ rw c tt
      | inr n ↦
          rw n (looked-Found w (list_devices adb w) _ refl (wait_from-Found fuel started timeout))
    ])
  ]

  pub wait-Found :
      (timeout : ℕ) (w : World) → Holds Found (wait_for_guid_with_cancel adb guid timeout w).1
  unfolding wait_for_guid_with_cancel
  wait-Found timeout w = wait_from-Found (suc timeout) w.now timeout w

  then_do-Found :
      {A : Type 0} (r : World × Result A WirelessError) (f : A → M Text)
      → ((a : A) (w : World) → Holds Found (f a w).1)
      → Holds Found (then_do r f).1
  then_do-Found (w, ok a) f h = h a w
  then_do-Found (w, err e) f h = tt

  unless-Found :
      (next : M Text)
      → ((w : World) → Holds Found (next w).1)
      → (w : World) → Holds Found (unless_cancelled adb next w).1
  unless-Found next h w = elim (Bool-cases (is_cancelled adb w.now)) [
    | inl e ↦ rw e tt
    | inr e ↦ rw e (h w)
  ]

  reach_service-Found :
      (deadline : ℕ) (service : MdnsService) (w : World)
      → Holds Found (reach_service adb guid deadline service w).1
  reach_service-Found deadline service = unless-Found (connected adb guid deadline service) λ v.
      then_do-Found (connect adb (endpoint_text service) v)
        (λ _. unless_cancelled adb (arrives adb guid deadline))
        (λ _. unless-Found (arrives adb guid deadline) (λ u. wait-Found (deadline - u.now) u))

  connect_by_service-Found :
      (deadline : ℕ) (w : World) → Holds Found (connect_by_service adb guid deadline w).1
  unfolding connect_by_service
  connect_by_service-Found deadline w = then_do-Found (adb_mdns_services adb w) _ λ services v.
      then_do-Found (give (service_or (connect_service_for_guid services guid)) v)
        (reach_service adb guid deadline) (reach_service-Found deadline)

  or_connect-Found :
      (deadline : ℕ) (r : World × Result Text WirelessError)
      → Holds Found r.1
      → Holds Found (or_connect adb guid deadline r).1
  or_connect-Found deadline (w, ok serial) h = h
  or_connect-Found deadline (w, err e) h = elim (Bool-cases (is_cancelled adb w.now)) [
    | inl c ↦ rw c tt
    | inr c ↦ rw c (connect_by_service-Found deadline w)
  ]

  -- what `bring_online` comes to
  abbrev pub Comes : World × Result Text WirelessError → Type 0
  Comes (w, ok serial) = Found serial × (is_cancelled adb w.now ≡ false)
  Comes (w, err e) = Unit

  kept-Comes :
      (r : World × Result Text WirelessError) → Holds Found r.1 → Comes (then_do r (kept adb))
  kept-Comes (w, ok serial) h = elim (Bool-cases (is_cancelled adb w.now)) [
    | inl c ↦ rw c tt
    | inr c ↦ rw c (h, c)
  ]
  kept-Comes (w, err e) h = tt

  unless-Comes :
      (next : M Text)
      → ((w : World) → Comes (next w))
      → (w : World) → Comes (unless_cancelled adb next w)
  unless-Comes next h w = elim (Bool-cases (is_cancelled adb w.now)) [
    | inl e ↦ rw e tt
    | inr e ↦ rw e (h w)
  ]

  -- A phone is given out only if adb has listed it, ready for use and with a serial of the pairing's
  -- identity, and only if the pairing was not cancelled until then: a cancelled one is never a success.
  pub bring_online-Comes : (w : World) → Comes (bring_online adb guid w)
  unfolding bring_online
  bring_online-Comes = unless-Comes (appears adb guid) λ w.
      kept-Comes
        (or_connect adb guid (w.now + round_timeout)
          (wait_for_guid_with_cancel adb guid round_timeout w))
        (or_connect-Found (w.now + round_timeout) _ (wait-Found round_timeout w))
