-- ===== src/Gui/Manual/Told.antt =====
-- What the worker of `pair_manual` of crates/quadcontrol-gui/src-tauri/src/lib.rs tells, and what it asks of adb.
use quad_control.Base.{
  ℕ, zero, suc, ◌-◌, ◌≡◌, refl, ◌⊎◌, inl, inr, ◌||◌, List, ◌∷◌, Option, none, some, Result, ok, err,
  Holds, ltb, ◌==◌, if◌then◌else◌, find, Bool-cases,
}
use quad_control.Base.Text.{Text, codes}
use quad_control.Android.{Error}
use quad_control.Probe.{Device}
use quad_control.Wireless.{WirelessError}
use quad_control.Os.{IoError}
use quad_control.Wireless.Collect.{Process, Done, collect_child}
use quad_control.Wireless.Online.{
  Call, Adb, World, M, then_do, give, refuse_unless_zero, collected_by, run_process, run_adb,
  list_devices, is_found, found_or, wait_from, wait_for_guid_with_cancel, is_cancelled,
  signal_requested, round_timeout,
}
use quad_control.Wireless.Online.Found.{Found, wait-Found}
use quad_control.Gui.Manual.{paired_device_name, told, manual_worker}

-- nothing but the list of the devices was asked for since
pub data Lists (before : List Call) : List Call → Type 0 where
  nothing : Lists before before
  again : {calls : List Call} → Lists before calls → Lists before (Call.devices_long ∷ calls)

collected_by-calls : (w : World) (o : Option Done) → (collected_by w o).0.calls ≡ w.calls
collected_by-calls w none = refl
collected_by-calls w (some d) = refl

run_process-calls : (w : World) (r : Result Process IoError) → (run_process w r).0.calls ≡ w.calls
unfolding run_process
run_process-calls w (err e) = refl
run_process-calls w (ok p) = collected_by-calls w (collect_child p w.now)

module _ (adb : Adb) where
  run_adb-calls : (call : Call) (w : World) → (run_adb adb call w).0.calls ≡ call ∷ w.calls
  unfolding run_adb
  run_adb-calls call w =
      run_process-calls (record w { calls = call ∷ w.calls }) (adb.spawn w.now call)

  refuse-calls :
      {A : Type 0} (status : ℕ) (e : WirelessError) (r : Result A WirelessError) (w : World)
      → (refuse_unless_zero status e (give r) w).0 ≡ w
  refuse-calls status e r w = elim (Bool-cases (status == 0)) [
    | inl z ↦ rw z refl
    | inr n ↦ rw n refl
  ]

  listed-calls :
      {A : Type 0} (before : List Call) (r : World × Result (ℕ × Text × Text) WirelessError)
      (f : ℕ × Text × Text → M A)
      → ((a : ℕ × Text × Text) (w : World) → (f a w).0 ≡ w)
      → Lists before r.0.calls
      → Lists before (then_do r f).0.calls
  listed-calls before (w, ok a) f same l = rw (same a w) l
  listed-calls before (w, err e) f same l = l

  list_devices-Lists :
      (before : List Call) (w : World)
      → Lists before w.calls
      → Lists before (list_devices adb w).0.calls
  unfolding list_devices
  list_devices-Lists before w l =
      listed-calls before (run_adb adb Call.devices_long w) _ (λ a v. refuse-calls a.0 _ _ v)
        (rw (run_adb-calls Call.devices_long w) (again l))

  looked-Lists :
      (before : List Call) (guid : Text) (r : World × Result (List Device) WirelessError)
      (next : M Text)
      → Lists before r.0.calls
      → ((w : World) → Lists before w.calls → Lists before (next w).0.calls)
      → Lists before (then_do r (λ ds. found_or adb (find (is_found adb guid) ds) next)).0.calls
  looked-Lists before guid (v, ok ds) next l h = found (find (is_found adb guid) ds)
    where
      found : (o : Option Device) → Lists before (found_or adb o next v).0.calls
      found none = h _ l
      found (some d) = l
  looked-Lists before guid (v, err e) next l h = l

  wait_from-Lists :
      (before : List Call) (fuel : ℕ) (guid : Text) (started timeout : ℕ) (w : World)
      → Lists before w.calls
      → Lists before (wait_from adb fuel guid started timeout w).0.calls
  unfolding wait_from
  wait_from-Lists before zero guid started timeout w l = l
  wait_from-Lists before (suc fuel) guid started timeout w l =
      elim (Bool-cases (ltb (w.now - started) timeout)) [
        | inr over ↦ rw over l
        | inl more ↦
            rw more (elim (Bool-cases (is_cancelled adb w.now || signal_requested adb w.now)) [
              | inl c ↦ rw c l
              | inr n ↦ rw n (
                  looked-Lists before guid (list_devices adb w) _ (list_devices-Lists before w l)
                    (wait_from-Lists before fuel guid started timeout))
            ])
      ]

  -- what the user is told of an answer of `pair`
  abbrev pub Tells :
      Result (List Device) Error → Result Text WirelessError → World × Result Text Text → Type 0
  Tells listed paired (w, ok shown) =
      (guid : Text) × (paired ≡ ok guid)
      × (serial : Text) × Found adb guid serial
      × (shown ≡ paired_device_name listed serial)
  Tells listed paired (w, err code) =
      ((code ≡ codes "pair_failed") × (e : WirelessError) × (paired ≡ err e))
      ⊎ ((guid : Text) × (paired ≡ ok guid)
          × (code ≡ (
              if is_cancelled adb w.now
              then codes "pair_cancelled"
              else codes "manual_pair_needs_connect_port")))

  told-Tells :
      (listed : Result (List Device) Error) (guid : Text) (r : World × Result Text WirelessError)
      → Holds (Found adb guid) r.1
      → Tells listed (ok guid) (told adb listed r)
  told-Tells listed guid (w, ok serial) f = (guid, refl, serial, f, refl)
  told-Tells listed guid (w, err e) f = elim (Bool-cases (is_cancelled adb w.now)) [
    | inl c ↦ rw c (inr (guid, refl, rw c refl))
    | inr c ↦ rw c (inr (guid, refl, rw c refl))
  ]

  told-Lists :
      (listed : Result (List Device) Error) (before : List Call)
      (r : World × Result Text WirelessError)
      → Lists before r.0.calls
      → Lists before (told adb listed r).0.calls
  told-Lists listed before (w, ok serial) l = l
  told-Lists listed before (w, err e) l = elim (Bool-cases (is_cancelled adb w.now)) [
    | inl c ↦ rw c l
    | inr c ↦ rw c l
  ]

  -- The worker of a manual pairing names a phone only if the pairing gave an identity under which adb then
  -- listed one. It tells a failed pairing apart from one that has succeeded with no phone coming online, and
  -- that from a cancellation. It asks adb for nothing but lists of devices: it never connects, least of all to
  -- the port of the pairing.
  pub manual_worker-Tells :
      (listed : Result (List Device) Error) (paired : Result Text WirelessError) (w : World)
      → Tells listed paired (manual_worker adb listed paired w)
        × Lists w.calls (manual_worker adb listed paired w).0.calls
  unfolding manual_worker
  manual_worker-Tells listed (err e) w = (inl (refl, e, refl), nothing)
  manual_worker-Tells listed (ok guid) w =
      let r = wait_for_guid_with_cancel adb guid round_timeout w in
      (
        told-Tells listed guid r (wait-Found adb guid round_timeout w),
        told-Lists listed w.calls r (waits guid w),
      )
    where
      waits :
          (guid : Text) (w : World)
          → Lists w.calls (wait_for_guid_with_cancel adb guid round_timeout w).0.calls
      waits guid w =
          unfold wait_for_guid_with_cancel in
          wait_from-Lists w.calls (suc round_timeout) guid w.now round_timeout w nothing
