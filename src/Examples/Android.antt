-- ===== src/Examples/Android.antt =====
-- Command lines, device lists and a session for crates/quadcontrol-android/src/lib.rs.
use quad_control.Base.{
  some, ◌+◌, ◌≤◌, map, filter, not, ◌≡◌, refl, ◌⊎◌, ◌↔◌, true, false, List, [], ◌∷◌, ◌++◌, none, ok,
  if◌then◌else◌, is_ok, is_empty, err,
}
use quad_control.Base.Text.{Text, codes}
use quad_control.Os.{other}
use quad_control.Process.Ladder as Ladder
use quad_control.Android.Session.{Machine}
use quad_control.Android.Options.{LaunchOptions, filtered_args, build_args, owned_args}
use quad_control.Android.Options.Accepted.{accepts, filtered_args-accepts}
use quad_control.Probe.{device, unauthorized, usb, tcp, Device}
use quad_control.Android.Shutdown.{SessionHandle, done_by, shutdown_all, shutdown_all-late}
use quad_control.Android.Select.{select_device}
use quad_control.Android.Select.Laws.{Chosen, select_device-Chosen}

abbrev passed : List Text
passed = codes "--no-audio" ∷ codes "--" ∷ codes "--record=x" ∷ []

filtered_args-accepts_example :
    ((accepts passed ≡ true) × (filtered_args passed ≡ ok passed))
    ⊎ ((accepts passed ≡ false) × (is_ok (filtered_args passed) ≡ false))
filtered_args-accepts_example = filtered_args-accepts passed

abbrev launch : LaunchOptions
launch = record {
  adb_path = codes "adb";
  scrcpy = codes "scrcpy";
  serial = codes "R5";
  bit_rate = codes "8M";
  screen_off = true;
  audio_on_computer = false;
  passthrough = codes "--" ∷ codes "x" ∷ [];
  scrcpy_env = [];
}

-- The options asked for by the fields stand behind the separator that is passed on.
flags_last :
    build_args launch
    ≡ ok (
        owned_args launch
        ++ codes "--" ∷ codes "x" ∷ codes "--turn-screen-off" ∷ codes "--no-audio" ∷ [])
unfolding build_args accepts
flags_last = refl

abbrev phone : Device
phone = record { serial = codes "R5"; model = none; state = device; transport = usb }

abbrev tablet : Device
tablet = record {
  serial = codes "10.0.0.5:5555";
  model = none;
  state = unauthorized;
  transport = tcp;
}

select_device-Chosen_example :
    (select_device (tablet ∷ phone ∷ []) none ≡ ok (codes "R5"))
    ↔ Chosen (tablet ∷ phone ∷ []) none (codes "R5")
select_device-Chosen_example = select_device-Chosen (tablet ∷ phone ∷ []) none (codes "R5")

phone_selected : select_device (tablet ∷ phone ∷ []) none ≡ ok (codes "R5")
unfolding select_device
phone_selected = refl

abbrev handles : List SessionHandle
handles =
    record { id = 1; done_at = some 120 }
    ∷ record { id = 2; done_at = none }
    ∷ record { id = 3; done_at = some 8000 }
    ∷ []

shutdown_all-late_run :
    ((shutdown_all 100 7000 handles).0 ≤ 100 + 7000)
    × ((shutdown_all 100 7000 handles).1
        ≡ map (λ h. h.id) (filter (λ h. not (done_by (100 + 7000) h)) handles))
shutdown_all-late_run = shutdown_all-late 100 7000 handles

two_late : (shutdown_all 100 7000 handles).1 ≡ 2 ∷ 3 ∷ []
unfolding shutdown_all
two_late = refl

-- scrcpy, which exits 100 ms after the first signal; the stop is requested after 60 ms.
abbrev mirroring : Machine
mirroring = record {
  os = record {
    exits = λ pid sent now. not (is_empty sent);
    escalated = λ now. false;
    lag = λ now. 1;
    wait_answer = λ pid sent. if is_empty sent then err (other 10) else ok tt;
    wait_time = λ pid sent. 20;
  };
  pid = 7;
  exit_status = some 0;
  try_wait_error = λ now. none;
  io_text = λ e. codes "error";
  stderr_tail = codes "bye";
  stop_at = some 60;
}
