-- ===== src/Probe.antt =====
-- agents/android-shell/adb-probe/src/lib.rs: what adb reports, read by three fixed commands.
pub mod Parse
pub mod Run
pub mod Json
use quad_control.Base.{ℕ, Bool, List, [], ◌∷◌, Option, Result}
use quad_control.Base.Text.{Text, codes}

pub data AdbCommand : Type 0 where
  version devices_long mdns_services : AdbCommand

unfoldable pub args : AdbCommand → List Text
args version = codes "version" ∷ []
args devices_long = codes "devices" ∷ codes "-l" ∷ []
args mdns_services = codes "mdns" ∷ codes "services" ∷ []

pub record CommandOutput : Type 0 where
  pub status : ℕ  -- i32; only its difference from 0 is tested
  pub stdout : Text
  pub stderr : Text

pub data ExecutionError : Type 0 where
  adb_not_found : ExecutionError
  timed_out : AdbCommand → ExecutionError
  io : Text → ExecutionError
  output_too_large : AdbCommand → ExecutionError

pub data DeviceState : Type 0 where
  device offline unauthorized : DeviceState
  other : Text → DeviceState

pub data Transport : Type 0 where
  usb tcp emulator unknown : Transport

pub record Device : Type 0 where
  pub serial : Text
  pub model : Option Text
  pub state : DeviceState
  pub transport : Transport

pub data MdnsAvailability : Type 0 where
  available unsupported : MdnsAvailability

pub record MdnsReport : Type 0 where
  pub availability : MdnsAvailability
  pub pairing_service_advertised : Bool
  pub connect_service_advertised : Bool
  pub malformed_lines : ℕ

pub data PairingObservation : Type 0 where
  unknown : PairingObservation

pub record ProbeReport : Type 0 where
  pub adb_version : Text
  pub devices : List Device
  pub mdns : MdnsReport
  pub wireless_connected : Bool
  pub paired_with_this_host : PairingObservation

pub data ProbeError : Type 0 where
  execution : ExecutionError → ProbeError
  command_failed : AdbCommand → ℕ → Text → ProbeError
  invalid_output : AdbCommand → Text → ProbeError

abbrev pub is_device : DeviceState → Bool
is_device device = Bool.true
is_device _ = Bool.false
