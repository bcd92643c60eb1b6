-- ===== src/Wireless.antt =====
-- crates/quadcontrol-android/src/wireless.rs: pairing over wireless debugging. `WirelessError` has
-- the payloads of the source.
pub mod Round
pub mod Process
pub mod Close
pub mod Secret
pub mod Collect
pub mod Services
pub mod Pairing
pub mod Devices
pub mod Online
pub mod Command
use quad_control.Base.{ℕ}
use quad_control.Base.Text.{Text}
use quad_control.Os.{IoError}

pub data WirelessError : Type 0 where
  io : IoError → WirelessError
  adb_not_found timed_out output_too_large : WirelessError
  command_failed : Text → WirelessError
  invalid_adb_version : WirelessError
  adb_too_old : ℕ → ℕ → ℕ → WirelessError
  mdns_unavailable pair_output_unparseable no_matching_service : WirelessError
  devices invalid_input : Text → WirelessError
  cancelled round_timed_out service_lost : WirelessError
