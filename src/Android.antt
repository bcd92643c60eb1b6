-- ===== src/Android.antt =====
-- crates/quadcontrol-android/src/lib.rs: choosing a device, checking scrcpy and building its
-- command line. `Error` with its messages.
pub mod Options
pub mod Select
pub mod Shutdown
pub mod Session
use quad_control.Base.Text.{Text}
use quad_control.Os.{IoError}

pub data Error : Type 0 where
  usage adb scrcpy_not_found scrcpy_version invalid_passthrough : Text → Error
  process : IoError → Error
  not_found wrong_state : Text → Error
