-- ===== src/Ios/GoIos.antt =====
-- What crates/quadcontrol-ios/src/lib.rs and devices.rs ask of the go-ios command and how they read its output.
-- How a command ends is a parameter.
pub mod Version
pub mod Devices
pub mod Apps
pub mod Capture
use quad_control.Base.{ℕ, Bool, true, false, Option, none, some, Result, ok, err, ◌==◌}
use quad_control.Base.Text.{Text, codes}
use quad_control.Base.Text.Decimal.{decimal}
use quad_control.Os.{IoError, not_found, ExitStatus}
use quad_control.Ios.Error.{Error, ios_not_found, process}

-- what `Command::output` gives
pub record Output : Type 0 where
  pub status : ExitStatus
  pub stdout : Text
  pub stderr : Text

-- `status.success()`
abbrev pub succeeded : ExitStatus → Bool
succeeded none = false
succeeded (some c) = c == 0

-- `status.code().unwrap_or(-1)`, printed
abbrev pub code_text : ExitStatus → Text
code_text none = codes "-1"
code_text (some c) = decimal c

-- a command that did not run
unfoldable pub not_run : Text → IoError → Error
not_run ios not_found = ios_not_found ios
not_run ios e = process e
