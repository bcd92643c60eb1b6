-- ===== src/Ios/Error.antt =====
-- `Error` of crates/quadcontrol-ios/src/lib.rs, and the stable codes that the clients read.
use quad_control.Base.{ℕ}
use quad_control.Base.Text.{Text, codes}
use quad_control.Os.{IoError}

pub data Error : Type 0 where
  ios_not_found : (path : Text) → Error
  ios_version usbmuxd_unavailable : (message : Text) → Error
  tunnel_port_busy : (port : ℕ) → Error
  tunnel_failed wda_not_installed wda_signature_expired wda_unreachable : (message : Text) → Error
  wda_session_failed forward_failed proxy_failed : (message : Text) → Error
  device_locked text_unconfirmed no_active_element : Error
  screenshot_failed activate_app_failed : (message : Text) → Error
  already_running windows_session_unsupported : Error
  process : IoError → Error

unfoldable pub code : Error → Text
code (ios_not_found _) = codes "ios_not_found"
code (ios_version _) = codes "ios_version"
code (usbmuxd_unavailable _) = codes "usbmuxd_unavailable"
code (tunnel_port_busy _) = codes "tunnel_port_busy"
code (tunnel_failed _) = codes "tunnel_failed"
code (wda_not_installed _) = codes "wda_not_installed"
code (wda_signature_expired _) = codes "wda_signature_expired"
code (wda_unreachable _) = codes "wda_unreachable"
code (wda_session_failed _) = codes "wda_session_failed"
code (forward_failed _) = codes "forward_failed"
code (proxy_failed _) = codes "proxy_failed"
code device_locked = codes "device_locked"
code text_unconfirmed = codes "text_unconfirmed"
code no_active_element = codes "no_active_element"
code (screenshot_failed _) = codes "screenshot_failed"
code (activate_app_failed _) = codes "activate_app_failed"
code already_running = codes "ios_session_already_running"
code windows_session_unsupported = codes "windows_session_unsupported"
code (process _) = codes "ios_process_error"
