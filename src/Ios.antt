-- ===== src/Ios.antt =====
-- crates/quadcontrol-ios: what is asked of go-ios, the supervised session, the client of the device's
-- WebDriverAgent, and the MJPEG proxy between the device and the web view.
pub mod Error
pub mod GoIos
pub mod Session
pub mod Wda
pub mod Slot
pub mod Shutdown
pub mod Frames
pub mod Downstream
