-- ===== src/Examples.antt =====
-- Runs of the definitions on concrete inputs, and the theorems at such inputs.
mod Wireless
mod Wda
mod GoIos
mod Session
mod Android
mod Process
mod Clients
mod Pairing
mod IosSlot
mod Probe
mod Sessions
mod Panel
mod Online
mod Secret
mod Downstream
