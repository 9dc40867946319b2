-- ===== src/Wifi.antt =====
-- components/wifi_manager.
pub mod State
pub mod Manager
pub mod Invariant
pub mod Release
pub mod Examples
