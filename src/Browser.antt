-- ===== src/Browser.antt =====
-- browser-connectors/chrome
pub mod Background
pub mod Contract
pub mod Gate
pub mod NativeBridge
pub mod Transports
pub mod Upload
mod Tests
