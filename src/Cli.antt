-- ===== src/Cli.antt =====
-- cli-connectors/framework/src
pub mod Enforcement
pub mod Bypass
pub mod ScanText
pub mod Executor
pub mod PolicyClient
pub mod AckStore
pub mod Line
pub mod Session
pub mod Connector
pub mod Hook
pub mod Adapters
mod Tests
