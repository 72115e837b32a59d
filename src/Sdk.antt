-- ===== src/Sdk.antt =====
-- connector-sdk/src
pub mod Errors
pub mod Retry
pub mod Enums
pub mod Words
pub mod Decision
pub mod Codec
pub mod AuditEvent
pub mod ScanRequest
pub mod Deadline
pub mod Version
pub mod AgentStatus
pub mod Violation
pub mod Bridge
pub mod Client
mod Tests
