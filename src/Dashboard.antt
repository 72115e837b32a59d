-- ===== src/Dashboard.antt =====
-- dashboard/lib
pub mod Roles
pub mod Routes
pub mod Auth
pub mod Session
pub mod Scope
pub mod Pagination
pub mod Middleware
mod Tests
