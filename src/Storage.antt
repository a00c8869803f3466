-- ===== src/Storage.antt =====
-- The SQLite storage of a local server (src/kenkui_server/storage).
pub mod Codec
pub mod Tables
pub mod Repositories
pub mod Execution
pub mod Leases
pub mod Changes
pub mod System
pub mod Queries
mod Tests
