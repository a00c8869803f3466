-- ===== src/Hosted.antt =====
-- storage/postgres.py, storage/postgres_execution.py and storage/credit_lots.py: the hosted state.
pub mod Tables
pub mod Lots
pub mod Billing
pub mod Balance
pub mod Statuses
pub mod Repositories
pub mod Execution
pub mod Slots
pub mod Changes
pub mod System
pub mod Dispatcher
pub mod Identities
pub mod Queries
mod Tests
