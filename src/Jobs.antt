-- ===== src/Jobs.antt =====
-- src/kenkui_server/jobs: the domain values, their validation and the transitions of a job.
pub mod Models
pub mod Transitions
pub mod Settings
pub mod Validation
pub mod Tests
