-- ===== src/Notifications.antt =====
-- notifications/: the mail to the owner of a finished job.
pub mod Service
mod Tests
