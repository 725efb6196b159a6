-- ===== src/Api.antt =====
-- The API: the process that serves the tables (src/api).
pub mod NotificationRead
pub mod Validation
