-- ===== src/Log.antt =====
-- src/log.c: the ring of log entries.
pub mod Ring
mod History
mod Query
mod Whole
mod Tests
