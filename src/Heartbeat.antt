-- ===== src/Heartbeat.antt =====
-- src/heartbeat: when a job is due.
pub mod Cron
