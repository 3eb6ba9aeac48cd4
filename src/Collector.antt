-- ===== src/Collector.antt =====
-- internal/collector: the watch of a resource, and the slots that watch streams share.
pub mod Int
pub mod Scheduler
pub mod Backoff
pub mod Watch
pub mod Schedule
