-- ===== src/TimeScheduler.antt =====
-- internal/schedulers/time/scheduler/schedule.go: a poll for time-based tasks.
pub mod Schedule
pub mod Batches
pub mod Submitted
pub mod Tests
