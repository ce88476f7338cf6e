-- ===== src/Events.antt =====
-- internal/schedulers/condition/scheduler/worker: the event worker.
pub mod Blocks
pub mod Complete
pub mod Tests
