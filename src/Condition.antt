-- ===== src/Condition.antt =====
-- internal/schedulers/condition/scheduler: the worker of a condition job, and the trigger that it
-- sends.
pub mod Evaluate
pub mod Extract
pub mod Worker
pub mod Notification
pub mod Counting
pub mod Routes
pub mod Tests
