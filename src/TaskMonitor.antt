-- ===== src/TaskMonitor.antt =====
-- internal/taskmonitor/tasks: the streams of tasks in Redis, their index and their timeouts.
pub mod Redis
pub mod Data
pub mod Expiration
pub mod Index
pub mod Streams
pub mod Outcomes
pub mod Timeouts
pub mod Cleanup
pub mod Expired
pub mod Due
pub mod Leaves
pub mod Settled
pub mod Kept
pub mod Rounds
pub mod Memory
pub mod Tests
