-- ===== src/TaskDispatcher.antt =====
-- internal/taskdispatcher: from a scheduler's request to the tasks for the performers.
pub mod Dispatcher
pub mod Signed
pub mod Checked
pub mod Tests
