-- ===== src/EventMonitor.antt =====
-- internal/eventmonitor/worker/worker.go: the worker of a registry entry.
pub mod Filter
pub mod Worker
pub mod Polling
pub mod Tests
