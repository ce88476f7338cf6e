-- ===== src/Registry.antt =====
-- internal/eventmonitor/registry: who monitors which contract event.
pub mod Manager
pub mod Subscriptions
pub mod Invariant
pub mod Workers
pub mod Tests
