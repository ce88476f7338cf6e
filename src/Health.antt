-- ===== src/Health.antt =====
-- internal/health/keeper: the state of the keepers.
pub mod State
pub mod Activity
pub mod Tests
