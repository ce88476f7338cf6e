-- ===== src/FileCache.antt =====
-- pkg/dockerexecutor/file/cache.go: the cache of downloaded scripts.
pub mod State
pub mod Eviction
pub mod Cache
pub mod Accounts
pub mod Order
pub mod Bound
pub mod Room
pub mod Invariant
pub mod Start
pub mod Twice
pub mod Tests
