-- ===== src/ContainerPool.antt =====
-- pkg/dockerexecutor/container/pool.go: the pool of containers of one language.
pub mod Pool
pub mod Calls
pub mod Kept
pub mod Bound
pub mod Shared
pub mod Tests
