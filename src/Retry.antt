-- ===== src/Retry.antt =====
-- pkg/retry/retry.go: the retry loop with exponential backoff.
pub mod Config
pub mod Loop
pub mod Outcome
pub mod Delays
pub mod Tests
