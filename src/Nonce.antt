-- ===== src/Nonce.antt =====
-- internal/keeper/core/execution/nonce_manager.go: the nonces of a keeper's transactions.
pub mod Manager
pub mod Allocation
pub mod Submission
pub mod Confirmed
pub mod Errors
pub mod Tests
