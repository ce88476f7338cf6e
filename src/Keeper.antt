-- ===== src/Keeper.antt =====
-- internal/keeper/core: validation and the performer's side of it.
pub mod Trigger
pub mod Agreement
pub mod Triggered
pub mod Data
pub mod Signatures
pub mod Proof
pub mod Action
pub mod Performer
pub mod Uploaded
pub mod RoundTrip
pub mod Accepted
pub mod Tests
