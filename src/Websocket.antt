-- ===== src/Websocket.antt =====
-- internal/dbserver/websocket: the hub of the task event stream, and its rooms.
pub mod Rooms
pub mod Hub
pub mod Channels
pub mod Invariant
pub mod Crash
pub mod Access
pub mod Tests
