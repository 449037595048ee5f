-- ===== src/Transmission.antt =====
-- src/transmission_manager.{h,cpp}, class TransmissionManager: rooms with one host and several
-- guests, the connections of users, and the notifications that changes of a room cause.
pub mod State
pub mod Rooms
pub mod Connections
pub mod Sessions
pub mod Snapshots
pub mod Soundness
pub mod Calls
mod Examples
