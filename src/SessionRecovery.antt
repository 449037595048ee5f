-- ===== src/SessionRecovery.antt =====
-- src/session_recovery.{h,cpp}, class SessionRecovery: tickets that restore sessions after a restart.
-- State has its state and collaborators, Tickets the start, `Login` and `Issue`, Reports `Report`,
-- Expiry `Expire` and `Status`, and Keeping what all the calls keep.
pub mod State
pub mod Tickets
pub mod Reports
pub mod Expiry
pub mod Keeping
mod Examples
