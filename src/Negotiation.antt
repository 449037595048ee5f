-- ===== src/Negotiation.antt =====
-- src/signal_negotiation.{h,cpp}
pub mod Json
pub mod State
pub mod Signals
pub mod Work
pub mod Passwords
pub mod Login
pub mod Authentication
pub mod Handlers
pub mod DeviceLogin
pub mod Account
mod Fixture
