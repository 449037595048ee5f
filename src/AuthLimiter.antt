-- ===== src/AuthLimiter.antt =====
-- src/device_auth_limiter.{h,cpp}: failure budgets for password verification, and the admission of
-- expensive credential work.
pub mod Bucket
pub mod Verify
pub mod Work
