-- ===== src/Common.antt =====
-- What the routes share.
pub mod DataQuality
pub mod Idempotency
