-- ===== src/Tests.antt =====
-- Concrete runs: each applies a theorem of the development to definite data.
mod Webhooks
mod Sessions
mod Sourceability
pub mod Checkout
mod Payments
mod Transitions
mod Breaker
mod Previews
mod Idempotency
mod Dropshipping
pub mod Push
mod Csv
mod Amount
mod Service
pub mod Data
