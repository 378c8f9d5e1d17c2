-- ===== src/Storefront/Checkout.antt =====
-- Checkout: src/storefront/checkout.
pub mod Types
pub mod Schema
pub mod Snapshot
pub mod Repository
pub mod Service
