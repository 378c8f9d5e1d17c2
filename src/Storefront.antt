-- ===== src/Storefront.antt =====
-- The storefront: src/storefront.
pub mod Result
pub mod Amount
pub mod Checkout
pub mod Orders
pub mod Payments
