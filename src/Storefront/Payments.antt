-- ===== src/Storefront/Payments.antt =====
-- src/storefront/payments: how a payment that the provider reports becomes a paid checkout.
pub mod Attempts
pub mod Service
