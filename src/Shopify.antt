-- ===== src/Shopify.antt =====
-- The calls to Shopify that the rest of the program makes through a guard.
pub mod Breaker
