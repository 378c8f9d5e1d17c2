-- ===== src/Dropshipping.antt =====
-- The view of an order that Trademart derives from what Shopify reports.
pub mod Status
