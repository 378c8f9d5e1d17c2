-- ===== src/Webhooks.antt =====
-- Shopify's webhooks: src/webhooks.
pub mod Queue
