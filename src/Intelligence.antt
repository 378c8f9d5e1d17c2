-- ===== src/Intelligence.antt =====
-- Product research: src/intelligence.
pub mod Transitions
pub mod Push
pub mod Sourceability
pub mod FinalRecommendation
