-- ===== src/Tests/Breaker.antt =====
-- Runs of the circuit breaker.
use trademart_b.Prelude.{◌≡◌, ◌↔◌, ◌≤◌, ◌+◌, refl, none, some, arith, ◌===◌}
use trademart_b.Shopify.Breaker.{BreakerData, is_breaker_code, record_shopify_outcome}
use trademart_b.Shopify.Breaker.Outage.{
  failure, fail, record_shopify_outcome-opens, record_shopify_outcome-reopens_iff,
}

abbrev fresh : BreakerData
fresh = record {
  consecutive_failures = 0;
  last_failure_at = none;
  opened_at = none;
  last_failure_code = none;
}

-- Its cooldown over, a trial is let through.
abbrev half_open : BreakerData
half_open = record {
  consecutive_failures = 5;
  last_failure_at = some 1000;
  opened_at = none;
  last_failure_code = some "SHOPIFY_TIMEOUT";
}

record_shopify_outcome-opens_example :
    let b = fail "SHOPIFY_TIMEOUT" 4000 (
      fail "SHOPIFY_THROTTLED" 3000
        (fail "SHOPIFY_TIMEOUT" 2000 (fail "SHOPIFY_THROTTLED" 1000 fresh))) in
    (b.opened_at ≡ none) × ((fail "SHOPIFY_TIMEOUT" 5000 b).opened_at ≡ some 5000)
unfolding is_breaker_code ◌===◌
record_shopify_outcome-opens_example =
    record_shopify_outcome-opens "SHOPIFY_THROTTLED" "SHOPIFY_TIMEOUT" "SHOPIFY_THROTTLED"
      "SHOPIFY_TIMEOUT" "SHOPIFY_TIMEOUT" 1000 2000 3000 4000 5000 fresh
      (refl, refl, refl, refl, refl) refl refl (omega arith, omega arith, omega arith, omega arith)

record_shopify_outcome-reopens_iff_example :
    ((record_shopify_outcome 130000 (failure "SHOPIFY_TIMEOUT") half_open).opened_at ≡ some 130000)
    ↔ (130000 ≤ 1000 + 120000)
unfolding is_breaker_code ◌===◌
record_shopify_outcome-reopens_iff_example =
    record_shopify_outcome-reopens_iff "SHOPIFY_TIMEOUT" 130000 1000 half_open refl refl refl
      (omega arith)
