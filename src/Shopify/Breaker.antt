-- ===== src/Shopify/Breaker.antt =====
-- src/shopify/shopify.breaker.ts: the circuit breaker for bulk writes. `now` is what `Date.now()`
-- answers; counters and log lines are left out.
pub mod Outage
use trademart_b.Prelude.{
  ℕ, ◌+◌, ◌-◌, ◌/◌, Bool, true, false, not, ◌||◌, ◌&&◌, Option, none, some, String, leb, ltb, ◌===◌,
  if◌then◌else◌,
}

abbrev pub failure_threshold : ℕ
failure_threshold = 5

abbrev pub open_ms : ℕ
open_ms = 60000

abbrev pub failure_decay_ms : ℕ
failure_decay_ms = 120000

pub data BreakerState : Type 0 where
  closed open_ : BreakerState

pub record BreakerData : Type 0 where
  pub consecutive_failures : ℕ
  pub last_failure_at : Option ℕ
  pub opened_at : Option ℕ
  pub last_failure_code : Option String

-- The argument of `recordShopifyOutcome`; a missing code is none.
pub record ShopifyOutcome : Type 0 where
  pub ok : Bool
  pub code : Option String

unfoldable pub is_breaker_code : String → Bool
is_breaker_code code =
    (code === "SHOPIFY_THROTTLED")
    || (code === "SHOPIFY_TIMEOUT")
    || (code === "SHOPIFY_NETWORK_ERROR")
    || (code === "SHOPIFY_HTTP_ERROR")

-- The failure count once a quiet period has been allowed for.
unfoldable pub decayed : ℕ → BreakerData → ℕ
decayed now b = elim b.last_failure_at [
  | none ↦ b.consecutive_failures
  | some t ↦ if ltb failure_decay_ms (now - t) then 0 else b.consecutive_failures
]

unfoldable pub count_failure : ℕ → String → BreakerData → BreakerData
unfolding decayed
count_failure now code b = record {
  consecutive_failures = decayed now b + 1;
  last_failure_at = some now;
  opened_at = elim b.opened_at [
    | none ↦ if leb failure_threshold (decayed now b + 1) then some now else none
    | some t ↦ some t
  ];
  last_failure_code = some code;
}

unfoldable pub record_shopify_outcome : ℕ → ShopifyOutcome → BreakerData → BreakerData
unfolding count_failure is_breaker_code
record_shopify_outcome now outcome b =
    if outcome.ok
    then record b { consecutive_failures = 0; opened_at = none; last_failure_code = none }
    else (elim outcome.code [
      | none ↦ b
      | some code ↦ if is_breaker_code code then count_failure now code b else b
    ])

-- Reading the state closes a breaker whose cooldown is over.
unfoldable pub get_breaker_state : ℕ → BreakerData → BreakerData × BreakerState
get_breaker_state now b = elim b.opened_at [
  | none ↦ (b, closed)
  | some t ↦ if leb open_ms (now - t) then (record b { opened_at = none }, closed) else (b, open_)
]

-- The details of a SHOPIFY_DEGRADED error.
pub record Degraded : Type 0 where
  pub consecutive_failures : ℕ
  pub last_failure_code : Option String
  pub retry_after_seconds : ℕ

abbrev pub wait_ms : ℕ → Option ℕ → ℕ
wait_ms now none = open_ms
wait_ms now (some t) = (open_ms + t) - now

-- `none` for a call that returns; `Math.ceil` of the wait over 1000.
unfoldable pub assert_shopify_healthy_for_bulk_writes :
    ℕ → BreakerData → BreakerData × Option Degraded
unfolding get_breaker_state
assert_shopify_healthy_for_bulk_writes now b =
    let (after, state) = get_breaker_state now b in
    (
      after,
      elim state [
        | closed ↦ none
        | open_ ↦ some (record {
          consecutive_failures = after.consecutive_failures;
          last_failure_code = after.last_failure_code;
          retry_after_seconds = (wait_ms now after.opened_at + 999) / 1000;
        })
      ],
    )
