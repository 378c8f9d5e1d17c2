-- ===== src/Storefront/Orders.antt =====
-- src/storefront/orders/order.orchestrator.ts: creates the Shopify orders of paid checkouts. The Shopify
-- port is the argument `ensure_order`; `now` is read at the claim and `now'` at a release. While the port is
-- awaited the others make of the sessions what `during` says, and between a link that failed and the
-- release what `after` says.
pub mod Progress
use trademart_b.Prelude.{
  ℕ, zero, suc, ◌+◌, ◌-◌, ◌*◌, Bool, true, false, Option, none, some, List, String,
}
use Prim.Native.Nat.{min}
use trademart_b.Mongo.{Collection}
use trademart_b.Storefront.Result.{Result, ok, err}
use trademart_b.Storefront.Checkout.Types.{CheckoutSessionRecord}
use trademart_b.Storefront.Checkout.Repository.{
  claim_order, mark_order_created, release_order_for_retry,
}

pub record ShopifyOrder : Type 0 where
  pub id : String
  pub name : String
  pub created_at : ℕ

-- What the port answers; an exception is the code and message that `asStorefrontError` gives it.
pub data Ensured : Type 0 where
  ensured : ShopifyOrder → Ensured
  threw : String → String → Ensured

-- RETRY_MINUTES[index], and 360 where it is undefined
abbrev pub retry_minutes : ℕ → ℕ
retry_minutes zero = 1
retry_minutes (suc zero) = 5
retry_minutes (suc (suc zero)) = 30
retry_minutes (suc (suc (suc zero))) = 120
retry_minutes _ = 360

abbrev pub delay_ms : ℕ → ℕ
delay_ms attempts = retry_minutes (min (attempts - 1) 4) * 60000

module _ (db : Collection CheckoutSessionRecord)
    (ensure_order : CheckoutSessionRecord → Ensured) where
  unfoldable pub release :
      ℕ
      → CheckoutSessionRecord
      → String
      → String
      → List CheckoutSessionRecord
      → List CheckoutSessionRecord
  release now s code message rows =
      release_order_for_retry db s.public_id (now + delay_ms s.order_attempts) code message rows

  module _ (during after : List CheckoutSessionRecord → List CheckoutSessionRecord) where
    -- `markOrderCreated` in the `try` block: its error goes to the `catch` block too.
    unfoldable pub recorded :
        ℕ
        → CheckoutSessionRecord
        → List CheckoutSessionRecord × Result CheckoutSessionRecord
        → List CheckoutSessionRecord × Bool
    unfolding release
    recorded now s (rows, ok linked) = (rows, true)
    recorded now s (rows, err e) = (
      release now s "DATABASE_UNAVAILABLE" "Created Shopify order could not be recorded safely."
          (after rows),
      false,
    )

    unfoldable pub attempted :
        ℕ
        → CheckoutSessionRecord
        → Ensured
        → List CheckoutSessionRecord
        → List CheckoutSessionRecord × Bool
    unfolding recorded release
    attempted now s (ensured order) rows =
        recorded now s (mark_order_created db s.public_id order.id order.name order.created_at rows)
    attempted now s (threw code message) rows = (release now s code message rows, false)

    unfoldable pub processed :
        ℕ
        → List CheckoutSessionRecord × Option CheckoutSessionRecord
        → List CheckoutSessionRecord × Bool
    unfolding attempted
    processed now (rows, none) = (rows, false)
    processed now (rows, some s) = attempted now s (ensure_order s) (during rows)

    unfoldable pub process_one :
        Option String → ℕ → ℕ → List CheckoutSessionRecord → List CheckoutSessionRecord × Bool
    unfolding processed
    process_one public_id now now' rows = processed now' (claim_order db public_id now rows)

  -- `while (processed < limit && (await this.processOne()))`, over the rounds left; round k reads the
  -- clock at `clock k` and `clock' k`, and the others write `during k` and `after k` in it.
  module _ (clock clock' : ℕ → ℕ)
      (during after : ℕ → List CheckoutSessionRecord → List CheckoutSessionRecord) where
    round : ℕ → List CheckoutSessionRecord → List CheckoutSessionRecord × Bool
    unfolding process_one
    round k rows = process_one (during k) (after k) none (clock k) (clock' k) rows

    drain_from : ℕ → ℕ → List CheckoutSessionRecord → List CheckoutSessionRecord × ℕ
    unfolding round
    drain_from zero count rows = (rows, count)
    drain_from (suc left) count rows = elim (round count rows).1 [
      | true ↦ drain_from left (suc count) (round count rows).0
      | false ↦ ((round count rows).0, count)
    ]

    unfoldable pub drain : ℕ → List CheckoutSessionRecord → List CheckoutSessionRecord × ℕ
    unfolding drain_from
    drain limit rows = drain_from limit 0 rows
