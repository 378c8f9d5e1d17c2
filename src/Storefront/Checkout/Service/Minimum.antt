-- ===== src/Storefront/Checkout/Service/Minimum.antt =====
-- The wholesale minimums in src/storefront/checkout/checkout.service.ts: a cart below one stores nothing
-- and asks Razorpay for nothing.
use trademart_b.Prelude.{
  ℕ, ◌≤◌, true, Option, none, some, List, [], ◌∷◌, String, ◌≡◌, refl, arith, ◌⊎◌, inl, inr,
  Bool-cases, All,
}
use trademart_b.Mongo.{Collection}
use trademart_b.Storefront.Result.{ok, throw, moq_not_met}
use trademart_b.Storefront.Checkout.Types.{
  CreateCheckoutRequest, AuthoritativeCheckoutLine, CheckoutSessionRecord,
}
use trademart_b.Storefront.Checkout.Repository.{find_by_idempotency_key}
use trademart_b.Storefront.Checkout.Repository.Steps.{apply_all}
use trademart_b.Storefront.Checkout.Service.{
  Surroundings, meets_minimum_order_quantity, assert_minimum_order_quantities, approved_snapshot,
  open_checkout, create_found, create_checkout,
}

-- The quantity reaches the minimum, if there is one.
abbrev pub Reaches : ℕ → Option ℕ → Type 0
Reaches quantity none = Unit {0}
Reaches quantity (some minimum) = minimum ≤ quantity

meets-Reaches :
    (quantity : ℕ) (minimum : Option ℕ)
    → meets_minimum_order_quantity quantity minimum ≡ true
    → Reaches quantity minimum
unfolding meets_minimum_order_quantity
meets-Reaches quantity none h = tt
meets-Reaches quantity (some minimum) h = ground arith

-- Either every line reaches its minimum, or the first that does not is the error.
assert_minimum-cases :
    (lines : List AuthoritativeCheckoutLine)
    → (All (λ l. Reaches l.quantity l.minimum_order_quantity) lines)
      ⊎ (assert_minimum_order_quantities lines ≡ throw moq_not_met 409)
unfolding assert_minimum_order_quantities
assert_minimum-cases [] = inl tt
assert_minimum-cases (l ∷ ls) =
    elim (Bool-cases (meets_minimum_order_quantity l.quantity l.minimum_order_quantity)) [
      | inr short ↦ inr (rw short refl)
      | inl met ↦ elim (assert_minimum-cases ls) [
        | inl all ↦ inl (meets-Reaches l.quantity l.minimum_order_quantity met, all)
        | inr refused ↦ inr (rw met refused)
      ]
    ]

short_snapshot :
    (around : Surroundings) (request : CreateCheckoutRequest)
    {approved : List AuthoritativeCheckoutLine}
    → around.revalidate_lines request.lines ≡ ok approved
    → assert_minimum_order_quantities approved ≡ throw moq_not_met 409
    → approved_snapshot around request ≡ throw moq_not_met 409
unfolding approved_snapshot
short_snapshot around request read refused = rw (read, refused) refl

-- A new checkout in which a line that the catalogue has just approved is below its product's minimum
-- is refused with MOQ_NOT_MET: of the sessions only the writes of other requests are new, whatever
-- Razorpay and the shipping policy would answer.
pub create_checkout-below_minimum :
    (around : Surroundings) (db : Collection CheckoutSessionRecord)
    (request : CreateCheckoutRequest) (key : String) (rows : List CheckoutSessionRecord)
    {approved : List AuthoritativeCheckoutLine}
    → find_by_idempotency_key db key rows ≡ none
    → around.revalidate_lines request.lines ≡ ok approved
    → ¬ All (λ l. Reaches l.quantity l.minimum_order_quantity) approved
    → create_checkout around db request key rows
      ≡ (apply_all db around.before_create rows, throw moq_not_met 409)
unfolding create_checkout create_found open_checkout
create_checkout-below_minimum around db request key rows {approved} new read short =
    elim (assert_minimum-cases approved) [
      | inl all ↦ absurd (short all)
      | inr refused ↦ rw (new, short_snapshot around request read refused) refl
    ]
