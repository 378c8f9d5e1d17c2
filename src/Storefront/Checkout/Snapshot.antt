-- ===== src/Storefront/Checkout/Snapshot.antt =====
-- src/storefront/checkout/checkout.snapshot.ts: the frozen amounts of a checkout. A sum or product that
-- is exact as a natural number is the JavaScript one while it is safe; past that both are refused.
pub mod Amounts
use trademart_b.Prelude.{
  ℕ, zero, suc, ◌+◌, ◌*◌, ◌-◌, Bool, true, false, not, ◌||◌, ◌&&◌, Option, none, some, List, [],
  ◌∷◌, String, length, ltb, leb, ◌==◌, ◌===◌, if◌then◌else◌,
}
use trademart_b.Prelude.Int.{ℤ, pos, negsuc, exceeds}
use trademart_b.Storefront.Result.{
  Result, ok, err, throw, refuse_if, ◌>>=◌, ◌>>◌, internal_error, product_unavailable,
  variant_unavailable, price_changed, validation_error,
}
use trademart_b.Storefront.Checkout.Types.{
  RequestedCheckoutLine, CreateCheckoutRequest, Sellability, sellable, out_of_stock, unavailable,
  Amount, whole, inexact, AuthoritativeCheckoutLine, CheckoutSnapshotLine, CheckoutSnapshot,
  ShippingQuote,
}

-- Number.MAX_SAFE_INTEGER
abbrev pub max_safe_integer : ℕ
max_safe_integer = 9007199254740991

unfoldable pub paise : Amount → Result ℕ
paise (whole (pos n)) = if leb n max_safe_integer then ok n else throw internal_error 500
paise (whole (negsuc n)) = throw internal_error 500
paise inexact = throw internal_error 500

unfoldable pub checked_add : ℕ → ℕ → Result ℕ
checked_add a b = if leb (a + b) max_safe_integer then ok (a + b) else throw internal_error 500

-- `requestByVariant.get(id)`: a map keeps the last line set under a key.
unfoldable pub request_by_variant :
    List RequestedCheckoutLine → String → Option RequestedCheckoutLine
request_by_variant [] id = none
request_by_variant (l ∷ ls) id = elim (request_by_variant ls id) [
  | some later ↦ some later
  | none ↦ if l.variant_id === id then some l else none
]

abbrev sellability_check : Sellability → Result (Unit {0})
sellability_check sellable = ok tt
sellability_check out_of_stock = throw variant_unavailable 409
sellability_check unavailable = throw product_unavailable 409

-- `expected !== undefined && expected !== price`
abbrev pub differs : Option ℕ → ℕ → Bool
differs none n = false
differs (some m) n = not (m == n)

abbrev pub oversold : Option ℤ → ℕ → Bool
oversold none quantity = false
oversold (some available) quantity = exceeds quantity available

unfoldable pub checked_line :
    Option RequestedCheckoutLine → AuthoritativeCheckoutLine → Result CheckoutSnapshotLine
unfolding paise
checked_line none line = throw product_unavailable 409
checked_line (some requested) line = do
  refuse_if
      (not (requested.product_id === line.public_product_id)
        || not (requested.quantity == line.quantity))
      product_unavailable 409
  sellability_check line.sellability
  refuse_if (not (line.currency_code === "INR")) product_unavailable 409
  price ← paise line.unit_price_paise
  refuse_if (leb price 0) product_unavailable 409
  refuse_if (oversold line.available_quantity line.quantity) variant_unavailable 409
  refuse_if (differs requested.expected_unit_price_paise price) price_changed 409
  total ← paise (whole (pos (price * line.quantity)))
  ok (record {
    public_product_id = line.public_product_id;
    public_variant_id = line.public_variant_id;
    shopify_product_id = line.shopify_product_id;
    shopify_variant_id = line.shopify_variant_id;
    quantity = line.quantity;
    unit_price_paise = price;
    available_quantity = line.available_quantity;
    line_total_paise = total;
  })

-- The callback of `approved.map`, with the subtotal that it accumulates.
unfoldable pub checked_lines :
    List RequestedCheckoutLine
    → ℕ
    → List AuthoritativeCheckoutLine
    → Result (List CheckoutSnapshotLine × ℕ)
unfolding checked_line checked_add request_by_variant
checked_lines requested subtotal [] = ok ([], subtotal)
checked_lines requested subtotal (line ∷ lines) = do
  l ← checked_line (request_by_variant requested line.public_variant_id) line
  subtotal' ← checked_add subtotal l.line_total_paise
  rest ← checked_lines requested subtotal' lines
  ok (l ∷ rest.0, rest.1)

-- The end of `buildCheckoutSnapshot`, from the lines and the subtotal on.
unfoldable pub frozen_snapshot :
    CreateCheckoutRequest → ShippingQuote → List CheckoutSnapshotLine × ℕ → Result CheckoutSnapshot
unfolding paise checked_add
frozen_snapshot request quote (lines, subtotal) = do
  shipping ← paise quote.shipping_paise
  discount ← paise quote.discount_paise
  tax ← paise quote.tax_paise
  gross ← checked_add subtotal shipping
  refuse_if (ltb gross discount) internal_error 500
  total ← checked_add (gross - discount) tax
  refuse_if (ltb total 10) validation_error 400
  ok (record {
    lines = lines;
    subtotal_paise = subtotal;
    shipping_paise = shipping;
    discount_paise = discount;
    tax_paise = tax;
    total_paise = total;
    customer = request.customer;
    shipping_address = request.shipping_address;
  })

unfoldable pub build_checkout_snapshot :
    CreateCheckoutRequest → List AuthoritativeCheckoutLine → ShippingQuote → Result CheckoutSnapshot
unfolding checked_lines frozen_snapshot
build_checkout_snapshot request approved quote = do
  refuse_if (not (length approved == length request.lines)) product_unavailable 409
  checked ← checked_lines request.lines 0 approved
  frozen_snapshot request quote checked
