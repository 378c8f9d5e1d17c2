-- ===== src/Storefront/Checkout/Schema.antt =====
-- src/database/models/CheckoutSession.ts: what the schema of a stored checkout refuses, and its unique
-- indexes.
use trademart_b.Prelude.{
  Bool, true, false, not, ◌||◌, ◌&&◌, Option, none, some, List, [], ◌∷◌, String, leb, holds, ◌===◌,
}
use trademart_b.Storefront.Checkout.Types.{
  CheckoutCustomer, ShippingAddress, CheckoutSnapshotLine, CheckoutSnapshot, CheckoutSessionRecord,
}

abbrev same_text : Option String → Option String → Bool
same_text none b = false
same_text (some a) b = holds b a

-- The unique indexes of the schema, the partial ones on the two Razorpay ids included.
unfoldable pub clash : CheckoutSessionRecord → CheckoutSessionRecord → Bool
clash new old =
    (new.public_id === old.public_id)
    || (new.idempotency_key === old.idempotency_key)
    || (new.tracking_token_hash === old.tracking_token_hash)
    || same_text new.razorpay_order_id old.razorpay_order_id
    || same_text new.razorpay_payment_id old.razorpay_payment_id

-- A text that is `required` is not empty.
abbrev filled : String → Bool
filled text = not (text === "")

-- `checkoutLineSchema`
unfoldable pub line_fits : CheckoutSnapshotLine → Bool
line_fits l =
    leb 1 l.quantity
    && leb l.quantity 10
    && leb 1 l.unit_price_paise
    && leb 1 l.line_total_paise
    && filled l.public_product_id
    && filled l.public_variant_id
    && filled l.shopify_product_id
    && filled l.shopify_variant_id

unfoldable pub lines_fit : List CheckoutSnapshotLine → Bool
unfolding line_fits
lines_fit [] = true
lines_fit (l ∷ ls) = line_fits l && lines_fit ls

-- `customerSchema`
customer_fits : CheckoutCustomer → Bool
customer_fits c = filled c.full_name && filled c.email && filled c.phone

-- `addressSchema`
address_fits : ShippingAddress → Bool
address_fits a = filled a.address_line1 && filled a.city && filled a.state && filled a.pin_code

-- The bounds on the other amounts are 0, which a natural number keeps.
snapshot_fits : CheckoutSnapshot → Bool
unfolding lines_fit customer_fits address_fits
snapshot_fits s =
    lines_fit s.lines
    && leb 10 s.total_paise
    && customer_fits s.customer
    && address_fits s.shipping_address

-- `checkoutSessionSchema`
unfoldable pub schema_accepts : CheckoutSessionRecord → Bool
unfolding snapshot_fits
schema_accepts s =
    snapshot_fits s.snapshot
    && filled s.public_id
    && filled s.idempotency_key
    && filled s.request_hash
    && filled s.status_token_hash
    && filled s.tracking_token_hash
    && filled s.shopify_source_identifier
