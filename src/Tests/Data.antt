-- ===== src/Tests/Data.antt =====
-- Sessions that the runs share.
use trademart_b.Prelude.{ℕ, none, some, [], ◌∷◌, String}
use trademart_b.Storefront.Checkout.Types.{
  CheckoutCustomer, ShippingAddress, CheckoutSnapshot, CheckoutSnapshotLine, payment_pending,
  order_creating, order_pending, CheckoutSessionRecord,
}

abbrev pub customer : CheckoutCustomer
customer = record { full_name = "Asha Rao"; email = "asha@example.com"; phone = "9000000000" }

abbrev pub address : ShippingAddress
address = record {
  address_line1 = "1 Main Road";
  address_line2 = none;
  city = "Pune";
  state = "Maharashtra";
  pin_code = "411001";
}

abbrev pub frozen_line : CheckoutSnapshotLine
frozen_line = record {
  public_product_id = "p1";
  public_variant_id = "v1";
  shopify_product_id = "sp1";
  shopify_variant_id = "sv1";
  quantity = 2;
  unit_price_paise = 5000;
  available_quantity = none;
  line_total_paise = 10000;
}

abbrev pub frozen : CheckoutSnapshot
frozen = record {
  lines = frozen_line ∷ [];
  subtotal_paise = 10000;
  shipping_paise = 500;
  discount_paise = 0;
  tax_paise = 0;
  total_paise = 10500;
  customer = customer;
  shipping_address = address;
}

-- A checkout that waits for its payment.
abbrev pub session : String → String → CheckoutSessionRecord
session id order = record {
  public_id = id;
  idempotency_key = id;
  request_hash = "h";
  status = payment_pending;
  snapshot = frozen;
  status_token_hash = "s";
  tracking_token_hash = "t";
  razorpay_order_id = some order;
  razorpay_payment_id = none;
  razorpay_order_status = some "created";
  paid_at = none;
  refunded_at = none;
  shopify_source_identifier = "src";
  shopify_order_id = none;
  shopify_order_name = none;
  shopify_order_created_at = none;
  order_attempts = 0;
  next_order_attempt_at = none;
  order_lease_expires_at = none;
  order_error_code = none;
  order_error_message = none;
}

-- One that has been paid and waits for its Shopify order.
abbrev pub paid_session : String → String → String → ℕ → CheckoutSessionRecord
paid_session id order payment at = record (session id order) {
  status = order_pending;
  razorpay_payment_id = some payment;
  razorpay_order_status = some "paid";
  paid_at = some at;
  next_order_attempt_at = some at;
}

-- One whose Shopify order a worker is creating.
abbrev pub leased_session : String → String → String → ℕ → ℕ → CheckoutSessionRecord
leased_session id order payment at until = record (paid_session id order payment at) {
  status = order_creating;
  next_order_attempt_at = none;
  order_lease_expires_at = some until;
  order_attempts = 1;
}
