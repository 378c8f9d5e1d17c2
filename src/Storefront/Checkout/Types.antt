-- ===== src/Storefront/Checkout/Types.antt =====
-- src/storefront/checkout/checkout.types.ts. Display fields that no rule reads (titles, options, images)
-- are left out; times are epoch milliseconds.
use trademart_b.Prelude.{ℕ, Option, List, String}
use trademart_b.Prelude.Int.{ℤ}

pub data CheckoutStatus : Type 0 where
  created payment_pending payment_paid order_pending order_creating order_created refunded :
      CheckoutStatus

pub data PublicCheckoutStatus : Type 0 where
  payment_pending paid order_pending complete : PublicCheckoutStatus

pub map_to_public_checkout_status : CheckoutStatus → PublicCheckoutStatus
map_to_public_checkout_status created = PublicCheckoutStatus.payment_pending
map_to_public_checkout_status payment_pending = PublicCheckoutStatus.payment_pending
map_to_public_checkout_status payment_paid = paid
map_to_public_checkout_status order_pending = PublicCheckoutStatus.order_pending
map_to_public_checkout_status order_creating = PublicCheckoutStatus.order_pending
map_to_public_checkout_status order_created = complete
map_to_public_checkout_status refunded = complete

pub record CheckoutCustomer : Type 0 where
  pub full_name : String
  pub email : String
  pub phone : String

pub record ShippingAddress : Type 0 where
  pub address_line1 : String
  pub address_line2 : Option String
  pub city : String
  pub state : String
  pub pin_code : String

-- A line as the browser asks for it, validated: the quantity is a whole number.
pub record RequestedCheckoutLine : Type 0 where
  pub product_id : String
  pub variant_id : String
  pub quantity : ℕ
  pub expected_unit_price_paise : Option ℕ

pub record CreateCheckoutRequest : Type 0 where
  pub lines : List RequestedCheckoutLine
  pub customer : CheckoutCustomer
  pub shipping_address : ShippingAddress

pub data Sellability : Type 0 where
  sellable out_of_stock unavailable : Sellability

-- A JavaScript number that should be a whole amount of paise: `inexact` is a fraction or NaN.
pub data Amount : Type 0 where
  whole : ℤ → Amount
  inexact : Amount

pub record AuthoritativeCheckoutLine : Type 0 where
  pub public_product_id : String
  pub public_variant_id : String
  pub shopify_product_id : String
  pub shopify_variant_id : String
  pub quantity : ℕ
  pub unit_price_paise : Amount
  pub currency_code : String
  pub available_quantity : Option ℤ
  pub sellability : Sellability
  pub minimum_order_quantity : Option ℕ

-- A line of the frozen snapshot: its price has been checked to be a whole number.
pub record CheckoutSnapshotLine : Type 0 where
  pub public_product_id : String
  pub public_variant_id : String
  pub shopify_product_id : String
  pub shopify_variant_id : String
  pub quantity : ℕ
  pub unit_price_paise : ℕ
  pub available_quantity : Option ℤ
  pub line_total_paise : ℕ

pub record CheckoutSnapshot : Type 0 where
  pub lines : List CheckoutSnapshotLine
  pub subtotal_paise : ℕ
  pub shipping_paise : ℕ
  pub discount_paise : ℕ
  pub tax_paise : ℕ
  pub total_paise : ℕ
  pub customer : CheckoutCustomer
  pub shipping_address : ShippingAddress

pub record ShippingQuote : Type 0 where
  pub shipping_paise : Amount
  pub discount_paise : Amount
  pub tax_paise : Amount

pub record CheckoutSessionRecord : Type 0 where
  pub public_id : String
  pub idempotency_key : String
  pub request_hash : String
  pub status : CheckoutStatus
  pub snapshot : CheckoutSnapshot
  pub status_token_hash : String
  pub tracking_token_hash : String
  pub razorpay_order_id : Option String
  pub razorpay_payment_id : Option String
  pub razorpay_order_status : Option String
  pub paid_at : Option ℕ
  pub refunded_at : Option ℕ
  pub shopify_source_identifier : String
  pub shopify_order_id : Option String
  pub shopify_order_name : Option String
  pub shopify_order_created_at : Option ℕ
  pub order_attempts : ℕ
  pub next_order_attempt_at : Option ℕ
  pub order_lease_expires_at : Option ℕ
  pub order_error_code : Option String
  pub order_error_message : Option String

pub record NewCheckoutSession : Type 0 where
  pub public_id : String
  pub idempotency_key : String
  pub request_hash : String
  pub snapshot : CheckoutSnapshot
  pub status_token_hash : String
  pub tracking_token_hash : String
  pub shopify_source_identifier : String
