-- ===== src/Tests/Service.antt =====
-- A checkout that is created while another one is paid, and one that is below a minimum.
use trademart_b.Prelude.{◌≡◌, refl, none, some, List, [], ◌∷◌, arith, ◌===◌}
use trademart_b.Prelude.Int.{pos}
use trademart_b.Mongo.Listed.{listed}
use trademart_b.Storefront.Result.{ok, throw, moq_not_met}
use trademart_b.Storefront.Checkout.Types.{
  CheckoutSessionRecord, AuthoritativeCheckoutLine, whole, sellable,
}
use trademart_b.Storefront.Checkout.Snapshot.{build_checkout_snapshot}
use trademart_b.Storefront.Checkout.Repository.{
  create, new_session, attach_razorpay_order, attach_filter, attach_update, paid_filter,
  paid_update, mark_paid, find_by_idempotency_key,
}
use trademart_b.Storefront.Checkout.Schema.{schema_accepts, clash}
use trademart_b.Storefront.Checkout.Repository.Steps.{pay, apply_all}
use trademart_b.Storefront.Checkout.Service.{Surroundings, CreateCheckoutResponse, create_checkout}
use trademart_b.Storefront.Checkout.Service.Answers.{IsUndisturbed, create_checkout-IsAnswered}
use trademart_b.Storefront.Checkout.Service.Resumed.{IsAnswered}
use trademart_b.Storefront.Checkout.Service.Minimum.{create_checkout-below_minimum}
use trademart_b.Tests.Checkout.{request, approved, quote}
use trademart_b.Tests.Data.{paid_session, frozen}

abbrev around : List AuthoritativeCheckoutLine → Surroundings
around lines = record {
  request_hash = λ r. "hash";
  revalidate_lines = λ ls. ok lines;
  quote = λ ls subtotal address. ok quote;
  random_uuid = "c9";
  status_token_of = λ id. "s";
  tracking_token_of = λ id. "t9";
  hash_token = λ token. token;
  source_identifier_of = λ id. "kanay-c9";
  key_id = "rzp";
  receipt_of = λ id. "ks_c9";
  create_or_recover_order = λ amount receipt id. ok (record { id = "order_9"; status = "created" });
  before_create = [];
  before_attach = pay "c1" "order_1" "pay_1" 100 300 ∷ [];
}

abbrev rows : List CheckoutSessionRecord
rows = paid_session "c1" "order_1" "pay_1" 100 ∷ []

abbrev answer : CreateCheckoutResponse
answer = record {
  checkout_session_id = "c9";
  status_token = "s";
  razorpay_order_id = "order_9";
  amount_paise = 10500;
  key_id = "rzp";
  items = frozen.lines;
  subtotal_paise = 10000;
  shipping_paise = 500;
  discount_paise = 0;
  tax_paise = 0;
  total_paise = 10500;
}

calm : IsUndisturbed (around approved) (listed CheckoutSessionRecord) rows
calm = record { distinct = (tt, tt); others_quiet = ((tt, tt), tt); new_quiet = (tt, tt) }

create_checkout-IsAnswered_example :
    IsAnswered "key9" "hash"
      (create_checkout (around approved) (listed CheckoutSessionRecord) request "key9" rows).0
      answer
unfolding create_checkout apply_all ◌===◌ listed build_checkout_snapshot create schema_accepts clash
    new_session attach_razorpay_order attach_filter attach_update paid_filter paid_update mark_paid
create_checkout-IsAnswered_example =
    create_checkout-IsAnswered (around approved) (listed CheckoutSessionRecord) request "key9" rows
      {after = (create_checkout (around approved) (listed CheckoutSessionRecord) request "key9"
        rows).0}
      {r = answer} calm calm refl

-- The same line, of a product that is sold by the dozen.
abbrev dozen : List AuthoritativeCheckoutLine
dozen =
    record {
      public_product_id = "p1";
      public_variant_id = "v1";
      shopify_product_id = "sp1";
      shopify_variant_id = "sv1";
      quantity = 2;
      unit_price_paise = whole (pos 5000);
      currency_code = "INR";
      available_quantity = none;
      sellability = sellable;
      minimum_order_quantity = some 12;
    }
    ∷ []

create_checkout-below_minimum_example :
    create_checkout (around dozen) (listed CheckoutSessionRecord) request "key9" rows
    ≡ (apply_all (listed CheckoutSessionRecord) [] rows, throw moq_not_met 409)
unfolding listed find_by_idempotency_key ◌===◌
create_checkout-below_minimum_example =
    create_checkout-below_minimum (around dozen) (listed CheckoutSessionRecord) request "key9" rows
      {approved = dozen} refl refl (omega arith)
