-- ===== src/Tests/Checkout.antt =====
-- A snapshot that is built.
use trademart_b.Prelude.{refl, none, some, List, [], ◌∷◌, ◌===◌}
use trademart_b.Prelude.Int.{pos}
use trademart_b.Storefront.Checkout.Types.{
  CreateCheckoutRequest, AuthoritativeCheckoutLine, ShippingQuote, whole, sellable,
}
use trademart_b.Storefront.Checkout.Snapshot.{
  build_checkout_snapshot, checked_lines, checked_line, frozen_snapshot, paise, checked_add,
  request_by_variant,
}
use trademart_b.Storefront.Checkout.Snapshot.Amounts.{IsFrozen, build_checkout_snapshot-IsFrozen}
use trademart_b.Tests.Data.{customer, address, frozen}

abbrev pub request : CreateCheckoutRequest
request = record {
  lines =
      record {
        product_id = "p1";
        variant_id = "v1";
        quantity = 2;
        expected_unit_price_paise = some 5000;
      }
      ∷ [];
  customer = customer;
  shipping_address = address;
}

abbrev pub approved : List AuthoritativeCheckoutLine
approved =
    record {
      public_product_id = "p1";
      public_variant_id = "v1";
      shopify_product_id = "sp1";
      shopify_variant_id = "sv1";
      quantity = 2;
      unit_price_paise = whole (pos 5000);
      currency_code = "INR";
      available_quantity = none;
      sellability = sellable;
      minimum_order_quantity = none;
    }
    ∷ []

abbrev pub quote : ShippingQuote
quote = record {
  shipping_paise = whole (pos 500);
  discount_paise = whole (pos 0);
  tax_paise = whole (pos 0);
}

build_checkout_snapshot-IsFrozen_example : IsFrozen request approved quote frozen
unfolding build_checkout_snapshot checked_lines checked_line frozen_snapshot paise checked_add
    request_by_variant ◌===◌
build_checkout_snapshot-IsFrozen_example =
    build_checkout_snapshot-IsFrozen request approved quote {s = frozen} refl
