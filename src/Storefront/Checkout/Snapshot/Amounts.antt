-- ===== src/Storefront/Checkout/Snapshot/Amounts.antt =====
-- What the amounts of a snapshot satisfy.
use mathlib.Core.Path.{subst}
use trademart_b.Prelude.{
  ℕ, not, ◌==◌, ◌+◌, ◌*◌, ◌≤◌, ◌<◌, ◌≡◌, refl, false, Option, none, some, List, [], ◌∷◌, length,
  arith, ===_iff, ◌∙◌, ap, sym,
}
use trademart_b.Prelude.Int.{pos, negsuc}
use trademart_b.Storefront.Result.{ok, >>=-eq-ok, ok-injective, refuse_if, refuse_if-eq-ok}
use trademart_b.Storefront.Checkout.Types.{
  RequestedCheckoutLine, CreateCheckoutRequest, AuthoritativeCheckoutLine, CheckoutSnapshotLine,
  CheckoutSnapshot, ShippingQuote, Amount, whole, inexact,
}
use trademart_b.Storefront.Checkout.Snapshot.{
  max_safe_integer, paise, checked_add, request_by_variant, oversold, differs, checked_line,
  checked_lines, frozen_snapshot, build_checkout_snapshot,
}

-- The amount of the lines, as it is charged.
pub sum_lines : List CheckoutSnapshotLine → ℕ
sum_lines [] = 0
sum_lines (l ∷ ls) = l.unit_price_paise * l.quantity + sum_lines ls

-- A line that is charged for an approved line: it was asked for in that quantity and at no other
-- price, it is in stock, it has the approved line's price, above nothing, and its identity, and its
-- total is the product.
pub record IsCharged (asked : List RequestedCheckoutLine) (line : AuthoritativeCheckoutLine)
    (l : CheckoutSnapshotLine) : Type 0 where
  pub request : RequestedCheckoutLine
  pub requested : request_by_variant asked l.public_variant_id ≡ some request
  pub same_product : request.product_id ≡ l.public_product_id
  pub same_quantity : request.quantity ≡ l.quantity
  pub same_price : differs request.expected_unit_price_paise l.unit_price_paise ≡ false
  pub approved_price : line.unit_price_paise ≡ whole (pos l.unit_price_paise)
  pub approved_currency : line.currency_code ≡ "INR"
  pub approved_product : line.public_product_id ≡ l.public_product_id
  pub approved_variant : line.public_variant_id ≡ l.public_variant_id
  pub approved_shopify_product : line.shopify_product_id ≡ l.shopify_product_id
  pub approved_shopify_variant : line.shopify_variant_id ≡ l.shopify_variant_id
  pub approved_quantity : line.quantity ≡ l.quantity
  pub priced : 0 < l.unit_price_paise
  pub total : l.line_total_paise ≡ l.unit_price_paise * l.quantity
  pub in_stock : oversold line.available_quantity l.quantity ≡ false

-- The lines charged are the approved ones, one for one and in their order.
abbrev pub AreCharged :
    List RequestedCheckoutLine → List AuthoritativeCheckoutLine → List CheckoutSnapshotLine → Type 0
AreCharged asked [] [] = Unit
AreCharged asked (line ∷ lines) (l ∷ ls) = IsCharged asked line l × AreCharged asked lines ls
AreCharged asked _ _ = ⊥

paise-lem : (a : Amount) {n : ℕ} → paise a ≡ ok n → a ≡ whole (pos n)
unfolding paise
paise-lem (whole (pos m)) h = ap (λ k. whole (pos k)) (ground arith)
paise-lem (whole (negsuc m)) h = absurd (cc)
paise-lem inexact h = absurd (cc)

checked_line-lem :
    (r : RequestedCheckoutLine) (line : AuthoritativeCheckoutLine) {l : CheckoutSnapshotLine}
    → checked_line (some r) line ≡ ok l
    → (r.product_id ≡ l.public_product_id)
      × (r.quantity ≡ l.quantity)
      × (differs r.expected_unit_price_paise l.unit_price_paise ≡ false)
      × (0 < l.unit_price_paise)
      × (l.line_total_paise ≡ l.unit_price_paise * l.quantity)
      × (oversold line.available_quantity l.quantity ≡ false)
unfolding checked_line paise
checked_line-lem r line h = ground (arith, ===_iff r.product_id line.public_product_id)

checked_line-approved :
    (r : RequestedCheckoutLine) (line : AuthoritativeCheckoutLine) {l : CheckoutSnapshotLine}
    → checked_line (some r) line ≡ ok l
    → (line.public_product_id ≡ l.public_product_id)
      × (line.public_variant_id ≡ l.public_variant_id)
      × (line.shopify_product_id ≡ l.shopify_product_id)
      × (line.shopify_variant_id ≡ l.shopify_variant_id)
      × (line.quantity ≡ l.quantity)
      × (line.currency_code ≡ "INR")
unfolding checked_line paise
checked_line-approved r line h = ground (arith, ===_iff line.currency_code "INR")

checked_line-price :
    (r : RequestedCheckoutLine) (line : AuthoritativeCheckoutLine) {l : CheckoutSnapshotLine}
    → checked_line (some r) line ≡ ok l
    → paise line.unit_price_paise ≡ ok l.unit_price_paise
unfolding checked_line
checked_line-price r line h = ground arith

checked_line-IsCharged :
    (asked : List RequestedCheckoutLine) (o : Option RequestedCheckoutLine)
    (line : AuthoritativeCheckoutLine) {l : CheckoutSnapshotLine}
    → request_by_variant asked line.public_variant_id ≡ o
    → checked_line o line ≡ ok l
    → IsCharged asked line l
checked_line-IsCharged asked none line e h = absurd (unfold checked_line in (cc))
checked_line-IsCharged asked (some r) line {l} e h =
    let (product, quantity, price, priced, total, stock) = checked_line-lem r line h in
    let (own_product, variant, shop_product, shop_variant, own_quantity, rupees) =
      checked_line-approved r line h in
    record {
      request = r;
      requested = subst (λ v. request_by_variant asked v ≡ some r) variant e;
      same_product = product;
      same_quantity = quantity;
      same_price = price;
      approved_price = paise-lem line.unit_price_paise (checked_line-price r line {l = l} h);
      approved_currency = rupees;
      approved_product = own_product;
      approved_variant = variant;
      approved_shopify_product = shop_product;
      approved_shopify_variant = shop_variant;
      approved_quantity = own_quantity;
      priced = priced;
      total = total;
      in_stock = stock;
    }

checked_add-lem : (a b : ℕ) {c : ℕ} → checked_add a b ≡ ok c → (c ≡ a + b) × (c ≤ max_safe_integer)
unfolding checked_add
checked_add-lem a b h = ground arith

-- The lines and the subtotal that the loop ends with, begun at `subtotal`.
abbrev Adds :
    List RequestedCheckoutLine
    → ℕ
    → List AuthoritativeCheckoutLine
    → List CheckoutSnapshotLine × ℕ
    → Type 0
Adds asked subtotal approved (ls, t) =
    AreCharged asked approved ls × (t ≡ subtotal + sum_lines ls) × (length ls ≡ length approved)

checked_lines-Adds :
    (asked : List RequestedCheckoutLine) (subtotal : ℕ) (approved : List AuthoritativeCheckoutLine)
    {p : List CheckoutSnapshotLine × ℕ}
    → checked_lines asked subtotal approved ≡ ok p
    → Adds asked subtotal approved p
unfolding checked_lines sum_lines
checked_lines-Adds asked subtotal [] h =
    subst (Adds asked subtotal []) (ok-injective h) (tt, omega arith, refl)
checked_lines-Adds asked subtotal (line ∷ lines) h =
    let (l, at_line, h₁) =
      >>=-eq-ok (checked_line (request_by_variant asked line.public_variant_id) line) _ h in
    let (subtotal', added, h₂) = >>=-eq-ok (checked_add subtotal l.line_total_paise) _ h₁ in
    let (rest, at_rest, h₃) = >>=-eq-ok (checked_lines asked subtotal' lines) _ h₂ in
    let charged = checked_line-IsCharged asked _ line refl at_line in
    let (sum, small) = checked_add-lem subtotal l.line_total_paise added in
    let (others, total, count) = checked_lines-Adds asked subtotal' lines at_rest in
    let product = charged.total in
    subst (Adds asked subtotal (line ∷ lines)) (ok-injective h₃)
      ((charged, others), omega arith, omega arith)

-- What a snapshot that was built satisfies.
pub record IsFrozen (request : CreateCheckoutRequest) (approved : List AuthoritativeCheckoutLine)
    (quote : ShippingQuote) (s : CheckoutSnapshot) : Type 0 where
  pub charged : AreCharged request.lines approved s.lines
  pub counted : length s.lines ≡ length request.lines
  pub subtotal : s.subtotal_paise ≡ sum_lines s.lines
  pub shipping : quote.shipping_paise ≡ whole (pos s.shipping_paise)
  pub discount : quote.discount_paise ≡ whole (pos s.discount_paise)
  pub tax : quote.tax_paise ≡ whole (pos s.tax_paise)
  pub total : s.total_paise + s.discount_paise ≡ s.subtotal_paise + s.shipping_paise + s.tax_paise
  pub payable : 10 ≤ s.total_paise
  pub safe : s.total_paise ≤ max_safe_integer
  pub same_customer : s.customer ≡ request.customer
  pub same_address : s.shipping_address ≡ request.shipping_address

frozen_snapshot-lem :
    (request : CreateCheckoutRequest) (quote : ShippingQuote) (lines : List CheckoutSnapshotLine)
    (subtotal : ℕ) {s : CheckoutSnapshot}
    → frozen_snapshot request quote (lines, subtotal) ≡ ok s
    → (s.lines ≡ lines)
      × (s.subtotal_paise ≡ subtotal)
      × (s.total_paise + s.discount_paise ≡ s.subtotal_paise + s.shipping_paise + s.tax_paise)
      × (10 ≤ s.total_paise)
      × (s.total_paise ≤ max_safe_integer)
unfolding frozen_snapshot checked_add
frozen_snapshot-lem request quote lines subtotal h = ground arith

frozen_snapshot-quote :
    (request : CreateCheckoutRequest) (quote : ShippingQuote) (lines : List CheckoutSnapshotLine)
    (subtotal : ℕ) {s : CheckoutSnapshot}
    → frozen_snapshot request quote (lines, subtotal) ≡ ok s
    → (paise quote.shipping_paise ≡ ok s.shipping_paise)
      × (paise quote.discount_paise ≡ ok s.discount_paise)
      × (paise quote.tax_paise ≡ ok s.tax_paise)
      × (s.customer ≡ request.customer)
      × (s.shipping_address ≡ request.shipping_address)
unfolding frozen_snapshot
frozen_snapshot-quote request quote lines subtotal h = ground arith

-- A snapshot that is built charges the approved lines, one for one and in their order, and as many as
-- the request has lines: each at the price that was approved for it in rupees, in the quantity and for
-- the product that the request's line of its variant asks for, at the price that the request expects
-- where it expects one, and within the stock. Its subtotal is their sum; its shipping, discount and
-- tax are those of the quote; its total is subtotal plus shipping plus tax less the discount, exactly,
-- at least 10 paise and a safe integer; its customer and address are the request's.
pub build_checkout_snapshot-IsFrozen :
    (request : CreateCheckoutRequest) (approved : List AuthoritativeCheckoutLine)
    (quote : ShippingQuote) {s : CheckoutSnapshot}
    → build_checkout_snapshot request approved quote ≡ ok s
    → IsFrozen request approved quote s
unfolding build_checkout_snapshot
build_checkout_snapshot-IsFrozen request approved quote {s} h =
    let (u, same, h₁) =
      >>=-eq-ok (refuse_if (not (length approved == length request.lines)) _ _) _ h in
    let ((lines, subtotal), at_lines, h₂) =
      >>=-eq-ok (checked_lines request.lines 0 approved) _ h₁ in
    let (charged, sum, count) = checked_lines-Adds request.lines 0 approved at_lines in
    let lengths = refuse_if-eq-ok _ _ _ same in
    let (same_lines, same_subtotal, total, payable, safe) =
      frozen_snapshot-lem request quote lines subtotal h₂ in
    let (shipping, discount, tax, customer, address) =
      frozen_snapshot-quote request quote lines subtotal h₂ in
    record {
      charged = rw same_lines charged;
      counted = rw same_lines (count ∙ ground arith);
      subtotal = same_subtotal ∙ sum ∙ omega arith ∙ ap sum_lines (sym same_lines);
      shipping = paise-lem quote.shipping_paise shipping;
      discount = paise-lem quote.discount_paise discount;
      tax = paise-lem quote.tax_paise tax;
      total = total;
      payable = payable;
      safe = safe;
      same_customer = customer;
      same_address = address;
    }
