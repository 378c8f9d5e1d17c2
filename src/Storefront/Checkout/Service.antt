-- ===== src/Storefront/Checkout/Service.antt =====
-- src/storefront/checkout/checkout.service.ts over the repository and the snapshot, with the minimum
-- order quantities of src/storefront/catalog/moq.ts.
pub mod Fixed
pub mod Resumed
pub mod Answers
pub mod Minimum
use trademart_b.Prelude.{
  ℕ, zero, suc, ◌+◌, ◌*◌, ◌-◌, Bool, true, false, not, ◌&&◌, Option, none, some, List, [], ◌∷◌,
  String, ltb, leb, ◌===◌, if◌then◌else◌,
}
use trademart_b.Prelude.Int.{ℤ, pos, negsuc}
use trademart_b.Mongo.{Collection}
use trademart_b.Storefront.Result.{
  Result, ok, err, throw, ◌>>=◌, StorefrontError, moq_not_met, internal_error, idempotency_conflict,
  payment_pending,
}
use trademart_b.Storefront.Checkout.Types.{
  RequestedCheckoutLine, CreateCheckoutRequest, ShippingAddress, Amount, whole, inexact,
  AuthoritativeCheckoutLine, ShippingQuote, CheckoutSnapshot, CheckoutSnapshotLine,
  CheckoutSessionRecord, NewCheckoutSession,
}
use trademart_b.Storefront.Checkout.Snapshot.{max_safe_integer, build_checkout_snapshot}
use trademart_b.Storefront.Checkout.Repository.{
  find_by_idempotency_key, create, attach_razorpay_order,
}
use trademart_b.Storefront.Checkout.Repository.Steps.{Op, apply_all}

-- `meetsMinimumOrderQuantity`
unfoldable pub meets_minimum_order_quantity : ℕ → Option ℕ → Bool
meets_minimum_order_quantity quantity none = true
meets_minimum_order_quantity quantity (some minimum) =
    leb quantity max_safe_integer && leb minimum quantity

unfoldable pub assert_minimum_order_quantities : List AuthoritativeCheckoutLine → Result (Unit {0})
unfolding meets_minimum_order_quantity
assert_minimum_order_quantities [] = ok tt
assert_minimum_order_quantities (line ∷ lines) =
    let rest = assert_minimum_order_quantities lines in
    if meets_minimum_order_quantity line.quantity line.minimum_order_quantity
    then rest
    else throw moq_not_met 409

-- Arithmetic on whole numbers of either sign, and `Number.isSafeInteger` on them.
abbrev difference : ℕ → ℕ → ℤ
difference a b = if leb b a then pos (a - b) else negsuc (b - a - 1)

unfoldable pub plus : ℤ → ℤ → ℤ
plus (pos a) (pos b) = pos (a + b)
plus (pos a) (negsuc b) = difference a (b + 1)
plus (negsuc a) (pos b) = difference b (a + 1)
plus (negsuc a) (negsuc b) = negsuc (a + b + 1)

unfoldable pub times : ℤ → ℕ → ℤ
times (pos a) q = pos (a * q)
times (negsuc a) zero = pos 0
times (negsuc a) (suc q) = negsuc ((a + 1) * (q + 1) - 1)

unfoldable pub is_safe : ℤ → Bool
is_safe (pos n) = leb n max_safe_integer
is_safe (negsuc n) = ltb n max_safe_integer

-- One step of `approved.reduce`: a price that is not whole is not safe either.
add_line : ℤ → Amount → ℕ → Result ℤ
unfolding plus times is_safe
add_line sum inexact quantity = throw internal_error 500
add_line sum (whole price) quantity =
    let amount = times price quantity in
    if is_safe amount && is_safe (plus sum amount)
    then ok (plus sum amount)
    else throw internal_error 500

unfoldable pub preliminary_subtotal : ℤ → List AuthoritativeCheckoutLine → Result ℤ
unfolding add_line
preliminary_subtotal sum [] = ok sum
preliminary_subtotal sum (line ∷ lines) = do
  sum' ← add_line sum line.unit_price_paise line.quantity
  preliminary_subtotal sum' lines

pub record RazorpayOrder : Type 0 where
  pub id : String
  pub status : String

-- The summary's currency and its lines' display fields are left out.
pub record CreateCheckoutResponse : Type 0 where
  pub checkout_session_id : String
  pub status_token : String
  pub razorpay_order_id : String
  pub amount_paise : ℕ
  pub key_id : String
  pub items : List CheckoutSnapshotLine
  pub subtotal_paise : ℕ
  pub shipping_paise : ℕ
  pub discount_paise : ℕ
  pub tax_paise : ℕ
  pub total_paise : ℕ

-- What the service is given: the catalogue, the shipping policy, `randomUUID`, Razorpay and the
-- derivations of keys and tokens. `before_create` and `before_attach` are the writes of other requests
-- while this one waits for the catalogue and the quote, and while it waits for Razorpay.
pub record Surroundings : Type 0 where
  pub request_hash : CreateCheckoutRequest → String
  pub revalidate_lines : List RequestedCheckoutLine → Result (List AuthoritativeCheckoutLine)
  pub quote : List AuthoritativeCheckoutLine → ℤ → ShippingAddress → Result ShippingQuote
  pub random_uuid : String
  pub status_token_of : String → String
  pub tracking_token_of : String → String
  pub hash_token : String → String
  pub source_identifier_of : String → String
  pub key_id : String
  pub receipt_of : String → String
  pub create_or_recover_order : ℕ → String → String → Result RazorpayOrder
  pub before_create : List Op
  pub before_attach : List Op

module _ (around : Surroundings) where
  -- The session that a new checkout asks the repository to store.
  unfoldable pub new_checkout :
      CreateCheckoutRequest → String → CheckoutSnapshot → NewCheckoutSession
  new_checkout request key snapshot =
      let id = around.random_uuid in
      record {
        public_id = id;
        idempotency_key = key;
        request_hash = around.request_hash request;
        snapshot = snapshot;
        status_token_hash = around.hash_token (around.status_token_of id);
        tracking_token_hash = around.hash_token (around.tracking_token_of id);
        shopify_source_identifier = around.source_identifier_of id;
      }

  -- The steps before anything is stored.
  unfoldable pub approved_snapshot : CreateCheckoutRequest → Result CheckoutSnapshot
  unfolding assert_minimum_order_quantities preliminary_subtotal
  approved_snapshot request = do
    approved ← around.revalidate_lines request.lines
    met ← assert_minimum_order_quantities approved
    subtotal ← preliminary_subtotal (pos 0) approved
    quoted ← around.quote approved subtotal request.shipping_address
    build_checkout_snapshot request approved quoted

  unfoldable pub response_of : CheckoutSessionRecord → Option String → Result CreateCheckoutResponse
  response_of s none = err (record { code = payment_pending; status = 409; retryable = true })
  response_of s (some order) = ok (record {
    checkout_session_id = s.public_id;
    status_token = around.status_token_of s.public_id;
    razorpay_order_id = order;
    amount_paise = s.snapshot.total_paise;
    key_id = around.key_id;
    items = s.snapshot.lines;
    subtotal_paise = s.snapshot.subtotal_paise;
    shipping_paise = s.snapshot.shipping_paise;
    discount_paise = s.snapshot.discount_paise;
    tax_paise = s.snapshot.tax_paise;
    total_paise = s.snapshot.total_paise;
  })

  unfoldable pub response : CheckoutSessionRecord → Result CreateCheckoutResponse
  unfolding response_of
  response s = response_of s s.razorpay_order_id

  module _ (db : Collection CheckoutSessionRecord) where
    abbrev pub Rows : Type 0
    Rows = List CheckoutSessionRecord

    unfoldable pub attached :
        Rows × Result CheckoutSessionRecord → Rows × Result CreateCheckoutResponse
    unfolding response
    attached (rows, ok s) = (rows, response s)
    attached (rows, err e) = (rows, err e)

    unfoldable pub attach_order :
        CheckoutSessionRecord → Rows → Result RazorpayOrder → Rows × Result CreateCheckoutResponse
    unfolding attached
    attach_order s rows (err e) = (rows, err e)
    attach_order s rows (ok order) =
        attached (attach_razorpay_order db s.public_id order.id order.status rows)

    -- Razorpay is asked for an order of the session's total.
    unfoldable pub order_payment :
        CheckoutSessionRecord → Rows → Rows × Result CreateCheckoutResponse
    unfolding attach_order
    order_payment s rows = attach_order s (apply_all db around.before_attach rows) (
        around.create_or_recover_order s.snapshot.total_paise (around.receipt_of s.public_id)
          s.public_id)

    unfoldable pub resume :
        CheckoutSessionRecord → Rows → Option String → Rows × Result CreateCheckoutResponse
    unfolding order_payment response
    resume s rows none = order_payment s rows
    resume s rows (some order) = (rows, response s)

    -- A session that is stored under the key is answered only for the same request.
    unfoldable pub answer_session :
        String → CheckoutSessionRecord → Rows → Rows × Result CreateCheckoutResponse
    unfolding resume
    answer_session hash s rows =
        if not (s.request_hash === hash)
        then (rows, throw idempotency_conflict 409)
        else resume s rows s.razorpay_order_id

    unfoldable pub opened :
        String → Rows × Result CheckoutSessionRecord → Rows × Result CreateCheckoutResponse
    unfolding answer_session
    opened hash (rows, ok s) = answer_session hash s rows
    opened hash (rows, err e) = (rows, err e)

    unfoldable pub open_checkout :
        CreateCheckoutRequest
        → String
        → Rows
        → Result CheckoutSnapshot
        → Rows × Result CreateCheckoutResponse
    unfolding opened new_checkout
    open_checkout request key rows (err e) = (rows, err e)
    open_checkout request key rows (ok snapshot) =
        opened (around.request_hash request) (create db (new_checkout request key snapshot) rows)

    unfoldable pub create_found :
        CreateCheckoutRequest
        → String
        → Rows
        → Option CheckoutSessionRecord
        → Rows × Result CreateCheckoutResponse
    unfolding open_checkout answer_session approved_snapshot
    create_found request key rows (some s) = answer_session (around.request_hash request) s rows
    create_found request key rows none =
        open_checkout request key (apply_all db around.before_create rows)
          (approved_snapshot request)

    unfoldable pub create_checkout :
        CreateCheckoutRequest → String → Rows → Rows × Result CreateCheckoutResponse
    unfolding create_found find_by_idempotency_key
    create_checkout request key rows =
        create_found request key rows (find_by_idempotency_key db key rows)
