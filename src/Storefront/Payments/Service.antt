-- ===== src/Storefront/Payments/Service.antt =====
-- src/storefront/payments/payment.service.ts. The methods run over the stored sessions and attempts, and
-- what they wrote stays written where they throw. Razorpay, the Shopify port, the HMAC test and the
-- token derivation are arguments; `now` is what `new Date()` answers.
pub mod Verify
pub mod Notices
use trademart_b.Prelude.{
  ℕ, zero, suc, ◌+◌, Bool, true, false, not, ◌||◌, ◌&&◌, Option, none, some, List, [], ◌∷◌, String,
  leb, ◌==◌, ◌===◌, holds, is_null, if◌then◌else◌, length, codes, all_codes, between,
}
use trademart_b.Mongo.{Collection}
use trademart_b.Storefront.Result.{
  Result, ok, err, StorefrontError, ErrorCode, validation_error, payment_mismatch,
  payment_invalid_signature, payment_failed, tracking_not_found,
}
use trademart_b.Storefront.Result
use trademart_b.Storefront.Checkout.Types.{CheckoutStatus, order_created, CheckoutSessionRecord}
use trademart_b.Storefront.Checkout.Repository.{
  find_by_public_id, find_by_razorpay_order_id, find_by_status_token_hash, mark_paid, mark_refunded,
}
use trademart_b.Storefront.Orders.{Ensured, process_one}
use trademart_b.Storefront.Payments.Attempts.{
  Attempt, AttemptStatus, Source, browser_verify, webhook, observe,
}

pub record RazorpayPayment : Type 0 where
  pub id : String
  pub order_id : Option String
  pub amount : ℕ
  pub currency : String
  pub status : String
  pub captured : Bool
  pub created_at : ℕ
  pub error_code : Option String

pub record VerifyPaymentInput : Type 0 where
  pub checkout_session_id : String
  pub razorpay_order_id : String
  pub razorpay_payment_id : String
  pub razorpay_signature : String

pub data PublicStatus : Type 0 where
  payment_pending paid order_pending complete refunded : PublicStatus

pub record PaymentStatusResponse : Type 0 where
  pub checkout_session_id : String
  pub status : PublicStatus
  pub amount_paid_paise : ℕ
  pub order_number : Option String
  pub tracking_token : Option String

-- The fields of a `SafeRazorpayWebhook`.
pub record WebhookNotice : Type 0 where
  pub event_type : String
  pub razorpay_order_id : Option String
  pub razorpay_payment_id : Option String
  pub amount_paise : Option ℕ
  pub currency : Option String
  pub status : Option String
  pub captured : Bool
  pub failure_code : Option String

pub data Handled : Type 0 where
  processed ignored : Handled

unfoldable pub payment_status : RazorpayPayment → AttemptStatus
payment_status p =
    if (p.status === "captured") && p.captured
    then AttemptStatus.captured
    else (if p.status === "authorized"
        then AttemptStatus.authorized
        else (if p.status === "refunded" then AttemptStatus.refunded else AttemptStatus.failed))

-- `payment.orderId === session.razorpayOrderId`: two nulls are equal.
abbrev same_order : Option String → Option String → Bool
same_order none b = is_null b
same_order (some a) b = holds b a

unfoldable pub matches_snapshot : CheckoutSessionRecord → RazorpayPayment → Bool
matches_snapshot s p =
    same_order p.order_id s.razorpay_order_id
    && (p.amount == s.snapshot.total_paise)
    && (p.currency === "INR")

unfoldable pub public_status_of : CheckoutStatus → Option ℕ → PublicStatus
public_status_of CheckoutStatus.refunded paid_at = PublicStatus.refunded
public_status_of order_created paid_at = complete
public_status_of _ (some t) = order_pending
public_status_of _ none = payment_pending

-- `derive` is `deriveTrackingToken` with the service's secret.
unfoldable pub public_status : (String → String) → CheckoutSessionRecord → PaymentStatusResponse
unfolding public_status_of
public_status derive s = record {
  checkout_session_id = s.public_id;
  status = public_status_of s.status s.paid_at;
  amount_paid_paise = elim s.paid_at [ none ↦ 0 | some t ↦ s.snapshot.total_paise ];
  order_number = s.shopify_order_name;
  tracking_token = elim s.paid_at [ none ↦ none | some t ↦ some (derive s.public_id) ];
}

-- /^[0-9a-f-]{36}$/i
unfoldable pub is_checkout_id : String → Bool
unfolding all_codes
is_checkout_id s =
    (length (codes s) == 36)
    && all_codes
        (λ c. between b'0' b'9' c || between b'a' b'f' c || between b'A' b'F' c || c == b'-')
        (codes s)

unfoldable pub after_prefix : List ℕ → List ℕ → Option (List ℕ)
after_prefix [] cs = some cs
after_prefix (p ∷ ps) [] = none
after_prefix (p ∷ ps) (c ∷ cs) = if p == c then after_prefix ps cs else none

-- /^<prefix>[A-Za-z0-9_]{3,70}$/
unfoldable pub is_provider_id : String → String → Bool
unfolding all_codes after_prefix
is_provider_id prefix s = elim (after_prefix (codes prefix) (codes s)) [
  | none ↦ false
  | some rest ↦
      between 3 70 (length rest)
      && all_codes
          (λ c. between b'0' b'9' c || between b'a' b'z' c || between b'A' b'Z' c || c == b'_') rest
]

pub record World : Type 0 where
  pub sessions : List CheckoutSessionRecord
  pub attempts : List Attempt

-- A method that may throw, over what is stored.
abbrev pub M : Type 0 → Type 0
M A = World → World × Result A

infixl 5 ◌>>=◌ ◌>>◌
abbrev pub ◌>>=◌ : {A B : Type 0} → M A → (A → M B) → M B
◌>>=◌ m f w = elim (m w).1 [ ok a ↦ f a (m w).0 | err e ↦ ((m w).0, err e) ]

abbrev pub ◌>>◌ : {A B : Type 0} → M A → M B → M B
m >> k = m >>= λ _. k

abbrev pub pure : {A : Type 0} → A → M A
pure a w = (w, ok a)

abbrev pub throw : {A : Type 0} → ErrorCode → ℕ → M A
throw code status w = (w, Result.throw code status)

abbrev pub refuse_if : Bool → ErrorCode → ℕ → M (Unit {0})
refuse_if test code status w = (w, Result.refuse_if test code status)

-- The readings of the clock, and what the others make of what is stored while a method waits.
pub record Around : Type 0 where
  -- `Date.now()` of the payment that a notice stands for
  pub noticed_at : ℕ
  -- in `markPaid`, in `claimOrder` and after an attempt to order that failed
  pub marked_at : ℕ
  pub claimed_at : ℕ
  pub answered_at : ℕ
  -- of a refund, as observed and as marked
  pub refund_seen_at : ℕ
  pub refunded_at : ℕ
  -- between the search and the upsert of `observe`
  pub observing : List Attempt → List Attempt
  -- between `observe` and `markPaid` or `markRefunded`
  pub marking : List CheckoutSessionRecord → List CheckoutSessionRecord
  -- in `processOne`, as Orders has them
  pub ordering : List CheckoutSessionRecord → List CheckoutSessionRecord
  pub releasing : List CheckoutSessionRecord → List CheckoutSessionRecord

supported : String → Bool
supported event =
    (event === "payment.authorized")
    || (event === "payment.captured")
    || (event === "payment.failed")
    || (event === "payment.refunded")
    || (event === "order.paid")

-- The payment that a notice of an order and a payment stands for, built at `now`.
unfoldable pub payment_of : ℕ → WebhookNotice → String → String → ℕ → String → RazorpayPayment
payment_of now event order payment amount currency = record {
  id = payment;
  order_id = some order;
  amount = amount;
  currency = currency;
  status = elim event.status [
    | some s ↦ s
    | none ↦ if event.event_type === "order.paid" then "captured" else "unknown"
  ];
  captured = event.captured || (event.event_type === "order.paid");
  created_at = now;
  error_code = event.failure_code;
}

module _ (db : Collection CheckoutSessionRecord) (attempts_db : Collection Attempt)
    (fetch_payment : String → Result RazorpayPayment)
    (signature_holds : String → String → String → Bool)
    (ensure_order : CheckoutSessionRecord → Ensured)
    (derive_tracking_token hash_tracking_token : String → String) (around : Around) where
  abbrev on_attempts : {A : Type 0} → (List Attempt → List Attempt × Result A) → M A
  on_attempts f w = let (rows, r) = f w.attempts in (record w { attempts = rows }, r)

  abbrev on_sessions :
      {A : Type 0} → (List CheckoutSessionRecord → List CheckoutSessionRecord × Result A) → M A
  on_sessions f w = let (rows, r) = f w.sessions in (record w { sessions = rows }, r)

  status : String → String → M PaymentStatusResponse
  status checkout_id status_token = do
    refuse_if (not (is_checkout_id checkout_id)) tracking_not_found 404
    λ w.
        elim (find_by_status_token_hash db checkout_id (hash_tracking_token status_token)
          w.sessions) [
            | none ↦ throw tracking_not_found 404 w
            | some s ↦ pure (public_status derive_tracking_token s) w
          ]

  -- `session.razorpayOrderId!` where `order` is that field
  unfoldable pub observe_payment :
      String → CheckoutSessionRecord → RazorpayPayment → Source → M (Unit {0})
  observe_payment order s p source = on_attempts (
      observe attempts_db around.observing (record {
        checkout_public_id = s.public_id;
        razorpay_order_id = order;
        razorpay_payment_id = p.id;
        status = payment_status p;
        amount_paise = p.amount;
        captured = p.captured;
        source = source;
        provider_observed_at = p.created_at;
        failure_code = p.error_code;
      }))

  -- `(await findByPublicId(id)) ?? paid`
  abbrev or_paid : Option CheckoutSessionRecord → CheckoutSessionRecord → CheckoutSessionRecord
  or_paid none marked = marked
  or_paid (some s) marked = s

  unfoldable pub mark_captured :
      String → CheckoutSessionRecord → RazorpayPayment → Source → M CheckoutSessionRecord
  unfolding matches_snapshot observe_payment
  mark_captured order s p source = do
    refuse_if (not (matches_snapshot s p)) payment_mismatch 409
    observe_payment order s p source
    marked ← on_sessions (λ rows.
        mark_paid db s.public_id order p.id p.created_at around.marked_at (around.marking rows))
    on_sessions (λ rows. (
      (process_one db ensure_order around.ordering around.releasing (some s.public_id)
          around.claimed_at around.answered_at rows).0,
      ok tt,
    ))
    λ w. pure (or_paid (find_by_public_id db marked.public_id w.sessions) marked) w

  -- The end of `verify`: what it answers for a fetched payment that matches the snapshot.
  unfoldable pub settle : String → CheckoutSessionRecord → RazorpayPayment → M PaymentStatusResponse
  unfolding mark_captured observe_payment
  settle order s p =
      if (p.status === "authorized") && not p.captured
      then (do
        observe_payment order s p browser_verify
        λ w. (w, err (record { code = ErrorCode.payment_pending; status = 202; retryable = true })))
      else (if not (p.status === "captured") || not p.captured
          then (do observe_payment order s p browser_verify; throw payment_failed 402)
          else (do
            marked ← mark_captured order s p browser_verify
            pure (public_status derive_tracking_token marked)))

  -- `verify` once the session is found and its order is the browser's.
  unfoldable pub verify_session :
      VerifyPaymentInput → String → CheckoutSessionRecord → M PaymentStatusResponse
  unfolding settle
  verify_session input order s = do
    refuse_if (not (signature_holds order input.razorpay_payment_id input.razorpay_signature))
        payment_invalid_signature 401
    p ← λ w. (w, fetch_payment input.razorpay_payment_id)
    refuse_if (not (matches_snapshot s p)) payment_mismatch 409
    settle order s p

  unfoldable pub verify_ordered :
      VerifyPaymentInput → CheckoutSessionRecord → Option String → M PaymentStatusResponse
  unfolding verify_session
  verify_ordered input s none = throw payment_mismatch 409
  verify_ordered input s (some order) =
      if not (order === input.razorpay_order_id)
      then throw payment_mismatch 409
      else verify_session input order s

  unfoldable pub verify_found :
      VerifyPaymentInput → Option CheckoutSessionRecord → M PaymentStatusResponse
  unfolding verify_ordered
  verify_found input none = throw payment_mismatch 409
  verify_found input (some s) = verify_ordered input s s.razorpay_order_id

  unfoldable pub verify : VerifyPaymentInput → M PaymentStatusResponse
  unfolding verify_found is_checkout_id is_provider_id
  verify input = do
    refuse_if
        (not (is_checkout_id input.checkout_session_id)
          || not (is_provider_id "order_" input.razorpay_order_id)
          || not (is_provider_id "pay_" input.razorpay_payment_id))
        validation_error 400
    λ w. verify_found input (find_by_public_id db input.checkout_session_id w.sessions) w

  refund : String → CheckoutSessionRecord → RazorpayPayment → M Handled
  refund order s p = do
    on_attempts (
        observe attempts_db around.observing (record {
          checkout_public_id = s.public_id;
          razorpay_order_id = order;
          razorpay_payment_id = p.id;
          status = AttemptStatus.refunded;
          amount_paise = p.amount;
          captured = true;
          source = webhook;
          provider_observed_at = around.refund_seen_at;
          failure_code = none;
        }))
    (if holds s.razorpay_payment_id p.id
        then (do
          on_sessions
              (λ rows. mark_refunded db s.public_id p.id around.refunded_at (around.marking rows))
          pure processed)
        else pure processed)

  -- `processWebhook` once the session and the payment are known.
  pub reconcile : String → String → CheckoutSessionRecord → RazorpayPayment → M Handled
  unfolding matches_snapshot observe_payment refund mark_captured
  reconcile event order s p =
      if not (matches_snapshot s p)
      then pure ignored
      else (if event === "payment.failed"
          then (do observe_payment order s p webhook; pure processed)
          else (if (event === "payment.refunded") || (p.status === "refunded")
              then refund order s p
              else (if (p.status === "captured") && p.captured
                  then (do mark_captured order s p webhook; pure processed)
                  else (do observe_payment order s p webhook; pure processed))))

  reconcile_found :
      WebhookNotice → String → RazorpayPayment → Option CheckoutSessionRecord → M Handled
  unfolding reconcile
  reconcile_found event order p none = pure ignored
  reconcile_found event order p (some s) = reconcile event.event_type order s p

  -- A notice with all of the four fields; an empty text counts as missing.
  complete_notice :
      WebhookNotice → Option String → Option String → Option ℕ → Option String → M Handled
  unfolding reconcile_found payment_of
  complete_notice event (some order) (some payment) (some amount) (some currency) =
      if (order === "") || (payment === "") || (currency === "") then pure ignored else λ w.
      reconcile_found event order (payment_of around.noticed_at event order payment amount currency)
        (find_by_razorpay_order_id db order w.sessions) w
  complete_notice event _ _ _ _ = pure ignored

  pub process_webhook : WebhookNotice → M Handled
  unfolding complete_notice supported
  process_webhook event =
      if not (supported event.event_type)
      then pure ignored
      else complete_notice event event.razorpay_order_id event.razorpay_payment_id
          event.amount_paise event.currency
