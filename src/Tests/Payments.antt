-- ===== src/Tests/Payments.antt =====
-- A payment that is verified, a notice, and a late observation.
use trademart_b.Prelude.{
  ◌≡◌, ◌⊎◌, refl, Bool, true, none, some, [], ◌∷◌, String, All, ◌===◌, arith, all_codes,
}
use trademart_b.Mongo.Listed.{listed}
use trademart_b.Storefront.Result.{Result, ok}
use trademart_b.Storefront.Checkout.Types.{CheckoutSessionRecord}
use trademart_b.Storefront.Checkout.Repository.{
  find_by_public_id, mark_paid, paid_filter, paid_update, claim_order, claimable, claim_update,
  release_order_for_retry, release_filter, release_update,
}
use trademart_b.Storefront.Orders.{Ensured, threw, process_one}
use trademart_b.Storefront.Payments.Attempts.{
  Attempt, AttemptStatus, captured, failed, paid, webhook, observe, upsert_all, Reached,
  observe-Reached,
}
use trademart_b.Storefront.Payments.Service.{
  matches_snapshot, is_checkout_id, is_provider_id, after_prefix, public_status, public_status_of,
  order_pending, verify_found, verify_ordered, verify_session, settle, mark_captured,
  observe_payment, RazorpayPayment, Around, VerifyPaymentInput, WebhookNotice, World,
  process_webhook, verify, payment_status,
}
use trademart_b.Storefront.Payments.Service.Verify.{IsProof, verify-IsProof}
use trademart_b.Storefront.Payments.Service.Notices.{IsSettling, process_webhook-cases}
use trademart_b.Tests.Data.{session}

abbrev attempt : AttemptStatus → Attempt
attempt status = record {
  checkout_public_id = "c1";
  razorpay_order_id = "order_1";
  razorpay_payment_id = "pay_1";
  status = status;
  amount_paise = 10500;
  captured = true;
  source = webhook;
  provider_observed_at = 100;
  failure_code = none;
}

observe-Reached_example :
    All
      (Reached (listed Attempt) "pay_1" 2)
      (observe
        (listed Attempt)
        (upsert_all (listed Attempt) (attempt paid ∷ []))
        (attempt failed)
        (attempt captured ∷ [])).0
observe-Reached_example =
    observe-Reached (listed Attempt) "pay_1" 2 (attempt failed) (attempt paid ∷ [])
      (attempt captured ∷ []) (λ h. h.0 refl) ((λ e. omega arith), tt) ((λ e. omega arith), tt)

abbrev checkout_id : String
checkout_id = "0f8fad5b-d9cb-469f-a165-70867728950e"

abbrev payment : RazorpayPayment
payment = record {
  id = "pay_AbC123";
  order_id = some "order_AbC123";
  amount = 10500;
  currency = "INR";
  status = "captured";
  captured = true;
  created_at = 4000;
  error_code = none;
}

abbrev input : VerifyPaymentInput
input = record {
  checkout_session_id = checkout_id;
  razorpay_order_id = "order_AbC123";
  razorpay_payment_id = "pay_AbC123";
  razorpay_signature = "signed";
}

fetch : String → Result RazorpayPayment
fetch id = ok payment

signature_holds : String → String → String → Bool
signature_holds order id signature = signature === "signed"

ensure_order : CheckoutSessionRecord → Ensured
ensure_order s = threw "SHOPIFY_TIMEOUT" "timeout"

derive : String → String
derive id = id

abbrev world : World
world = record { sessions = session checkout_id "order_AbC123" ∷ []; attempts = [] }

abbrev around : Around
around = record {
  noticed_at = 5000;
  marked_at = 5001;
  claimed_at = 5002;
  answered_at = 5003;
  refund_seen_at = 5004;
  refunded_at = 5005;
  observing = λ rows. rows;
  marking = λ rows. rows;
  ordering = λ rows. rows;
  releasing = λ rows. rows;
}

abbrev notice : WebhookNotice
notice = record {
  event_type = "payment.captured";
  razorpay_order_id = some "order_AbC123";
  razorpay_payment_id = some "pay_AbC123";
  amount_paise = some 9000;
  currency = some "INR";
  status = some "captured";
  captured = true;
  failure_code = none;
}

process_webhook-cases_example :
    ((process_webhook
        (listed CheckoutSessionRecord)
        (listed Attempt)
        fetch
        signature_holds
        ensure_order
        derive
        derive
        around
        notice
        world).0.sessions
      ≡ world.sessions)
    ⊎ IsSettling (listed CheckoutSessionRecord) around.noticed_at notice world
process_webhook-cases_example =
    process_webhook-cases (listed CheckoutSessionRecord) (listed Attempt) fetch signature_holds
      ensure_order derive derive around notice world

verified :
    (verify
      (listed CheckoutSessionRecord)
      (listed Attempt)
      fetch
      signature_holds
      ensure_order
      derive
      derive
      around
      input
      world).1
    ≡ ok (record {
      checkout_session_id = checkout_id;
      status = order_pending;
      amount_paid_paise = 10500;
      order_number = none;
      tracking_token = some checkout_id;
    })
unfolding verify verify_found verify_ordered verify_session settle mark_captured observe_payment
    matches_snapshot payment_status is_checkout_id is_provider_id all_codes after_prefix fetch
    signature_holds ensure_order derive find_by_public_id listed ◌===◌ mark_paid paid_filter
    paid_update claim_order claimable claim_update release_order_for_retry release_filter
    release_update public_status public_status_of observe process_one
verified = refl

verify-IsProof_example :
    (s : CheckoutSessionRecord) × (find_by_public_id
        (listed CheckoutSessionRecord)
        checkout_id
        world.sessions
      ≡ some s)
    × IsProof fetch signature_holds input s
verify-IsProof_example =
    verify-IsProof (listed CheckoutSessionRecord) (listed Attempt) fetch signature_holds
      ensure_order derive derive around input world
      {r = record {
        checkout_session_id = checkout_id;
        status = order_pending;
        amount_paid_paise = 10500;
        order_number = none;
        tracking_token = some checkout_id;
      }}
      verified
