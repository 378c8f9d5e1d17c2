-- ===== src/Storefront/Payments/Service/Notices.antt =====
-- What a provider's notice must say before it changes a stored session.
use trademart_b.Prelude.{
  ℕ, ◌≡◌, refl, Bool, true, not, ◌||◌, ◌&&◌, Option, none, some, String, arith, ===_iff, ◌===◌, ◌⊎◌,
  inl, inr, ◌∙◌, ap,
}
use trademart_b.Mongo.{Collection}
use trademart_b.Storefront.Result.{Result}
use trademart_b.Storefront.Checkout.Types.{CheckoutSessionRecord}
use trademart_b.Storefront.Checkout.Repository.{find_by_razorpay_order_id}
use trademart_b.Storefront.Orders.{Ensured}
use trademart_b.Storefront.Payments.Attempts.{Attempt}
use trademart_b.Storefront.Payments.Service.{
  RazorpayPayment, Around, WebhookNotice, World, M, Handled, matches_snapshot, reconcile,
  reconcile_found, complete_notice, payment_of, process_webhook, observe_payment,
}

-- The notice reports a captured or a refunded payment.
abbrev pub reports_money : WebhookNotice → RazorpayPayment → Bool
reports_money event p =
    not (event.event_type === "payment.failed")
    && ((event.event_type === "payment.refunded")
        || (p.status === "refunded")
        || ((p.status === "captured") && p.captured))

-- The notice is of the session's own payment: its order, its total, in rupees.
pub record IsSettling (db : Collection CheckoutSessionRecord) (now : ℕ) (event : WebhookNotice)
    (w : World) : Type 0 where
  pub order : String
  pub payment : String
  pub session : CheckoutSessionRecord
  pub named : event.razorpay_order_id ≡ some order
  pub found : find_by_razorpay_order_id db order w.sessions ≡ some session
  pub same_amount : event.amount_paise ≡ some session.snapshot.total_paise
  pub rupees : event.currency ≡ some "INR"
  pub money :
      reports_money event (payment_of now event order payment session.snapshot.total_paise "INR")
      ≡ true

module _ (db : Collection CheckoutSessionRecord) (attempts_db : Collection Attempt)
    (fetch_payment : String → Result RazorpayPayment)
    (signature_holds : String → String → String → Bool)
    (ensure_order : CheckoutSessionRecord → Ensured)
    (derive_tracking_token hash_tracking_token : String → String) (around : Around) where
  abbrev reconciled : String → String → CheckoutSessionRecord → RazorpayPayment → M Handled
  reconciled =
      reconcile db attempts_db fetch_payment signature_holds ensure_order derive_tracking_token
        hash_tracking_token around

  reconcile-cases :
      (event : WebhookNotice) (order : String) (s : CheckoutSessionRecord) (p : RazorpayPayment)
      (w : World)
      → ((reconciled event.event_type order s p w).0.sessions ≡ w.sessions)
        ⊎ ((matches_snapshot s p ≡ true) × (reports_money event p ≡ true))
  unfolding reconcile observe_payment
  reconcile-cases event order s p w = ground arith

  found-cases :
      (event : WebhookNotice) (order payment : String) (amount : ℕ) (currency : String)
      (found : Option CheckoutSessionRecord) (w : World)
      → event.razorpay_order_id ≡ some order
      → event.amount_paise ≡ some amount
      → event.currency ≡ some currency
      → find_by_razorpay_order_id db order w.sessions ≡ found
      → ((reconcile_found db attempts_db fetch_payment signature_holds ensure_order
            derive_tracking_token hash_tracking_token around event order
            (payment_of around.noticed_at event order payment amount currency)
            found
            w).0.sessions
          ≡ w.sessions)
        ⊎ IsSettling db around.noticed_at event w
  unfolding reconcile_found matches_snapshot payment_of
  found-cases event order payment amount currency none w o a c f = inl refl
  found-cases event order payment amount currency (some s) w o a c f =
      elim (reconcile-cases event order s
        (payment_of around.noticed_at event order payment amount currency) w) [
          | inl same ↦ inl same
          | inr (m, money) ↦ inr (record {
            order = order;
            payment = payment;
            session = s;
            named = o;
            found = f;
            same_amount = a ∙ ap some (ground arith);
            rupees = c ∙ ap some ((===_iff currency "INR").0 (ground arith));
            money = money;
          })
        ]

  named-cases :
      (event : WebhookNotice) (order payment : Option String) (amount : Option ℕ)
      (currency : Option String) (w : World)
      → event.razorpay_order_id ≡ order
      → event.amount_paise ≡ amount
      → event.currency ≡ currency
      → ((complete_notice db attempts_db fetch_payment signature_holds ensure_order
            derive_tracking_token hash_tracking_token around event order payment amount currency
            w).0.sessions
          ≡ w.sessions)
        ⊎ IsSettling db around.noticed_at event w
  unfolding complete_notice
  named-cases event none payment amount currency w o a c = inl refl
  named-cases event (some order) none amount currency w o a c = inl refl
  named-cases event (some order) (some payment) none currency w o a c = inl refl
  named-cases event (some order) (some payment) (some amount) none w o a c = inl refl
  named-cases event (some order) (some payment) (some amount) (some currency) w o a c =
      elim (found-cases event order payment amount currency
        (find_by_razorpay_order_id db order w.sessions) w o a c refl) [
          | inl same ↦ inl (ground arith)
          | inr settling ↦ inr settling
        ]

  -- A notice of the provider leaves the stored sessions as they are, unless it names the order of a
  -- stored session, carries that session's total in rupees, is not a failure, and reports a captured
  -- or a refunded payment.
  pub process_webhook-cases :
      (event : WebhookNotice) (w : World)
      → ((process_webhook db attempts_db fetch_payment signature_holds ensure_order
            derive_tracking_token hash_tracking_token around event w).0.sessions
          ≡ w.sessions)
        ⊎ IsSettling db around.noticed_at event w
  unfolding process_webhook
  process_webhook-cases event w =
      elim (named-cases event event.razorpay_order_id event.razorpay_payment_id event.amount_paise
        event.currency w refl refl refl) [
          | inl same ↦ inl (ground arith)
          | inr settling ↦ inr settling
        ]
