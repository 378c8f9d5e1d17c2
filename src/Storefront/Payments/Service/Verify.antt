-- ===== src/Storefront/Payments/Service/Verify.antt =====
-- What a payment must be for its checkout to be answered as paid.
use trademart_b.Prelude.{
  ℕ, ◌≡◌, refl, sym, Bool, true, false, not, Option, none, some, String, arith, ===_iff, ◌===◌,
  Bool-cases, inl, inr, ◌∙◌, ap, if◌then◌else◌,
}
use trademart_b.Mongo.{Collection}
use trademart_b.Storefront.Result.{
  Result, ok, err, ErrorCode, payment_invalid_signature, payment_mismatch, validation_error,
}
use trademart_b.Storefront.Checkout.Types.{CheckoutSessionRecord}
use trademart_b.Storefront.Checkout.Repository.{find_by_public_id}
use trademart_b.Storefront.Orders.{Ensured}
use trademart_b.Storefront.Payments.Attempts.{Attempt}
use trademart_b.Storefront.Payments.Service.{
  RazorpayPayment, Around, VerifyPaymentInput, PaymentStatusResponse, World, matches_snapshot,
  verify_session, verify_found, verify_ordered, verify, settle, same_order, M, ◌>>=◌, ◌>>◌,
  refuse_if, throw,
}

-- What the provider must say of a payment for the checkout to count as paid.
pub record IsProof (fetch_payment : String → Result RazorpayPayment)
    (signature_holds : String → String → String → Bool) (input : VerifyPaymentInput)
    (s : CheckoutSessionRecord) : Type 0 where
  pub payment : RazorpayPayment
  pub order : s.razorpay_order_id ≡ some input.razorpay_order_id
  pub signed :
      signature_holds input.razorpay_order_id input.razorpay_payment_id input.razorpay_signature
      ≡ true
  pub fetched : fetch_payment input.razorpay_payment_id ≡ ok payment
  pub same_order : payment.order_id ≡ some input.razorpay_order_id
  pub same_amount : payment.amount ≡ s.snapshot.total_paise
  pub rupees : payment.currency ≡ "INR"
  pub captured : (payment.status ≡ "captured") × (payment.captured ≡ true)

-- A check that let the method go on.
refused-eq-ok :
    {B : Type 0} (t : Bool) (c : ErrorCode) (n : ℕ) (k : M B) (w : World) {b : B}
    → ((refuse_if t c n >> k) w).1 ≡ ok b
    → (t ≡ false) × ((k w).1 ≡ ok b)
refused-eq-ok true c n k w h = absurd (cc)
refused-eq-ok false c n k w h = (refl, h)

same_order-eq :
    (o : Option String) (order : String) → same_order o (some order) ≡ true → o ≡ some order
same_order-eq none order h = absurd (cc)
same_order-eq (some a) order h = ap some (sym ((===_iff order a).0 h))

pub matches_snapshot-lem :
    (s : CheckoutSessionRecord) (p : RazorpayPayment) {order : String}
    → s.razorpay_order_id ≡ some order
    → matches_snapshot s p ≡ true
    → (p.order_id ≡ some order) × (p.amount ≡ s.snapshot.total_paise) × (p.currency ≡ "INR")
unfolding matches_snapshot
matches_snapshot-lem s p {order} o h = (
  same_order-eq p.order_id order (rw (← o) (ground arith)),
  ground arith,
  (===_iff p.currency "INR").0 (ground arith),
)

module _ (db : Collection CheckoutSessionRecord) (attempts_db : Collection Attempt)
    (fetch_payment : String → Result RazorpayPayment)
    (signature_holds : String → String → String → Bool)
    (ensure_order : CheckoutSessionRecord → Ensured)
    (derive_tracking_token hash_tracking_token : String → String) (around : Around) where
  abbrev settled : String → CheckoutSessionRecord → RazorpayPayment → M PaymentStatusResponse
  settled =
      settle db attempts_db fetch_payment signature_holds ensure_order derive_tracking_token
        hash_tracking_token around

  abbrev answered : VerifyPaymentInput → String → CheckoutSessionRecord → M PaymentStatusResponse
  answered =
      verify_session db attempts_db fetch_payment signature_holds ensure_order derive_tracking_token
        hash_tracking_token around

  captured-eq :
      (input : VerifyPaymentInput) (order : String) (s : CheckoutSessionRecord)
      (p : RazorpayPayment) (w : World) {r : PaymentStatusResponse}
      → (settled order s p w).1 ≡ ok r
      → (p.status ≡ "captured") × (p.captured ≡ true)
  unfolding settle
  captured-eq input order s p w h = ((===_iff p.status "captured").0 (ground arith), ground arith)

  -- What the checks after the fetch leave of an answer.
  fetched-IsProof :
      (input : VerifyPaymentInput) (order : String) (s : CheckoutSessionRecord)
      (p : RazorpayPayment) (w : World) {r : PaymentStatusResponse}
      → s.razorpay_order_id ≡ some order
      → order ≡ input.razorpay_order_id
      → signature_holds order input.razorpay_payment_id input.razorpay_signature ≡ true
      → fetch_payment input.razorpay_payment_id ≡ ok p
      → ((refuse_if (not (matches_snapshot s p)) payment_mismatch 409 >> settled order s p) w).1
        ≡ ok r
      → IsProof fetch_payment signature_holds input s
  fetched-IsProof input order s p w o q sig f h =
      let (m, k) =
        refused-eq-ok (not (matches_snapshot s p)) payment_mismatch 409 (settled order s p) w h in
      let (same, amount, rupees) =
        matches_snapshot-lem s p o (elim (Bool-cases (matches_snapshot s p)) [
          | inl t ↦ t
          | inr t ↦ absurd (let n = rw t at m in cc)
        ]) in
      record {
        payment = p;
        order = o ∙ ap some q;
        signed =
            ap (λ x. signature_holds x input.razorpay_payment_id input.razorpay_signature) (sym q)
            ∙ sig;
        fetched = f;
        same_order = same ∙ ap some q;
        same_amount = amount;
        rupees = rupees;
        captured = captured-eq input order s p w k;
      }

  -- The rest of `verify_session` after the signature, over what the fetch answers.
  answer-IsProof :
      (input : VerifyPaymentInput) (order : String) (s : CheckoutSessionRecord)
      (fetched : Result RazorpayPayment) (w : World) {r : PaymentStatusResponse}
      → s.razorpay_order_id ≡ some order
      → order ≡ input.razorpay_order_id
      → signature_holds order input.razorpay_payment_id input.razorpay_signature ≡ true
      → fetch_payment input.razorpay_payment_id ≡ fetched
      → (((λ v. (v, fetched)) >>= λ p.
            (refuse_if (not (matches_snapshot s p)) payment_mismatch 409 >> settled order s p))
          w).1
        ≡ ok r
      → IsProof fetch_payment signature_holds input s
  answer-IsProof input order s (err e) w o q sig f h = absurd (cc)
  answer-IsProof input order s (ok p) w o q sig f h = fetched-IsProof input order s p w o q sig f h

  session-IsProof :
      (input : VerifyPaymentInput) (order : String) (s : CheckoutSessionRecord) (w : World)
      {r : PaymentStatusResponse}
      → s.razorpay_order_id ≡ some order
      → order ≡ input.razorpay_order_id
      → (answered input order s w).1 ≡ ok r
      → IsProof fetch_payment signature_holds input s
  unfolding verify_session
  session-IsProof input order s w o q h =
      let (sig, k) =
        refused-eq-ok
          (not (signature_holds order input.razorpay_payment_id input.razorpay_signature))
          payment_invalid_signature 401
          ((λ v. (v, fetch_payment input.razorpay_payment_id)) >>= λ p.
            (refuse_if (not (matches_snapshot s p)) payment_mismatch 409 >> settled order s p))
          w h in
      answer-IsProof input order s (fetch_payment input.razorpay_payment_id) w o q (ground arith)
        refl k

  -- `verify_found` for a session whose order was compared with the browser's.
  compared-IsProof :
      (input : VerifyPaymentInput) (order : String) (s : CheckoutSessionRecord) (b : Bool)
      (w : World) {r : PaymentStatusResponse}
      → s.razorpay_order_id ≡ some order
      → (order === input.razorpay_order_id) ≡ b
      → ((if not b then throw payment_mismatch 409 else answered input order s) w).1 ≡ ok r
      → IsProof fetch_payment signature_holds input s
  compared-IsProof input order s true w o e h =
      session-IsProof input order s w o ((===_iff order input.razorpay_order_id).0 e) h
  compared-IsProof input order s false w o e h = absurd (cc)

  ordered-IsProof :
      (input : VerifyPaymentInput) (s : CheckoutSessionRecord) (o : Option String) (w : World)
      {r : PaymentStatusResponse}
      → s.razorpay_order_id ≡ o
      → (verify_ordered db attempts_db fetch_payment signature_holds ensure_order
          derive_tracking_token hash_tracking_token around input s o w).1
        ≡ ok r
      → IsProof fetch_payment signature_holds input s
  unfolding verify_ordered
  ordered-IsProof input s none w e h = absurd (cc)
  ordered-IsProof input s (some order) w e h =
      compared-IsProof input order s (order === input.razorpay_order_id) w e refl h

  found-IsProof :
      (input : VerifyPaymentInput) (found : Option CheckoutSessionRecord) (w : World)
      {r : PaymentStatusResponse}
      → (verify_found db attempts_db fetch_payment signature_holds ensure_order
          derive_tracking_token hash_tracking_token around input found w).1
        ≡ ok r
      → (s : CheckoutSessionRecord) × (found ≡ some s)
        × IsProof fetch_payment signature_holds input s
  unfolding verify_found
  found-IsProof input none w h = absurd (cc)
  found-IsProof input (some s) w h = (s, refl, ordered-IsProof input s s.razorpay_order_id w refl h)

  -- If `verify` answers with a status, then the checkout exists, it has the order that the browser
  -- named, the browser's signature holds for that order and payment, and the payment that the
  -- provider answers for that id is a captured one of this order, for the total of the snapshot, in
  -- rupees.
  pub verify-IsProof :
      (input : VerifyPaymentInput) (w : World) {r : PaymentStatusResponse}
      → (verify db attempts_db fetch_payment signature_holds ensure_order derive_tracking_token
          hash_tracking_token around input w).1
        ≡ ok r
      → (s : CheckoutSessionRecord) × (find_by_public_id db input.checkout_session_id w.sessions
          ≡ some s)
        × IsProof fetch_payment signature_holds input s
  unfolding verify
  verify-IsProof input w h =
      let (checked, k) =
        refused-eq-ok _ validation_error 400
          (λ v.
            verify_found db attempts_db fetch_payment signature_holds ensure_order
              derive_tracking_token hash_tracking_token around input
              (find_by_public_id db input.checkout_session_id v.sessions) v)
          w h in
      found-IsProof input (find_by_public_id db input.checkout_session_id w.sessions) w k
