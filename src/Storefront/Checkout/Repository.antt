-- ===== src/Storefront/Checkout/Repository.antt =====
-- src/storefront/checkout/checkout.repository.ts over the schema of
-- src/database/models/CheckoutSession.ts: what the code stores of a checkout. Each reading of the clock
-- is the argument `now`. A driver's error is what `asStorefrontError` makes of it.
pub mod Steps
pub mod Facts
pub mod Leases
pub mod Ids
pub mod Limits
use trademart_b.Prelude.{
  ℕ, suc, ◌+◌, Bool, true, false, not, ◌||◌, ◌&&◌, Option, none, some, List, [], ◌∷◌, String, leb,
  due, holds, ◌===◌, slice_to, if◌then◌else◌,
}
use trademart_b.Mongo.{
  Collection, Created, stored, duplicate_key, errored, Changed, changed, not_matched, key_taken,
}
use trademart_b.Storefront.Checkout.Schema.{clash, schema_accepts}
use trademart_b.Storefront.Result.{
  Result, ok, err, throw, StorefrontError, database_unavailable, payment_mismatch, internal_error,
}
use trademart_b.Storefront.Checkout.Types.{
  CheckoutStatus, created, payment_pending, payment_paid, order_pending, order_creating,
  order_created, refunded, CheckoutSessionRecord, NewCheckoutSession, CheckoutSnapshot,
  CheckoutSnapshotLine,
}

abbrev pub order_lease_ms : ℕ
order_lease_ms = 300000

-- `databaseError(message)`
abbrev pub database_error : {A : Type 0} → Result A
database_error = err (record { code = database_unavailable; status = 503; retryable = true })

unfoldable pub new_session : NewCheckoutSession → CheckoutSessionRecord
new_session input = record {
  public_id = input.public_id;
  idempotency_key = input.idempotency_key;
  request_hash = input.request_hash;
  status = created;
  snapshot = input.snapshot;
  status_token_hash = input.status_token_hash;
  tracking_token_hash = input.tracking_token_hash;
  razorpay_order_id = none;
  razorpay_payment_id = none;
  razorpay_order_status = none;
  paid_at = none;
  refunded_at = none;
  shopify_source_identifier = input.shopify_source_identifier;
  shopify_order_id = none;
  shopify_order_name = none;
  shopify_order_created_at = none;
  order_attempts = 0;
  next_order_attempt_at = none;
  order_lease_expires_at = none;
  order_error_code = none;
  order_error_message = none;
}

-- `{ $or: [{ field: null }, { field: value }] }`
abbrev pub null_or : Option String → String → Bool
null_or none b = true
null_or (some a) b = a === b

unfoldable pub attach_filter : String → String → CheckoutSessionRecord → Bool
attach_filter public_id order s = (s.public_id === public_id) && null_or s.razorpay_order_id order

unfoldable pub attach_update : String → String → CheckoutSessionRecord → CheckoutSessionRecord
attach_update order order_status s = record s {
  razorpay_order_id = some order;
  razorpay_order_status = some order_status;
  status = payment_pending;
}

-- The statuses from which `markPaid` takes a session.
abbrev pub payable : CheckoutStatus → Bool
payable order_created = false
payable refunded = false
payable _ = true

unfoldable pub paid_filter : String → String → String → CheckoutSessionRecord → Bool
paid_filter public_id order payment s =
    (s.public_id === public_id)
    && holds s.razorpay_order_id order
    && payable s.status
    && null_or s.razorpay_payment_id payment

unfoldable pub paid_update : String → ℕ → ℕ → CheckoutSessionRecord → CheckoutSessionRecord
paid_update payment paid_at now s = record s {
  razorpay_payment_id = some payment;
  razorpay_order_status = some "paid";
  paid_at = some paid_at;
  status = order_pending;
  next_order_attempt_at = some now;
}

unfoldable pub refunded_filter : String → String → CheckoutSessionRecord → Bool
refunded_filter public_id payment s =
    (s.public_id === public_id) && holds s.razorpay_payment_id payment

unfoldable pub refunded_update : ℕ → CheckoutSessionRecord → CheckoutSessionRecord
refunded_update at s = record s { status = refunded; refunded_at = some at }

abbrev pub names : Option String → String → Bool
names none id = true
names (some wanted) id = id === wanted

-- `claimOrder`'s filter: waiting and due, or being created under a lease that has run out.
unfoldable pub claimable : Option String → ℕ → CheckoutSessionRecord → Bool
claimable public_id now s = names public_id s.public_id && elim s.status [
  | payment_paid ↦ due s.next_order_attempt_at now
  | order_pending ↦ due s.next_order_attempt_at now
  | order_creating ↦ due s.order_lease_expires_at now
  | _ ↦ false
]

unfoldable pub claim_update : ℕ → CheckoutSessionRecord → CheckoutSessionRecord
claim_update now s = record s {
  status = order_creating;
  order_lease_expires_at = some (now + order_lease_ms);
  next_order_attempt_at = none;
  order_attempts = s.order_attempts + 1;
}

-- `sort: { paidAt: 1 }`, where null comes first
abbrev pub paid_rank : CheckoutSessionRecord → ℕ
paid_rank s = elim s.paid_at [ none ↦ 0 | some t ↦ suc t ]

abbrev orderable : CheckoutStatus → Bool
orderable order_creating = true
orderable order_pending = true
orderable order_created = true
orderable _ = false

unfoldable pub created_filter : String → String → CheckoutSessionRecord → Bool
created_filter public_id order s =
    (s.public_id === public_id) && orderable s.status && null_or s.shopify_order_id order

unfoldable pub created_update : String → String → ℕ → CheckoutSessionRecord → CheckoutSessionRecord
created_update order name at s = record s {
  status = order_created;
  shopify_order_id = some order;
  shopify_order_name = some name;
  shopify_order_created_at = some at;
  order_lease_expires_at = none;
  next_order_attempt_at = none;
  order_error_code = none;
  order_error_message = none;
}

unfoldable pub release_filter : String → CheckoutSessionRecord → Bool
release_filter public_id s =
    (s.public_id === public_id) && elim s.status [ order_creating ↦ true | _ ↦ false ]

unfoldable pub release_update : ℕ → String → String → CheckoutSessionRecord → CheckoutSessionRecord
release_update next code message s = record s {
  status = order_pending;
  next_order_attempt_at = some next;
  order_lease_expires_at = none;
  order_error_code = some code;
  order_error_message = some (slice_to 500 message);
}

-- Each method returns the rows and what it returns or throws.
module _ (db : Collection CheckoutSessionRecord) where
  open db use {find_one, find_one_and_update, update_unique}

  unfoldable pub find_by_idempotency_key :
      String → List CheckoutSessionRecord → Option CheckoutSessionRecord
  find_by_idempotency_key key rows = find_one (λ s. s.idempotency_key === key) rows

  unfoldable pub find_by_public_id :
      String → List CheckoutSessionRecord → Option CheckoutSessionRecord
  find_by_public_id id rows = find_one (λ s. s.public_id === id) rows

  unfoldable pub find_by_razorpay_order_id :
      String → List CheckoutSessionRecord → Option CheckoutSessionRecord
  find_by_razorpay_order_id order rows = find_one (λ s. holds s.razorpay_order_id order) rows

  unfoldable pub find_by_status_token_hash :
      String → String → List CheckoutSessionRecord → Option CheckoutSessionRecord
  find_by_status_token_hash id hash rows =
      find_one (λ s. (s.public_id === id) && (s.status_token_hash === hash)) rows

  unfoldable pub or_throw :
      Result CheckoutSessionRecord → Option CheckoutSessionRecord → Result CheckoutSessionRecord
  or_throw missed none = missed
  or_throw missed (some s) = ok s

  unfoldable pub created_result :
      NewCheckoutSession
      → List CheckoutSessionRecord
      → Created CheckoutSessionRecord
      → List CheckoutSessionRecord × Result CheckoutSessionRecord
  unfolding find_by_idempotency_key or_throw
  created_result input rows (stored after) = (after, ok (new_session input))
  created_result input rows duplicate_key =
      (rows, or_throw database_error (find_by_idempotency_key input.idempotency_key rows))
  created_result input rows errored = (rows, database_error)

  -- A session that the schema refuses is an error like any other.
  unfoldable pub create :
      NewCheckoutSession
      → List CheckoutSessionRecord
      → List CheckoutSessionRecord × Result CheckoutSessionRecord
  unfolding created_result
  create input rows =
      if schema_accepts (new_session input)
      then created_result input rows (db.create clash (new_session input) rows)
      else (rows, database_error)

  unfoldable pub changed_result :
      List CheckoutSessionRecord
      → Result CheckoutSessionRecord
      → Changed CheckoutSessionRecord
      → List CheckoutSessionRecord × Result CheckoutSessionRecord
  changed_result rows missed (changed after s) = (after, ok s)
  changed_result rows missed not_matched = (rows, missed)
  changed_result rows missed key_taken =
      (rows, err (record { code = internal_error; status = 500; retryable = true }))

  unfoldable pub attach_razorpay_order :
      String
      → String
      → String
      → List CheckoutSessionRecord
      → List CheckoutSessionRecord × Result CheckoutSessionRecord
  unfolding changed_result
  attach_razorpay_order public_id order order_status rows =
      changed_result rows database_error (
        update_unique clash (attach_filter public_id order) (attach_update order order_status) rows)

  abbrev is_order_created : CheckoutStatus → Bool
  is_order_created order_created = true
  is_order_created _ = false

  -- `markPaid` where no row was updated.
  unpaid_result : String → String → Option CheckoutSessionRecord → Result CheckoutSessionRecord
  unpaid_result order payment none = throw payment_mismatch 409
  unpaid_result order payment (some s) =
      if holds s.razorpay_order_id order
        && holds s.razorpay_payment_id payment
        && is_order_created s.status
      then ok s
      else throw payment_mismatch 409

  unfoldable pub mark_paid :
      String
      → String
      → String
      → ℕ
      → ℕ
      → List CheckoutSessionRecord
      → List CheckoutSessionRecord × Result CheckoutSessionRecord
  unfolding changed_result unpaid_result find_by_public_id
  mark_paid public_id order payment paid_at now rows =
      changed_result rows (unpaid_result order payment (find_by_public_id public_id rows)) (
        update_unique clash (paid_filter public_id order payment) (paid_update payment paid_at now)
          rows)

  unfoldable pub mark_refunded :
      String
      → String
      → ℕ
      → List CheckoutSessionRecord
      → List CheckoutSessionRecord × Result CheckoutSessionRecord
  unfolding or_throw
  mark_refunded public_id payment at rows =
      let (after, row) =
        find_one_and_update (refunded_filter public_id payment) (λ _. 0) (refunded_update at)
          rows in
      (after, or_throw (throw payment_mismatch 409) row)

  unfoldable pub claim_order :
      Option String
      → ℕ
      → List CheckoutSessionRecord
      → List CheckoutSessionRecord × Option CheckoutSessionRecord
  claim_order public_id now rows =
      find_one_and_update (claimable public_id now) paid_rank (claim_update now) rows

  unfoldable pub mark_order_created :
      String
      → String
      → String
      → ℕ
      → List CheckoutSessionRecord
      → List CheckoutSessionRecord × Result CheckoutSessionRecord
  unfolding or_throw
  mark_order_created public_id order name at rows =
      let (after, row) =
        find_one_and_update (created_filter public_id order) (λ _. 0) (created_update order name at)
          rows in
      (after, or_throw database_error row)

  unfoldable pub release_order_for_retry :
      String → ℕ → String → String → List CheckoutSessionRecord → List CheckoutSessionRecord
  release_order_for_retry public_id next code message rows =
      (find_one_and_update (release_filter public_id) (λ _. 0) (release_update next code message)
        rows).0
