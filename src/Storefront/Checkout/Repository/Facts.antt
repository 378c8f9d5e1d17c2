-- ===== src/Storefront/Checkout/Repository/Facts.antt =====
-- What is once true of a checkout and stays so.
use trademart_b.Prelude.{
  ◌≡◌, ◌≢◌, refl, sym, false, some, List, [], ◌∷◌, String, All, All-map, arith, ===_iff, is_null,
  ◌∙◌,
}
use trademart_b.Mongo.{Collection}
use trademart_b.Storefront.Checkout.Types.{
  created, payment_pending, order_pending, order_creating, order_created, refunded,
  CheckoutSessionRecord, CheckoutSnapshot,
}
use trademart_b.Storefront.Checkout.Repository.{
  new_session, attach_filter, attach_update, paid_filter, paid_update, refunded_filter,
  refunded_update, claimable, claim_update, created_filter, created_update, release_filter,
  release_update,
}
use trademart_b.Storefront.Checkout.Repository.Steps.{
  Op, open_session, attach, pay, refund, claim, link, release, Keeps, apply_all, apply_all-All,
}

-- What every stored session has between two writes.
pub record IsSound (s : CheckoutSessionRecord) : Type 0 where
  pub paid_together : is_null s.razorpay_payment_id ≡ is_null s.paid_at
  pub order_first : is_null s.razorpay_payment_id ≡ false → is_null s.razorpay_order_id ≡ false
  pub paid_for :
      s.status ≢ created → s.status ≢ payment_pending → is_null s.razorpay_payment_id ≡ false
  pub waiting : s.status ≡ order_pending → is_null s.next_order_attempt_at ≡ false
  pub working : s.status ≡ order_creating → is_null s.order_lease_expires_at ≡ false
  pub linked : s.status ≡ order_created → is_null s.shopify_order_id ≡ false

Keeps-IsSound : (op : Op) → Keeps IsSound op
unfolding new_session attach_update paid_filter paid_update refunded_update claimable claim_update
    created_filter created_update release_filter release_update refunded_filter attach_filter
Keeps-IsSound (open_session input) = ground arith
Keeps-IsSound (attach id order status) = λ s h e. ground arith
Keeps-IsSound (pay id order payment paid_at now) = λ s h e. ground arith
Keeps-IsSound (refund id payment at) = λ s h e. ground arith
Keeps-IsSound (claim id now) = λ s h e. ground arith
Keeps-IsSound (link id order name at) = λ s h e. ground arith
Keeps-IsSound (release id next code message) = λ s h e. ground arith

Keeps-all :
    (P : CheckoutSessionRecord → Type 0)
    → ((op : Op) → Keeps P op)
    → (ops : List Op) → All (Keeps P) ops
Keeps-all P k [] = tt
Keeps-all P k (op ∷ ops) = (k op, Keeps-all P k ops)

-- The write does not open a session under that public id.
abbrev pub IsFresh : String → Op → Type 0
IsFresh id (open_session input) = input.public_id ≢ id
IsFresh id op = Unit

-- Every session of that id has been paid for by that payment, for that Razorpay order, at those amounts.
abbrev pub IsPaidBy : String → String → String → CheckoutSnapshot → CheckoutSessionRecord → Type 0
IsPaidBy id order payment snapshot s =
    s.public_id ≡ id
    → (s.razorpay_order_id ≡ some order)
      × (s.razorpay_payment_id ≡ some payment)
      × (s.snapshot ≡ snapshot)

Keeps-IsPaidBy :
    (id order payment : String) (snapshot : CheckoutSnapshot) (op : Op)
    → IsFresh id op
    → Keeps (IsPaidBy id order payment snapshot) op
unfolding new_session attach_update paid_filter paid_update refunded_update claim_update
    created_update release_update attach_filter
Keeps-IsPaidBy id order payment snapshot (open_session input) f = λ e. absurd (f e)
Keeps-IsPaidBy id order payment snapshot (attach i o st) f =
    λ s h e same. let (a, b, c) = h same in (ground (arith, ===_iff order o), b, c)
Keeps-IsPaidBy id order payment snapshot (pay i o p at now) f =
    λ s h e same. let (a, b, c) = h same in (a, ground (arith, ===_iff payment p), c)
Keeps-IsPaidBy id order payment snapshot (refund i p at) f = λ s h e same. h same
Keeps-IsPaidBy id order payment snapshot (claim i now) f = λ s h e same. h same
Keeps-IsPaidBy id order payment snapshot (link i o n at) f = λ s h e same. h same
Keeps-IsPaidBy id order payment snapshot (release i n c m) f = λ s h e same. h same

-- Every session of that id is linked to that Shopify order.
abbrev pub IsLinkedTo : String → String → CheckoutSessionRecord → Type 0
IsLinkedTo id order s = s.public_id ≡ id → s.shopify_order_id ≡ some order

Keeps-IsLinkedTo : (id order : String) (op : Op) → IsFresh id op → Keeps (IsLinkedTo id order) op
unfolding new_session attach_update paid_update refunded_update claim_update created_filter
    created_update release_update
Keeps-IsLinkedTo id order (open_session input) f = λ e. absurd (f e)
Keeps-IsLinkedTo id order (attach i o st) f = λ s h e same. h same
Keeps-IsLinkedTo id order (pay i o p at now) f = λ s h e same. h same
Keeps-IsLinkedTo id order (refund i p at) f = λ s h e same. h same
Keeps-IsLinkedTo id order (claim i now) f = λ s h e same. h same
Keeps-IsLinkedTo id order (link i o n at) f =
    λ s h e same. let a = h same in ground (arith, ===_iff order o)
Keeps-IsLinkedTo id order (release i n c m) f = λ s h e same. h same

module _ (id : String) where
  -- The write does not open a session under the id, nor attach a Razorpay order to it.
  abbrev pub IsAfterAttach : Op → Type 0
  IsAfterAttach (open_session input) = input.public_id ≢ id
  IsAfterAttach (attach other order status) = other ≢ id
  IsAfterAttach op = Unit

  abbrev pub IsRefunded : CheckoutSessionRecord → Type 0
  IsRefunded s = s.public_id ≡ id → s.status ≡ refunded

  Keeps-IsRefunded : (op : Op) → IsAfterAttach op → Keeps IsRefunded op
  unfolding new_session attach_filter attach_update paid_filter paid_update refunded_update
      claimable claim_update created_filter created_update release_filter release_update
  Keeps-IsRefunded (open_session input) f = λ e. absurd (f e)
  Keeps-IsRefunded (attach i o st) f =
      λ s h e same. absurd (f (sym ((===_iff s.public_id i).0 (ground arith)) ∙ same))
  Keeps-IsRefunded (pay i o p at now) f = λ s h e same. let a = h same in absurd (ground arith)
  Keeps-IsRefunded (refund i p at) f = λ s h e same. refl
  Keeps-IsRefunded (claim i now) f = λ s h e same. let a = h same in absurd (ground arith)
  Keeps-IsRefunded (link i o n at) f = λ s h e same. let a = h same in absurd (ground arith)
  Keeps-IsRefunded (release i n c m) f = λ s h e same. let a = h same in absurd (ground arith)

module _ (db : Collection CheckoutSessionRecord) where
  -- Any sequence of the repository's writes keeps every session sound: it has a payment exactly when it
  -- has a time of payment, and then a Razorpay order; every status after PAYMENT_PENDING has a payment;
  -- a waiting order has a time, one being created a lease, and a created one its Shopify id.
  pub apply_all-IsSound :
      (ops : List Op) (rows : List CheckoutSessionRecord)
      → All IsSound rows
      → All IsSound (apply_all db ops rows)
  apply_all-IsSound ops rows h =
      apply_all-All db IsSound ops rows (Keeps-all IsSound Keeps-IsSound ops) h

  -- Once a checkout is paid, no sequence of writes that opens no other session under its public id
  -- changes its Razorpay order, its payment or its frozen amounts.
  pub apply_all-IsPaidBy :
      (id order payment : String) (snapshot : CheckoutSnapshot) (ops : List Op)
      (rows : List CheckoutSessionRecord)
      → All (IsFresh id) ops
      → All (IsPaidBy id order payment snapshot) rows
      → All (IsPaidBy id order payment snapshot) (apply_all db ops rows)
  apply_all-IsPaidBy id order payment snapshot ops rows fresh h =
      apply_all-All db (IsPaidBy id order payment snapshot) ops rows
        (All-map (IsFresh id) (Keeps (IsPaidBy id order payment snapshot))
          (Keeps-IsPaidBy id order payment snapshot) ops fresh)
        h

  -- Once a checkout is linked to a Shopify order, no sequence of writes that opens no other session
  -- under its public id links it to another.
  pub apply_all-IsLinkedTo :
      (id order : String) (ops : List Op) (rows : List CheckoutSessionRecord)
      → All (IsFresh id) ops
      → All (IsLinkedTo id order) rows
      → All (IsLinkedTo id order) (apply_all db ops rows)
  apply_all-IsLinkedTo id order ops rows fresh h =
      apply_all-All db (IsLinkedTo id order) ops rows
        (All-map (IsFresh id) (Keeps (IsLinkedTo id order)) (Keeps-IsLinkedTo id order) ops fresh) h

  -- A refunded checkout stays refunded under any sequence of writes that opens no other session under
  -- its public id and attaches no Razorpay order to it.
  pub apply_all-IsRefunded :
      (id : String) (ops : List Op) (rows : List CheckoutSessionRecord)
      → All (IsAfterAttach id) ops
      → All (IsRefunded id) rows
      → All (IsRefunded id) (apply_all db ops rows)
  apply_all-IsRefunded id ops rows after h =
      apply_all-All db (IsRefunded id) ops rows
        (All-map (IsAfterAttach id) (Keeps (IsRefunded id)) (Keeps-IsRefunded id) ops after) h
