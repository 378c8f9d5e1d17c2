-- ===== src/Storefront/Checkout/Repository/Leases.antt =====
-- Who may create the Shopify order of a paid checkout: the lease of `claimOrder`, and the two writes
-- that do not respect it.
use trademart_b.Prelude.{
  ℕ, ◌+◌, ◌<◌, ◌≡◌, ◌≢◌, refl, sym, ap, true, false, Option, none, some, List, String, All, All-map,
  arith, ===_iff, ◌===◌, ◌∙◌,
}
use trademart_b.Mongo.{Collection}
use trademart_b.Mongo.Laws.{All-old}
use trademart_b.Mongo.Keys.{Distinct, find_one_and_update-only}
use trademart_b.Storefront.Checkout.Types.{order_creating, CheckoutSessionRecord}
use trademart_b.Storefront.Checkout.Repository.{
  new_session, attach_filter, attach_update, paid_filter, paid_update, refunded_filter,
  refunded_update, claimable, claim_update, created_filter, created_update, release_filter,
  release_update, order_lease_ms, claim_order, paid_rank,
}
use trademart_b.Storefront.Checkout.Repository.Steps.{
  Op, open_session, attach, pay, refund, claim, link, release, Keeps, apply_all, apply_all-All,
}

-- A write that leaves a lease on `id` alone: it opens, attaches, pays, refunds, links or releases
-- another checkout, or it claims before the lease runs out.
abbrev pub IsForeign : String → ℕ → Op → Type 0
IsForeign id until (open_session input) = input.public_id ≢ id
IsForeign id until (attach other order status) = other ≢ id
IsForeign id until (pay other order payment paid_at now) = other ≢ id
IsForeign id until (refund other payment at) = other ≢ id
IsForeign id until (claim wanted now) = now < until
IsForeign id until (link other order name at) = other ≢ id
IsForeign id until (release other next code message) = other ≢ id

abbrev pub Held : String → ℕ → CheckoutSessionRecord → Type 0
Held id until s =
    s.public_id ≡ id → (s.status ≡ order_creating) × (s.order_lease_expires_at ≡ some until)

elsewhere :
    {id i : String} (s : CheckoutSessionRecord)
    → i ≢ id
    → (s.public_id === i) ≡ true
    → s.public_id ≢ id
elsewhere {i} s f e same = f (sym ((===_iff s.public_id i).0 e) ∙ same)

pub Keeps-Held :
    (id : String) (until : ℕ) (op : Op) → IsForeign id until op → Keeps (Held id until) op
unfolding new_session attach_filter attach_update paid_filter paid_update refunded_filter
    refunded_update claimable claim_update created_filter created_update release_filter
    release_update
Keeps-Held id until (open_session input) f = λ e. absurd (f e)
Keeps-Held id until (attach i o st) f = λ s h e same. absurd (elsewhere s f (ground arith) same)
Keeps-Held id until (pay i o p at now) f = λ s h e same. absurd (elsewhere s f (ground arith) same)
Keeps-Held id until (refund i p at) f = λ s h e same. absurd (elsewhere s f (ground arith) same)
Keeps-Held id until (claim i now) f = λ s h e same. let a = h same in absurd (ground arith)
Keeps-Held id until (link i o n at) f = λ s h e same. absurd (elsewhere s f (ground arith) same)
Keeps-Held id until (release i n c m) f = λ s h e same. absurd (elsewhere s f (ground arith) same)

pub claim_update-public_id :
    (now : ℕ) (s : CheckoutSessionRecord) → (claim_update now s).public_id ≡ s.public_id
unfolding claim_update
claim_update-public_id now s = refl

module _ (db : Collection CheckoutSessionRecord) where
  pub claimed-Held :
      (wanted : Option String) (now : ℕ) (rows : List CheckoutSessionRecord)
      {a : CheckoutSessionRecord}
      → Distinct (λ s. s.public_id) rows
      → (claim_order db wanted now rows).1 ≡ some a
      → All (Held a.public_id (now + order_lease_ms)) (claim_order db wanted now rows).0
  unfolding claim_order claim_update
  claimed-Held wanted now rows {a} distinct hit =
      let m = db.modified (claimable wanted now) paid_rank (claim_update now) rows hit in
      All-map (λ s. s.public_id ≡ a.public_id → s ≡ a) (Held a.public_id (now + order_lease_ms))
        (λ s only same.
          let e = only same ∙ m.new_eq in
          (
            ap (λ (x : CheckoutSessionRecord). x.status) e,
            ap (λ (x : CheckoutSessionRecord). x.order_lease_expires_at) e,
          ))
        (claim_order db wanted now rows).0
        (find_one_and_update-only (λ s. s.public_id) db (claimable wanted now) paid_rank
          (claim_update now) rows (claim_update-public_id now) distinct hit)

  claim-ne :
      (id : String) (until : ℕ) (wanted : Option String) (now : ℕ)
      (rows : List CheckoutSessionRecord) {b : CheckoutSessionRecord}
      → now < until
      → All (Held id until) rows
      → (claim_order db wanted now rows).1 ≡ some b
      → b.public_id ≢ id
  unfolding claim_order claimable
  claim-ne id until wanted now rows {b} early h hit same =
      let m = db.modified (claimable wanted now) paid_rank (claim_update now) rows hit in
      let held : Held id until m.old = All-old db (Held id until) m h in
      let (s, l) = held (
        sym (claim_update-public_id now m.old)
        ∙ sym (ap (λ (x : CheckoutSessionRecord). x.public_id) m.new_eq)
        ∙ same) in
      let matched = m.matched in ground arith

  -- Where no two checkouts share a public id: after a worker has claimed a checkout, and while its lease
  -- lasts, a later claim never returns that checkout, whatever the other workers and requests wrote
  -- between, provided that none of those writes was to that checkout.
  pub claim_order-exclusive :
      (wanted wanted' : Option String) (now later : ℕ) (rows : List CheckoutSessionRecord)
      (ops : List Op) {a b : CheckoutSessionRecord}
      → Distinct (λ s. s.public_id) rows
      → (claim_order db wanted now rows).1 ≡ some a
      → All (IsForeign a.public_id (now + order_lease_ms)) ops
      → later < now + order_lease_ms
      → (claim_order db wanted' later (apply_all db ops (claim_order db wanted now rows).0)).1
        ≡ some b
      → b.public_id ≢ a.public_id
  claim_order-exclusive wanted wanted' now later rows ops {a} distinct first foreign early second =
      claim-ne a.public_id (now + order_lease_ms) wanted' later
        (apply_all db ops (claim_order db wanted now rows).0) early
        (apply_all-All db (Held a.public_id (now + order_lease_ms)) ops
          (claim_order db wanted now rows).0
          (All-map (IsForeign a.public_id (now + order_lease_ms))
            (Keeps (Held a.public_id (now + order_lease_ms)))
            (Keeps-Held a.public_id (now + order_lease_ms)) ops foreign)
          (claimed-Held wanted now rows distinct first))
        second

-- A second notice of the same payment breaks the lease: a checkout that a worker is creating the order
-- of, and that carries that payment, is claimable again at once, by any worker, while the lease runs.
pub paid_update-breaks_lease :
    (order payment : String) (paid_at now until : ℕ) (s : CheckoutSessionRecord)
    → s.status ≡ order_creating
    → s.order_lease_expires_at ≡ some until
    → now < until
    → s.razorpay_order_id ≡ some order
    → s.razorpay_payment_id ≡ some payment
    → (paid_filter s.public_id order payment s ≡ true)
      × (claimable none now s ≡ false)
      × (claimable none now (paid_update payment paid_at now s) ≡ true)
unfolding paid_filter paid_update claimable
paid_update-breaks_lease order payment paid_at now until s st l e o p =
    let a = (===_iff s.public_id s.public_id).1 refl in
    let b = (===_iff order order).1 refl in
    let c = (===_iff payment payment).1 refl in (ground arith, ground arith, ground arith)

-- A late attachment of the Razorpay order that a checkout has already matches it in every status, and
-- takes it out of the order queue: no claim at any time finds it then.
pub attach_update-unclaimable :
    (order order_status : String) (s : CheckoutSessionRecord)
    → s.razorpay_order_id ≡ some order
    → (attach_filter s.public_id order s ≡ true)
      × ((wanted : Option String) (now : ℕ)
          → claimable wanted now (attach_update order order_status s) ≡ false)
unfolding attach_filter attach_update claimable
attach_update-unclaimable order order_status s o =
    let a = (===_iff s.public_id s.public_id).1 refl in
    let b = (===_iff order order).1 refl in (ground arith, λ wanted now. ground arith)
