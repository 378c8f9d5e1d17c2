-- ===== src/Storefront/Orders/Progress.antt =====
-- A paid checkout does not get lost: each attempt ends with its order recorded or a retry on schedule.
use mathlib.Core.Path.{subst}
use trademart_b.Prelude.{
  [], ◌∷◌, if◌then◌else◌, ◌==◌, ℕ, zero, suc, ◌+◌, ◌≤◌, ◌<◌, ◌≡◌, ◌≢◌, refl, sym, Bool, true, false,
  Option, none, some, List, String, All, All-any, All-zip, arith, ===_iff, Option-cases, inl, inr,
  ◌↔◌, ◌⊎◌,
}
use trademart_b.Mongo.{Collection}
use trademart_b.Mongo.Keys.{hit_key-All}
use trademart_b.Storefront.Checkout.Types.{order_created, order_pending, CheckoutSessionRecord}
use trademart_b.Storefront.Checkout.Repository.{
  names, claimable, claim_order, created_filter, created_update, mark_order_created, release_filter,
  release_update, release_order_for_retry, order_lease_ms,
}
use trademart_b.Storefront.Checkout.Repository.Steps.{
  Op, claim, apply, Keeps, apply_all, apply_all-All,
}
use trademart_b.Storefront.Checkout.Repository.Leases.{IsForeign, Held, Keeps-Held, claimed-Held}
use trademart_b.Storefront.Checkout.Repository.Ids.{Apart, apply-Apart, apply_all-Apart}
use trademart_b.Storefront.Orders.{
  ShopifyOrder, Ensured, ensured, threw, delay_ms, process_one, processed, attempted, recorded,
  release,
}

-- The checkout has this order recorded.
abbrev pub Linked : String → String → CheckoutSessionRecord → Type 0
Linked id order d =
    d.public_id ≡ id → (d.status ≡ order_created) × (d.shopify_order_id ≡ some order)

-- The checkout waits for its next attempt, at that time, under no lease.
abbrev pub Waits : String → ℕ → CheckoutSessionRecord → Type 0
Waits id next d =
    d.public_id ≡ id
    → (d.status ≡ order_pending)
      × (d.next_order_attempt_at ≡ some next)
      × (d.order_lease_expires_at ≡ none)

-- What is said of the checkout says nothing of the others.
All-other :
    (id : String) (R : CheckoutSessionRecord → Type 0) (rows : List CheckoutSessionRecord)
    → All (λ d. d.public_id ≢ id → d.public_id ≡ id → R d) rows
All-other id R [] = tt
All-other id R (d ∷ rows) = ((λ other is. absurd (other is)), All-other id R rows)

module _ (db : Collection CheckoutSessionRecord) (ensure_order : CheckoutSessionRecord → Ensured)
    (until : ℕ) (s : CheckoutSessionRecord) where
  release-Waits :
      (now : ℕ) (code message : String) (rows : List CheckoutSessionRecord)
      → Apart rows
      → All (Held s.public_id until) rows
      → All
          (Waits s.public_id (now + delay_ms s.order_attempts))
          (release db ensure_order now s code message rows)
  unfolding release release_order_for_retry release_filter release_update
  release-Waits now code message rows apart held =
      let next = now + delay_ms s.order_attempts in
      elim (Option-cases
        (db.find_one_and_update (release_filter s.public_id) (λ _. 0)
          (release_update next code message) rows).1) [
            | inl missed ↦
                let (same, unmatched) =
                  db.unmodified (release_filter s.public_id) (λ _. 0)
                    (release_update next code message) rows missed in
                subst (All (Waits s.public_id next)) (sym same) (
                  All-zip (λ d. release_filter s.public_id d ≡ false) (Held s.public_id until)
                    (Waits s.public_id next)
                    (λ d no lease is.
                      let t = (===_iff d.public_id s.public_id).1 is in
                      let creating = (lease is).0 in absurd (ground arith))
                    rows unmatched held)
            | inr (d, hit) ↦
                hit_key-All (λ d. d.public_id) db (Waits s.public_id next) (λ d. Unit {0})
                  s.public_id (release_filter s.public_id) (λ _. 0)
                  (release_update next code message) rows
                  (λ d hit. (===_iff d.public_id s.public_id).0 (ground arith))
                  (λ d hit _ is. (refl, refl, refl)) apart (All-other s.public_id _ rows)
                  (All-any _ rows) hit
          ]

  foreign_kept :
      (ops : List Op)
      → All (IsForeign s.public_id until) ops
      → All (Keeps (Held s.public_id until)) ops
  foreign_kept [] h = tt
  foreign_kept (op ∷ ops) h = (Keeps-Held s.public_id until op h.0, foreign_kept ops h.1)

  -- Where an attempt has left the checkout, whose order the port was asked for.
  abbrev pub IsSettled : ℕ → List CheckoutSessionRecord × Bool → Type 0
  IsSettled now (rows, linked) =
      ((linked ≡ true)
        × ((order : ShopifyOrder) × (ensure_order s ≡ ensured order)
            × All (Linked s.public_id order.id) rows))
      ⊎ ((linked ≡ false) × All (Waits s.public_id (now + delay_ms s.order_attempts)) rows)

  module _ (during after : List Op) (foreign : All (IsForeign s.public_id until) after) where
    recorded-IsSettled :
        (now : ℕ) (order : ShopifyOrder) (rows : List CheckoutSessionRecord)
        → ensure_order s ≡ ensured order
        → Apart rows
        → All (Held s.public_id until) rows
        → IsSettled now (
            recorded db ensure_order
              (apply_all db during)
              (apply_all db after)
              now
              s
              (mark_order_created db s.public_id order.id order.name order.created_at rows))
    unfolding recorded mark_order_created created_filter created_update
    recorded-IsSettled now order rows asked apart held =
        elim (Option-cases
          (db.find_one_and_update (created_filter s.public_id order.id) (λ _. 0)
            (created_update order.id order.name order.created_at) rows).1) [
              | inl missed ↦
                  rw (missed, recorded)
                    (rw
                      (db.unmodified (created_filter s.public_id order.id) (λ _. 0)
                        (created_update order.id order.name order.created_at) rows missed).0
                      (inr (
                        refl,
                        release-Waits now _ _ (apply_all db after rows)
                            (apply_all-Apart db after rows apart)
                            (apply_all-All db (Held s.public_id until) after rows
                              (foreign_kept after foreign) held),
                      )))
              | inr (d, hit) ↦
                  rw (hit, recorded)
                    (inl (
                      refl,
                      (
                        order,
                        asked,
                        hit_key-All (λ d. d.public_id) db (Linked s.public_id order.id)
                            (λ d. Unit {0}) s.public_id (created_filter s.public_id order.id)
                            (λ _. 0) (created_update order.id order.name order.created_at) rows
                            (λ d hit. (===_iff d.public_id s.public_id).0 (ground arith))
                            (λ d hit _ is. (refl, refl)) apart (All-other s.public_id _ rows)
                            (All-any _ rows) hit,
                      ),
                    ))
            ]

    attempted-IsSettled :
        (now : ℕ) (answer : Ensured) (rows : List CheckoutSessionRecord)
        → ensure_order s ≡ answer
        → Apart rows
        → All (Held s.public_id until) rows
        → IsSettled now
            (attempted db ensure_order (apply_all db during) (apply_all db after) now s answer rows)
    unfolding attempted
    attempted-IsSettled now (ensured order) rows asked apart held =
        recorded-IsSettled now order rows asked apart held
    attempted-IsSettled now (threw code message) rows asked apart held =
        inr (refl, release-Waits now code message rows apart held)

-- An attempt that has claimed a checkout ends in one of two ways, whatever Shopify answers: it reports
-- true, and the checkout is ORDER_CREATED with the order that Shopify answered; or it reports false,
-- and the checkout is ORDER_PENDING, under no lease, with its next attempt at the time of the answer
-- plus the delay of this attempt. The conditions: no two checkouts share a public id, and what the
-- others write while Shopify is awaited, and before a release that follows a failed link, leaves the
-- lease on this checkout alone.
pub process_one-IsSettled :
    (db : Collection CheckoutSessionRecord) (ensure_order : CheckoutSessionRecord → Ensured)
    (wanted : Option String) (now now' : ℕ) (during after : List Op)
    (rows : List CheckoutSessionRecord) {s : CheckoutSessionRecord}
    → Apart rows
    → (claim_order db wanted now rows).1 ≡ some s
    → All (IsForeign s.public_id (now + order_lease_ms)) during
    → All (IsForeign s.public_id (now + order_lease_ms)) after
    → IsSettled db ensure_order (now + order_lease_ms) s now' (
        process_one db ensure_order (apply_all db during) (apply_all db after) wanted now now' rows)
unfolding process_one processed apply
process_one-IsSettled db ensure_order wanted now now' during after rows {s} apart hit quiet
      foreign =
    let until = now + order_lease_ms in
    let claimed = (claim_order db wanted now rows).0 in
    let held = claimed-Held db wanted now rows apart hit in
    let apart' : Apart claimed = apply-Apart db (claim wanted now) rows apart in
    rw (hit, processed)
      (attempted-IsSettled db ensure_order until s during after foreign now' (ensure_order s)
        (apply_all db during claimed) refl (apply_all-Apart db during claimed apart')
        (apply_all-All db (Held s.public_id until) during claimed
          (foreign_kept db ensure_order until s during quiet) held))

-- A checkout that is released after its attempt number `attempts`, counted from 1, is claimable, by the
-- worker or by a request that names it, exactly from 1, 5, 30 or 120 minutes after the reading of the
-- clock that the release was given, for attempt 1, 2, 3 or 4, and from six hours after it for each
-- later attempt, however many there were.
pub release_update-schedule :
    (wanted : Option String) (now attempts later : ℕ) (code message : String)
    (s : CheckoutSessionRecord)
    → 0 < attempts
    → names wanted s.public_id ≡ true
    → (claimable wanted later (release_update (now + delay_ms attempts) code message s) ≡ true) ↔ (
        now
          + (if attempts == 1
              then 60000
              else (if attempts == 2
                  then 300000
                  else (if attempts == 3
                      then 1800000
                      else (if attempts == 4 then 7200000 else 21600000))))
        ≤ later)
unfolding claimable release_update
release_update-schedule wanted now zero later code message s some_try named = absurd (omega arith)
release_update-schedule wanted now (suc zero) later code message s some_try named = ground arith
release_update-schedule wanted now (suc (suc zero)) later code message s some_try named =
    ground arith
release_update-schedule wanted now (suc (suc (suc zero))) later code message s some_try named =
    ground arith
release_update-schedule wanted now (suc (suc (suc (suc zero)))) later code message s some_try
      named =
    ground arith
release_update-schedule wanted now (suc (suc (suc (suc (suc n))))) later code message s some_try
      named =
    ground arith
