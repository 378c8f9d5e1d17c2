-- ===== src/Tests/Sessions.antt =====
-- Runs of the stored checkouts and of their orders.
use trademart_b.Prelude.{
  ℕ, ◌≡◌, ◌≢◌, ◌↔◌, ◌≤◌, ◌+◌, refl, true, false, Option, none, some, List, [], ◌∷◌, String, All,
  arith, ◌===◌, ===-ne,
}
use trademart_b.Mongo.Keys.{Distinct}
use trademart_b.Mongo.Listed.{listed}
use trademart_b.Storefront.Checkout.Types.{CheckoutSessionRecord, refunded}
use trademart_b.Storefront.Checkout.Repository.{
  claimable, claim_update, claim_order, paid_filter, paid_update, attach_filter, attach_update,
  release_update, order_lease_ms,
}
use trademart_b.Storefront.Checkout.Repository.Steps.{
  Op, pay, refund, claim, attach, link, apply_all,
}
use trademart_b.Storefront.Checkout.Repository.Facts.{
  IsSound, IsPaidBy, IsLinkedTo, IsRefunded, apply_all-IsSound, apply_all-IsPaidBy,
  apply_all-IsLinkedTo, apply_all-IsRefunded,
}
use trademart_b.Storefront.Checkout.Repository.Leases.{
  claim_order-exclusive, paid_update-breaks_lease, attach_update-unclaimable,
}
use trademart_b.Storefront.Orders.{Ensured, threw, process_one, delay_ms}
use trademart_b.Storefront.Orders.Progress.{
  IsSettled, process_one-IsSettled, release_update-schedule,
}
use trademart_b.Storefront.Checkout.Repository.Limits.{create-over_limit}
use trademart_b.Storefront.Checkout.Types.{NewCheckoutSession}
use trademart_b.Storefront.Checkout.Repository.{create, database_error}
use trademart_b.Tests.Data.{frozen_line, paid_session, leased_session, frozen}

abbrev sessions : List CheckoutSessionRecord
sessions = paid_session "c1" "order_1" "pay_1" 100 ∷ paid_session "c2" "order_2" "pay_2" 200 ∷ []

abbrev ops : List Op
ops =
    attach "c1" "order_1" "created"
    ∷ pay "c1" "order_1" "pay_1" 100 300
    ∷ claim none 400
    ∷ link "c1" "gid://1" "#1001" 500
    ∷ refund "c1" "pay_1" 600
    ∷ []

sessions-Distinct : Distinct (λ (s : CheckoutSessionRecord). s.public_id) sessions
unfolding ◌===◌
sessions-Distinct = (((===-ne "c1" "c2" refl), tt), (tt, tt))

claim_order-exclusive_example :
    (paid_session "c2" "order_2" "pay_2" 200).public_id
    ≢ (paid_session "c1" "order_1" "pay_1" 100).public_id
unfolding claim_order claimable claim_update listed apply_all ◌===◌
claim_order-exclusive_example =
    claim_order-exclusive (listed CheckoutSessionRecord) none none 1000 2000 sessions []
      {a = claim_update 1000 (paid_session "c1" "order_1" "pay_1" 100)}
      {b = claim_update 2000 (paid_session "c2" "order_2" "pay_2" 200)} sessions-Distinct refl tt
      (omega arith) refl

paid_update-breaks_lease_example :
    let s = leased_session "c1" "order_1" "pay_1" 100 9000 in
    (paid_filter s.public_id "order_1" "pay_1" s ≡ true)
    × (claimable none 5000 s ≡ false)
    × (claimable none 5000 (paid_update "pay_1" 100 5000 s) ≡ true)
paid_update-breaks_lease_example =
    paid_update-breaks_lease "order_1" "pay_1" 100 5000 9000
      (leased_session "c1" "order_1" "pay_1" 100 9000) refl refl (omega arith) refl refl

attach_update-unclaimable_example :
    let s = paid_session "c1" "order_1" "pay_1" 100 in
    (attach_filter s.public_id "order_1" s ≡ true)
    × ((wanted : Option String) (now : ℕ)
        → claimable wanted now (attach_update "order_1" "created" s) ≡ false)
attach_update-unclaimable_example =
    attach_update-unclaimable "order_1" "created" (paid_session "c1" "order_1" "pay_1" 100) refl

apply_all-IsSound_example : All IsSound (apply_all (listed CheckoutSessionRecord) ops sessions)
apply_all-IsSound_example =
    apply_all-IsSound (listed CheckoutSessionRecord) ops sessions (ground arith)

apply_all-IsPaidBy_example :
    All
      (IsPaidBy "c1" "order_1" "pay_1" frozen)
      (apply_all (listed CheckoutSessionRecord) ops sessions)
unfolding ◌===◌
apply_all-IsPaidBy_example =
    apply_all-IsPaidBy (listed CheckoutSessionRecord) "c1" "order_1" "pay_1" frozen ops sessions
      (tt, (tt, (tt, (tt, (tt, tt)))))
      ((λ e. (refl, refl, refl)), ((λ e. absurd (===-ne "c2" "c1" refl e)), tt))

abbrev linked : List CheckoutSessionRecord
linked = record (paid_session "c1" "order_1" "pay_1" 100) { shopify_order_id = some "gid://1" } ∷ []

apply_all-IsLinkedTo_example :
    All (IsLinkedTo "c1" "gid://1") (apply_all (listed CheckoutSessionRecord) ops linked)
apply_all-IsLinkedTo_example =
    apply_all-IsLinkedTo (listed CheckoutSessionRecord) "c1" "gid://1" ops linked
      (tt, (tt, (tt, (tt, (tt, tt))))) ((λ e. refl), tt)

answer : CheckoutSessionRecord → Ensured
answer s = threw "SHOPIFY_TIMEOUT" "timeout"

-- While Shopify is awaited another worker claims the other checkout, whose payment is then refunded.
process_one-IsSettled_example :
    IsSettled
      (listed CheckoutSessionRecord)
      answer
      (1000 + order_lease_ms)
      (claim_update 1000 (paid_session "c1" "order_1" "pay_1" 100))
      2000
      (process_one
        (listed CheckoutSessionRecord)
        answer
        (apply_all (listed CheckoutSessionRecord) (claim none 1500 ∷ refund "c2" "pay_2" 1600 ∷ []))
        (apply_all (listed CheckoutSessionRecord) [])
        none
        1000
        2000
        sessions)
unfolding claim_order claimable claim_update listed ◌===◌
process_one-IsSettled_example =
    process_one-IsSettled (listed CheckoutSessionRecord) answer none 1000 2000
      (claim none 1500 ∷ refund "c2" "pay_2" 1600 ∷ []) [] sessions
      {s = claim_update 1000 (paid_session "c1" "order_1" "pay_1" 100)} sessions-Distinct refl
      (omega arith, (===-ne "c2" "c1" refl, tt)) tt

release_update-schedule_example :
    let s = leased_session "c1" "order_1" "pay_1" 100 9000 in
    (claimable none 900000 (release_update (5000 + delay_ms 2) "SHOPIFY_TIMEOUT" "timeout" s)
      ≡ true)
    ↔ (5000 + 300000 ≤ 900000)
release_update-schedule_example =
    release_update-schedule none 5000 2 900000 "SHOPIFY_TIMEOUT" "timeout"
      (leased_session "c1" "order_1" "pay_1" 100 9000) (omega arith) refl

abbrev refunded_sessions : List CheckoutSessionRecord
refunded_sessions = record (paid_session "c1" "order_1" "pay_1" 100) { status = refunded } ∷ []

apply_all-IsRefunded_example : All (IsRefunded "c1") (
    apply_all
      (listed CheckoutSessionRecord)
      (pay "c1" "order_1" "pay_1" 100 300 ∷ claim none 400 ∷ [])
      refunded_sessions)
apply_all-IsRefunded_example =
    apply_all-IsRefunded (listed CheckoutSessionRecord) "c1"
      (pay "c1" "order_1" "pay_1" 100 300 ∷ claim none 400 ∷ []) refunded_sessions (tt, (tt, tt))
      ((λ e. refl), tt)

abbrev large : NewCheckoutSession
large = record {
  public_id = "c9";
  idempotency_key = "k9";
  request_hash = "h";
  snapshot = record frozen { lines = record frozen_line { quantity = 50 } ∷ [] };
  status_token_hash = "s";
  tracking_token_hash = "t";
  shopify_source_identifier = "src";
}

create-over_limit_example :
    create (listed CheckoutSessionRecord) large sessions ≡ (sessions, database_error)
create-over_limit_example =
    create-over_limit (listed CheckoutSessionRecord) large sessions
      (λ h. absurd (let f = h.0 in omega arith))
