-- ===== src/Tests/Webhooks.antt =====
-- Runs of the webhook queue.
use trademart_b.Prelude.{
  ◌⊎◌, ℕ, zero, ◌≡◌, ◌≢◌, ◌↔◌, ◌≤◌, ◌<◌, ◌+◌, ◌*◌, refl, Bool, true, false, none, some, List, [],
  ◌∷◌, String, All, arith, ◌===◌, ===-ne,
}
use trademart_b.Mongo.Keys.{Distinct}
use trademart_b.Mongo.Listed.{listed}
use trademart_b.Webhooks.Queue.{
  WebhookEvent, received, failed, Delivery, new_event, claimable, claim_update, claim_next_event,
  Outcome, done, threw, mark, failure_update, clash, enqueue_event, recorded, drain_queue, lease_ms,
}
use trademart_b.Webhooks.Queue.Claims.{Op, claim, mark_row, claim_next_event-exclusive, apply_all}
use trademart_b.Webhooks.Queue.Drain.{drain_queue-IsValid, drain_queue-handled, IsValid}
use trademart_b.Webhooks.Queue.Failures.{failure_update-schedule, crash_loop-claimable, crash_loop}
use trademart_b.Webhooks.Queue.Duplicates.{enqueue_event-twice}
use trademart_b.Webhooks.Queue.Late.{mark-processed_again}

abbrev delivery : Delivery
delivery = record {
  topic = "orders/paid";
  shop_domain = none;
  webhook_id = some "w1";
  payload = "{}";
}

abbrev event : String → ℕ → WebhookEvent
event id at = record {
  id = id;
  shop_domain = "shop";
  topic = "orders/paid";
  webhook_id = none;
  received_at = at;
  processed_at = none;
  status = received;
  attempts = 0;
  next_attempt_at = some at;
  lease_expires_at = none;
  error = none;
  error_code = none;
  ignored_reason = none;
  request_id = none;
  processing_request_id = none;
  payload = "{}";
  expires_at = at + 2592000000;
}

abbrev events : List WebhookEvent
events = event "a" 1000 ∷ event "b" 2000 ∷ []

events-Distinct : Distinct (λ (e : WebhookEvent). e.id) events
unfolding ◌===◌
events-Distinct = (((===-ne "a" "b" refl), tt), (tt, tt))

claim_next_event-exclusive_example : (event "b" 2000).id ≢ (event "a" 1000).id
unfolding claim_next_event claimable claim_update listed apply_all ◌===◌
claim_next_event-exclusive_example =
    claim_next_event-exclusive (listed WebhookEvent) 3000 3500 events []
      {a = claim_update 3000 (event "a" 1000)} {b = claim_update 3500 (event "b" 2000)}
      events-Distinct refl tt (omega arith) refl

failing : WebhookEvent → Outcome
failing e = threw "timeout" "SHOPIFY_TIMEOUT"

fallback : String → String
fallback id = id

clock : ℕ → ℕ
clock k = 5000 + k

running : ℕ → Bool
running k = false

events-IsValid : All IsValid events
events-IsValid = ground arith

-- While the first event's processor is awaited, another worker claims the second and fails on it.
abbrev others : ℕ → List Op
others zero = claim 5001 ∷ mark_row 5002 none (event "b" 2000) (threw "timeout" "TIMEOUT") ∷ []
others _ = []

abbrev no_others : ℕ → List Op
no_others _ = []

drain_queue-IsValid_example :
    All IsValid
      (drain_queue
        (listed WebhookEvent)
        (some failing)
        fallback
        clock
        clock
        running
        (λ k. apply_all (listed WebhookEvent) (no_others k))
        (λ k. apply_all (listed WebhookEvent) (others k))
        true
        5
        events).0
drain_queue-IsValid_example =
    drain_queue-IsValid (listed WebhookEvent) failing fallback clock clock running no_others others
      true 5 events events-IsValid

drain_queue-handled_example :
    let (rows, handled) =
      drain_queue
        (listed WebhookEvent)
        (some failing)
        fallback
        clock
        clock
        running
        (λ k. apply_all (listed WebhookEvent) (no_others k))
        (λ k. apply_all (listed WebhookEvent) (others k))
        true
        5
        events in
    (handled ≡ 5) ⊎ ((handled < 5) × All (λ e. claimable (clock handled) e ≡ false) rows)
unfolding running
drain_queue-handled_example =
    drain_queue-handled (listed WebhookEvent) failing fallback clock clock running
      (λ k. apply_all (listed WebhookEvent) (no_others k))
      (λ k. apply_all (listed WebhookEvent) (others k)) 5 events (λ k. refl)

failure_update-schedule_example :
    let e' = failure_update 9000 none 2 "timeout" "SHOPIFY_TIMEOUT" (event "a" 1000) in
    ((4 ≤ 2) × (e'.status ≡ failed))
    ⊎ ((2 < 4) × (e'.status ≢ failed) × ((claimable 400000 e' ≡ true) ↔ (9000 + 300000 ≤ 400000)))
failure_update-schedule_example =
    failure_update-schedule 9000 400000 none 2 "timeout" "SHOPIFY_TIMEOUT" (event "a" 1000)
      (omega arith)

mark-processed_again_example :
    ¬ All
      (λ e. e.id ≡ "a" → claimable (9000 + 1800000) e ≡ false)
      (mark
        (listed WebhookEvent)
        9000
        none
        (record (event "a" 1000) { attempts = 1 })
        (threw "timeout" "SHOPIFY_TIMEOUT")
        (mark
          (listed WebhookEvent)
          8000
          none
          (record (event "a" 1000) { attempts = 2 })
          done
          events))
mark-processed_again_example =
    mark-processed_again (listed WebhookEvent) 8000 9000 none none
      (record (event "a" 1000) { attempts = 2 }) (record (event "a" 1000) { attempts = 1 })
      "timeout" "SHOPIFY_TIMEOUT" events refl (λ h. h.0 refl) (omega arith) (omega arith)

crash_loop-claimable_example :
    ((crash_loop 10 3000 (event "a" 1000)).attempts ≡ 0 + 10)
    × (claimable (3000 + 10 * lease_ms) (crash_loop 10 3000 (event "a" 1000)) ≡ true)
crash_loop-claimable_example =
    crash_loop-claimable 10 3000 (event "a" 1000) (unfold claimable in refl)

enqueue_event-twice_example :
    let rows =
      apply_all
        (listed WebhookEvent)
        (others 0)
        (enqueue_event (listed WebhookEvent) true "c" "shop" none 7000 30 delivery events).0 in
    let (rows', answer) =
      enqueue_event (listed WebhookEvent) true "d" "shop" none 8000 30 delivery rows in
    (rows' ≡ rows) × ((j : String) → answer ≢ recorded j)
unfolding enqueue_event clash new_event listed ◌===◌
enqueue_event-twice_example =
    enqueue_event-twice (listed WebhookEvent) "c" "d" "shop" none none 7000 8000 30 delivery
      delivery (others 0) events {w = "w1"} {k = "c"} refl refl refl
