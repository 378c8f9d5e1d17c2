-- ===== src/Webhooks/Queue.antt =====
-- src/webhooks/webhook.queue.ts over the schema of src/database/models/WebhookEvent.ts: the durable
-- queue of verified deliveries. Times are epoch milliseconds, a payload is its JSON text, and each
-- reading of the clock is an argument. The processor that the queue is given is an argument too.
pub mod Claims
pub mod Drain
pub mod Failures
pub mod Duplicates
pub mod Late
use trademart_b.Prelude.{
  ℕ, zero, suc, ◌+◌, ◌*◌, ◌-◌, Bool, true, false, not, ◌||◌, ◌&&◌, Option, none, some, List, [],
  ◌∷◌, String, leb, due, holds, ◌===◌, if◌then◌else◌, is_null,
}
use trademart_b.Mongo.{Collection, Created, stored, duplicate_key, errored}

pub data WebhookState : Type 0 where
  received processing processed failed ignored : WebhookState

pub record WebhookEvent : Type 0 where
  pub id : String
  pub shop_domain : String
  pub topic : String
  pub webhook_id : Option String
  pub received_at : ℕ
  pub processed_at : Option ℕ
  pub status : WebhookState
  pub attempts : ℕ
  pub next_attempt_at : Option ℕ
  pub lease_expires_at : Option ℕ
  pub error : Option String
  pub error_code : Option String
  pub ignored_reason : Option String
  pub request_id : Option String
  pub processing_request_id : Option String
  pub payload : String
  pub expires_at : ℕ

abbrev pub lease_ms : ℕ
lease_ms = 300000

abbrev pub batch_size : ℕ
batch_size = 5

-- WEBHOOK_RETRY_DELAYS_MINUTES[index], none out of range
abbrev pub retry_delay_minutes : ℕ → Option ℕ
retry_delay_minutes zero = some 1
retry_delay_minutes (suc zero) = some 5
retry_delay_minutes (suc (suc zero)) = some 30
retry_delay_minutes _ = none

abbrev pub max_attempts : ℕ
max_attempts = 4

-- What the processor answers, its exceptions included (as `toAppError` reports them).
pub data Outcome : Type 0 where
  done : Outcome
  skipped : String → Outcome
  threw : String → String → Outcome

pub record Delivery : Type 0 where
  pub shop_domain : Option String
  pub topic : String
  pub webhook_id : Option String
  pub payload : String

pub data Enqueued : Type 0 where
  recorded : String → Enqueued
  duplicate : Enqueued
  not_stored : Enqueued
  raised : Enqueued

-- The unique indexes: `_id`, and `webhookId` where it is a string.
unfoldable pub clash : WebhookEvent → WebhookEvent → Bool
clash new old =
    (new.id === old.id) || elim new.webhook_id [ none ↦ false | some w ↦ holds old.webhook_id w ]

unfoldable pub new_event : String → String → Option String → ℕ → ℕ → Delivery → WebhookEvent
new_event id store_domain request_id now retention_days input = record {
  id = id;
  shop_domain = elim input.shop_domain [ none ↦ store_domain | some d ↦ d ];
  topic = input.topic;
  webhook_id = input.webhook_id;
  received_at = now;
  processed_at = none;
  status = received;
  attempts = 0;
  next_attempt_at = some now;
  lease_expires_at = none;
  error = none;
  error_code = none;
  ignored_reason = none;
  request_id = request_id;
  processing_request_id = none;
  payload = input.payload;
  expires_at = now + retention_days * 86400000;
}

-- `claimNextEvent`'s filter: received and due, or processing under a lease that has run out.
unfoldable pub claimable : ℕ → WebhookEvent → Bool
claimable now e = elim e.status [
  | received ↦ due e.next_attempt_at now
  | processing ↦ due e.lease_expires_at now
  | _ ↦ false
]

unfoldable pub claim_update : ℕ → WebhookEvent → WebhookEvent
claim_update now e = record e {
  status = processing;
  lease_expires_at = some (now + lease_ms);
  processing_request_id = none;
  attempts = e.attempts + 1;
}

unfoldable pub processed_update : ℕ → Option String → WebhookEvent → WebhookEvent
processed_update now request_id e = record e {
  status = processed;
  processed_at = some now;
  lease_expires_at = none;
  next_attempt_at = none;
  error = none;
  error_code = none;
  processing_request_id = request_id;
}

unfoldable pub ignored_update : ℕ → Option String → String → WebhookEvent → WebhookEvent
ignored_update now request_id reason e = record e {
  status = ignored;
  processed_at = some now;
  lease_expires_at = none;
  next_attempt_at = none;
  ignored_reason = some reason;
  processing_request_id = request_id;
}

-- `markFailure`: `attempts` is that of the row as the worker claimed it.
unfoldable pub failure_update :
    ℕ → Option String → ℕ → String → String → WebhookEvent → WebhookEvent
failure_update now request_id attempts message code e =
    elim (if leb max_attempts attempts then none else retry_delay_minutes (attempts - 1)) [
      | none ↦ record e {
        status = failed;
        lease_expires_at = none;
        next_attempt_at = none;
        error = some message;
        error_code = some code;
        processing_request_id = request_id;
      }
      | some minutes ↦ record e {
        status = received;
        lease_expires_at = none;
        next_attempt_at = some (now + minutes * 60000);
        error = some message;
        error_code = some code;
        processing_request_id = request_id;
      }
    ]

unfoldable pub outcome_update : ℕ → Option String → ℕ → Outcome → WebhookEvent → WebhookEvent
unfolding processed_update ignored_update failure_update
outcome_update now request_id attempts done e = processed_update now request_id e
outcome_update now request_id attempts (skipped reason) e = ignored_update now request_id reason e
outcome_update now request_id attempts (threw message code) e =
    failure_update now request_id attempts message code e

unfoldable pub is_failed : String → WebhookEvent → Bool
is_failed id e = (e.id === id) && elim e.status [ failed ↦ true | _ ↦ false ]

unfoldable pub retry_update : ℕ → WebhookEvent → WebhookEvent
retry_update now e = record e {
  status = received;
  attempts = 0;
  next_attempt_at = some now;
  lease_expires_at = none;
  error = none;
  error_code = none;
}

-- The operations over a collection. `connected` is `usingDatabase()`.
module _ (db : Collection WebhookEvent) where
  open db use {find_one_and_update}

  enqueued_of : String → List WebhookEvent → Created WebhookEvent → List WebhookEvent × Enqueued
  enqueued_of id rows (stored after) = (after, recorded id)
  enqueued_of id rows duplicate_key = (rows, duplicate)
  enqueued_of id rows errored = (rows, raised)

  unfoldable pub enqueue_event :
      Bool
      → String
      → String
      → Option String
      → ℕ
      → ℕ
      → Delivery
      → List WebhookEvent
      → List WebhookEvent × Enqueued
  unfolding enqueued_of
  enqueue_event connected id store_domain request_id now retention_days input rows =
      if not connected
      then (rows, not_stored)
      else enqueued_of id rows
          (db.create clash (new_event id store_domain request_id now retention_days input) rows)

  unfoldable pub claim_next_event : ℕ → List WebhookEvent → List WebhookEvent × Option WebhookEvent
  claim_next_event now rows =
      find_one_and_update (claimable now) (λ e. e.received_at) (claim_update now) rows

  -- `markProcessed`, `markIgnored` or `markFailure`, by the processor's answer.
  unfoldable pub mark :
      ℕ → Option String → WebhookEvent → Outcome → List WebhookEvent → List WebhookEvent
  mark now request_id row outcome rows =
      (find_one_and_update (λ e. e.id === row.id) (λ _. 0)
        (outcome_update now request_id row.attempts outcome) rows).0

  -- The context's request id: the delivery's, or `webhook-<id>`. With no processor the event is left
  -- as it was claimed.
  unfoldable pub process_row :
      Option (WebhookEvent → Outcome)
      → (String → String)
      → ℕ
      → WebhookEvent
      → List WebhookEvent
      → List WebhookEvent
  unfolding mark
  process_row none fallback_id now row rows = rows
  process_row (some processor) fallback_id now row rows =
      mark now (some (elim row.request_id [ none ↦ fallback_id row.id | some r ↦ r ])) row
        (processor row) rows

  unfoldable pub retry_failed_event :
      Bool → String → ℕ → List WebhookEvent → List WebhookEvent × Bool
  retry_failed_event connected id now rows =
      if not connected
      then (rows, false)
      else (let (rows', updated) =
            find_one_and_update (is_failed id) (λ _. 0) (retry_update now) rows in
          (rows', not (is_null updated)))

  -- The loop of `drainQueue` over the iterations left. Iteration k reads the clock at `clock k` to
  -- claim and at `clock' k` when the processor is done, and `stopping k` is the flag it finds. Before
  -- its claim the others make of the queue what `before k` says, and while its processor is awaited
  -- what `during k` says.
  module _ (processor : Option (WebhookEvent → Outcome)) (fallback_id : String → String)
      (clock clock' : ℕ → ℕ) (stopping : ℕ → Bool)
      (before during : ℕ → List WebhookEvent → List WebhookEvent) where
    drain_from : ℕ → ℕ → List WebhookEvent → List WebhookEvent × ℕ
    unfolding claim_next_event process_row
    drain_from zero index rows = (rows, index)
    drain_from (suc left) index rows = elim (stopping index) [
      | true ↦ (rows, index)
      | false ↦ elim (claim_next_event (clock index) (before index rows)).1 [
        | none ↦ ((claim_next_event (clock index) (before index rows)).0, index)
        | some row ↦ drain_from left (suc index) (
            process_row processor fallback_id (clock' index) row
              (during index (claim_next_event (clock index) (before index rows)).0))
      ]
    ]

    unfoldable pub drain_queue : Bool → ℕ → List WebhookEvent → List WebhookEvent × ℕ
    unfolding drain_from
    drain_queue connected limit rows =
        if not connected || is_null processor then (rows, 0) else drain_from limit 0 rows
