-- ===== src/Webhooks/Queue/Drain.antt =====
-- One pass of the worker over the queue, between the writes of the other workers, the operator and the
-- deliveries.
use mathlib.Core.Path.{subst}
use trademart_b.Prelude.{
  ltb, Bool-cases, ◌⊎◌, inl, inr, ℕ, zero, suc, ◌+◌, ◌≤◌, ◌<◌, ◌≡◌, ◌≢◌, refl, sym, Bool, true,
  false, Option, none, some, List, [], ◌∷◌, String, All, All-concat, arith, ◌===◌, Option-cases,
  is_null,
}
use trademart_b.Mongo.{Collection, Created, stored, duplicate_key, errored}
use trademart_b.Mongo.Laws.{All-find_one_and_update}
use trademart_b.Webhooks.Queue.{
  WebhookEvent, received, processing, Outcome, Delivery, claimable, claim_update, outcome_update,
  claim_next_event, mark, process_row, drain_from, drain_queue, enqueue_event, enqueued_of,
  new_event, clash, is_failed, retry_update, retry_failed_event,
}
use trademart_b.Webhooks.Queue.Claims.{Op, claim, mark_row, retry, enqueue, apply, apply_all}

-- What every stored event has between two steps of the queue.
pub record IsValid (e : WebhookEvent) : Type 0 where
  pub waiting :
      e.status ≡ received → (is_null e.next_attempt_at ≡ false) × (e.lease_expires_at ≡ none)
  pub working : e.status ≡ processing → is_null e.lease_expires_at ≡ false
  pub settled :
      e.status ≢ received
      → e.status ≢ processing
      → (e.next_attempt_at ≡ none) × (e.lease_expires_at ≡ none)

-- A worker leaves an event well formed whatever has become of it since the worker claimed it.
outcome_update-IsValid :
    (now : ℕ) (request_id : Option String) (attempts : ℕ) (outcome : Outcome) (e : WebhookEvent)
    → IsValid (outcome_update now request_id attempts outcome e)
unfolding outcome_update
outcome_update-IsValid now request_id attempts outcome e = ground arith

module _ (db : Collection WebhookEvent) where
  claim-IsValid :
      (now : ℕ) (rows : List WebhookEvent)
      → All IsValid rows
      → All IsValid (claim_next_event db now rows).0
  unfolding claim_next_event claim_update
  claim-IsValid now rows h =
      All-find_one_and_update db IsValid (claimable now) (λ e. e.received_at) (claim_update now)
        rows (λ d p hit. ground arith) h

  mark-IsValid :
      (now : ℕ) (request_id : Option String) (row : WebhookEvent) (outcome : Outcome)
      (rows : List WebhookEvent)
      → All IsValid rows
      → All IsValid (mark db now request_id row outcome rows)
  unfolding mark
  mark-IsValid now request_id row outcome rows h =
      All-find_one_and_update db IsValid (λ e. e.id === row.id) (λ _. 0)
        (outcome_update now request_id row.attempts outcome) rows
        (λ d p hit. outcome_update-IsValid now request_id row.attempts outcome d) h

  retry-IsValid :
      (connected : Bool) (id : String) (now : ℕ) (rows : List WebhookEvent)
      → All IsValid rows
      → All IsValid (retry_failed_event db connected id now rows).0
  unfolding retry_failed_event retry_update
  retry-IsValid false id now rows h = h
  retry-IsValid true id now rows h =
      All-find_one_and_update db IsValid (is_failed id) (λ _. 0) (retry_update now) rows
        (λ d p hit. ground arith) h

  enqueued-IsValid :
      (id : String) (new : WebhookEvent) (rows : List WebhookEvent) (c : Created WebhookEvent)
      → db.create clash new rows ≡ c
      → IsValid new
      → All IsValid rows
      → All IsValid (enqueued_of db id rows c).0
  unfolding enqueued_of
  enqueued-IsValid id new rows (stored after) e p h =
      subst (All IsValid) (sym (db.created clash new rows e).0) (All-concat IsValid rows h p)
  enqueued-IsValid id new rows duplicate_key e p h = h
  enqueued-IsValid id new rows errored e p h = h

  enqueue-IsValid :
      (connected : Bool) (id store_domain : String) (request_id : Option String) (now days : ℕ)
      (input : Delivery) (rows : List WebhookEvent)
      → All IsValid rows
      → All IsValid (enqueue_event db connected id store_domain request_id now days input rows).0
  unfolding enqueue_event
  enqueue-IsValid false id store_domain request_id now days input rows h = h
  enqueue-IsValid true id store_domain request_id now days input rows h =
      enqueued-IsValid id (new_event id store_domain request_id now days input) rows _ refl
        (unfold new_event in (ground arith)) h

  apply_all-IsValid :
      (ops : List Op) (rows : List WebhookEvent)
      → All IsValid rows
      → All IsValid (apply_all db ops rows)
  unfolding apply_all apply
  apply_all-IsValid [] rows h = h
  apply_all-IsValid (claim now ∷ ops) rows h = apply_all-IsValid ops _ (claim-IsValid now rows h)
  apply_all-IsValid (mark_row now request_id row outcome ∷ ops) rows h =
      apply_all-IsValid ops _ (mark-IsValid now request_id row outcome rows h)
  apply_all-IsValid (retry connected id now ∷ ops) rows h =
      apply_all-IsValid ops _ (retry-IsValid connected id now rows h)
  apply_all-IsValid (enqueue connected id store_domain request_id now days input ∷ ops) rows h =
      apply_all-IsValid ops _
        (enqueue-IsValid connected id store_domain request_id now days input rows h)

module _ (db : Collection WebhookEvent) (processor : WebhookEvent → Outcome)
    (fallback_id : String → String) (clock clock' : ℕ → ℕ) (stopping : ℕ → Bool) where
  module _ (before during : ℕ → List Op) where
    drain_from-IsValid :
        (left index : ℕ) (rows : List WebhookEvent)
        → All IsValid rows
        → All IsValid
            (drain_from db
              (some processor)
              fallback_id
              clock
              clock'
              stopping
              (λ k. apply_all db (before k))
              (λ k. apply_all db (during k))
              left
              index
              rows).0
    unfolding drain_from process_row
    drain_from-IsValid zero index rows h = h
    drain_from-IsValid (suc left) index rows h =
        let ready = apply_all-IsValid db (before index) rows h in
        let claimed = claim-IsValid db (clock index) (apply_all db (before index) rows) ready in
        elim (Bool-cases (stopping index)) [
          | inl stop ↦ rw (stop, drain_from) h
          | inr go ↦
              elim (Option-cases
                (claim_next_event db (clock index) (apply_all db (before index) rows)).1) [
                  | inl missed ↦ rw (go, missed, drain_from) claimed
                  | inr (row, hit) ↦
                      rw (go, hit, drain_from)
                        (drain_from-IsValid left (suc index) _ (
                          mark-IsValid db _ _ row (processor row) _
                            (apply_all-IsValid db (during index) _ claimed)))
                ]
        ]

    -- A pass of the worker keeps every event well formed, whatever the other workers, the operator and
    -- the deliveries write before each of its claims and while each processor is awaited, and also
    -- where the worker outlives its lease: a waiting event has a time and no lease, a processing one
    -- has a lease, and any other has neither.
    pub drain_queue-IsValid :
        (connected : Bool) (limit : ℕ) (rows : List WebhookEvent)
        → All IsValid rows
        → All IsValid
            (drain_queue db
              (some processor)
              fallback_id
              clock
              clock'
              stopping
              (λ k. apply_all db (before k))
              (λ k. apply_all db (during k))
              connected
              limit
              rows).0
    unfolding drain_queue
    drain_queue-IsValid false limit rows h = h
    drain_queue-IsValid true limit rows h = drain_from-IsValid limit 0 rows h

  module _ (before during : ℕ → List WebhookEvent → List WebhookEvent) where
    drain_from-handled :
        (left index : ℕ) (rows : List WebhookEvent)
        → let (rows', handled) =
            drain_from db
              (some processor)
              fallback_id
              clock
              clock'
              stopping
              before
              during
              left
              index
              rows in
          (handled ≤ index + left)
          × (((k : ℕ) → stopping k ≡ false)
              → handled < index + left
              → All (λ e. claimable (clock handled) e ≡ false) rows')
    unfolding drain_from
    drain_from-handled zero index rows = (omega arith, λ run less. absurd (omega arith))
    drain_from-handled (suc left) index rows = elim (Bool-cases (stopping index)) [
      | inl stop ↦ rw (stop, drain_from) (omega arith, λ run less. let e = run index in absurd (cc))
      | inr go ↦ elim (Option-cases (claim_next_event db (clock index) (before index rows)).1) [
        | inl missed ↦
            rw (go, missed, drain_from)
              (
                omega arith,
                λ run less.
                    unfold claim_next_event in
                    (let (same, idle) =
                        db.unmodified (claimable (clock index)) (λ e. e.received_at)
                          (claim_update (clock index)) (before index rows) missed in
                      subst (All (λ e. claimable (clock index) e ≡ false)) (sym same) idle),
              )
        | inr (row, hit) ↦
            let (bound, idle) = drain_from-handled left (suc index) (
              process_row db (some processor) fallback_id (clock' index) row
                (during index (claim_next_event db (clock index) (before index rows)).0)) in
            rw (go, hit, drain_from) (omega arith, λ run less. idle run (omega arith))
      ]
    ]

    -- A connected pass with a registered processor that is never told to stop either handles exactly
    -- `limit` events, or handles fewer and leaves no event claimable at the time of its last claim,
    -- whatever the others make of the queue before each of its claims and while each processor is
    -- awaited.
    pub drain_queue-handled :
        (limit : ℕ) (rows : List WebhookEvent)
        → ((k : ℕ) → stopping k ≡ false)
        → let (rows', handled) =
            drain_queue db
              (some processor)
              fallback_id
              clock
              clock'
              stopping
              before
              during
              true
              limit
              rows in
          (handled ≡ limit)
          ⊎ ((handled < limit) × All (λ e. claimable (clock handled) e ≡ false) rows')
    unfolding drain_queue
    drain_queue-handled limit rows run =
        let (bound, idle) = drain_from-handled limit 0 rows in
        let handled =
          (drain_from db (some processor) fallback_id clock clock' stopping before during limit 0
            rows).1 in
        elim (Bool-cases (ltb handled limit)) [
          | inl fewer ↦ inr (ground arith, idle run (ground arith))
          | inr all ↦ inl (ground arith)
        ]
