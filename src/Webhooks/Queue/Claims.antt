-- ===== src/Webhooks/Queue/Claims.antt =====
-- A claimed event belongs to its worker until the lease runs out, whatever else the queue does.
use mathlib.Core.Path.{subst}
use trademart_b.Prelude.{
  ℕ, ◌+◌, ◌<◌, ◌≡◌, ◌≢◌, refl, sym, ap, Bool, true, false, Option, some, List, [], ◌∷◌, String, All,
  All-map, arith, ===_iff, ◌===◌, All-concat, ◌∙◌,
}
use trademart_b.Mongo.{Collection, Created, stored, duplicate_key, errored}
use trademart_b.Mongo.Laws.{All-find_one_and_update, All-old}
use trademart_b.Mongo.Keys.{Distinct, find_one_and_update-only}
use trademart_b.Webhooks.Queue.{
  WebhookEvent, processing, lease_ms, Outcome, done, skipped, threw, Delivery, enqueued_of,
  claimable, claim_update, outcome_update, is_failed, retry_update, new_event, clash,
  claim_next_event, mark, retry_failed_event, enqueue_event,
}

-- What the workers, the operator and the deliveries do to the queue, one after the other.
pub data Op : Type 0 where
  claim : ℕ → Op
  mark_row : ℕ → Option String → WebhookEvent → Outcome → Op
  retry : Bool → String → ℕ → Op
  enqueue : Bool → String → String → Option String → ℕ → ℕ → Delivery → Op

-- An operation that another worker can do while the lease on `id` lasts: it claims before `until`,
-- marks its own event, retries any event, or stores one under a fresh id.
abbrev pub IsForeign : String → ℕ → Op → Type 0
IsForeign id until (claim now) = now < until
IsForeign id until (mark_row now request_id row outcome) = row.id ≢ id
IsForeign id until (retry connected other now) = Unit
IsForeign id until (enqueue connected new store_domain request_id now days input) = new ≢ id

-- Every row with that id is being processed under a lease until that time.
abbrev Held : String → ℕ → WebhookEvent → Type 0
Held id until e = e.id ≡ id → (e.status ≡ processing) × (e.lease_expires_at ≡ some until)

pub outcome_update-id :
    (now : ℕ) (request_id : Option String) (attempts : ℕ) (outcome : Outcome) (e : WebhookEvent)
    → (outcome_update now request_id attempts outcome e).id ≡ e.id
unfolding outcome_update
outcome_update-id now request_id attempts done e = refl
outcome_update-id now request_id attempts (skipped reason) e = refl
outcome_update-id now request_id attempts (threw message code) e = ground arith

pub claim_update-id : (now : ℕ) (e : WebhookEvent) → (claim_update now e).id ≡ e.id
unfolding claim_update
claim_update-id now e = refl

module _ (db : Collection WebhookEvent) where
  unfoldable pub apply : Op → List WebhookEvent → List WebhookEvent
  apply (claim now) rows = (claim_next_event db now rows).0
  apply (mark_row now request_id row outcome) rows = mark db now request_id row outcome rows
  apply (retry connected id now) rows = (retry_failed_event db connected id now rows).0
  apply (enqueue connected id store_domain request_id now days input) rows =
      (enqueue_event db connected id store_domain request_id now days input rows).0

  unfoldable pub apply_all : List Op → List WebhookEvent → List WebhookEvent
  unfolding apply
  apply_all [] rows = rows
  apply_all (op ∷ ops) rows = apply_all ops (apply op rows)

  module _ (id : String) (until : ℕ) where
    claim-Held :
        (now : ℕ) (rows : List WebhookEvent)
        → now < until
        → All (Held id until) rows
        → All (Held id until) (claim_next_event db now rows).0
    unfolding claim_next_event claimable claim_update
    claim-Held now rows early h =
        All-find_one_and_update db (Held id until) (claimable now) (λ e. e.received_at)
          (claim_update now) rows
          (λ d held hit same. let (s, l) = held same in absurd (ground arith)) h

    mark-Held :
        (now : ℕ) (request_id : Option String) (row : WebhookEvent) (outcome : Outcome)
        (rows : List WebhookEvent)
        → row.id ≢ id
        → All (Held id until) rows
        → All (Held id until) (mark db now request_id row outcome rows)
    unfolding mark
    mark-Held now request_id row outcome rows other h =
        All-find_one_and_update db (Held id until) (λ e. e.id === row.id) (λ _. 0)
          (outcome_update now request_id row.attempts outcome) rows
          (λ d held hit same. absurd (
            other (
              sym ((===_iff d.id row.id).0 hit)
              ∙ sym (outcome_update-id now request_id row.attempts outcome d)
              ∙ same)))
          h

    retry-Held :
        (connected : Bool) (other : String) (now : ℕ) (rows : List WebhookEvent)
        → All (Held id until) rows
        → All (Held id until) (retry_failed_event db connected other now rows).0
    unfolding retry_failed_event is_failed retry_update
    retry-Held false other now rows h = h
    retry-Held true other now rows h =
        All-find_one_and_update db (Held id until) (is_failed other) (λ _. 0) (retry_update now)
          rows (λ d held hit same. let (s, l) = held same in absurd (ground arith)) h

    enqueue-Held :
        (connected : Bool) (new store_domain : String) (request_id : Option String) (now days : ℕ)
        (input : Delivery) (rows : List WebhookEvent)
        → new ≢ id
        → All (Held id until) rows
        → All
            (Held id until)
            (enqueue_event db connected new store_domain request_id now days input rows).0
    unfolding enqueue_event new_event
    enqueue-Held false new store_domain request_id now days input rows other h = h
    enqueue-Held true new store_domain request_id now days input rows other h =
        go (db.create clash (new_event new store_domain request_id now days input) rows) refl
      where
        go :
            (c : Created WebhookEvent)
            → db.create clash (new_event new store_domain request_id now days input) rows ≡ c
            → All (Held id until) (enqueued_of db new rows c).0
        go (stored after) e =
            subst (All (Held id until)) (sym (db.created clash _ rows e).0)
              (All-concat (Held id until) rows h (λ same. absurd (other same)))
        go duplicate_key e = h
        go errored e = h

    apply-Held :
        (op : Op) (rows : List WebhookEvent)
        → IsForeign id until op
        → All (Held id until) rows
        → All (Held id until) (apply op rows)
    unfolding apply
    apply-Held (claim now) rows f h = claim-Held now rows f h
    apply-Held (mark_row now request_id row outcome) rows f h =
        mark-Held now request_id row outcome rows f h
    apply-Held (retry connected other now) rows f h = retry-Held connected other now rows h
    apply-Held (enqueue connected new store_domain request_id now days input) rows f h =
        enqueue-Held connected new store_domain request_id now days input rows f h

    apply_all-Held :
        (ops : List Op) (rows : List WebhookEvent)
        → All (IsForeign id until) ops
        → All (Held id until) rows
        → All (Held id until) (apply_all ops rows)
    unfolding apply_all
    apply_all-Held [] rows f h = h
    apply_all-Held (op ∷ ops) rows f h =
        apply_all-Held ops (apply op rows) f.1 (apply-Held op rows f.0 h)

    claim-ne :
        (now : ℕ) (rows : List WebhookEvent) {b : WebhookEvent}
        → now < until
        → All (Held id until) rows
        → (claim_next_event db now rows).1 ≡ some b
        → b.id ≢ id
    unfolding claim_next_event claimable
    claim-ne now rows {b} early h hit same =
        let m = db.modified (claimable now) (λ e. e.received_at) (claim_update now) rows hit in
        let held : Held id until m.old = All-old db (Held id until) m h in
        let (s, l) = held (
          sym (claim_update-id now m.old)
          ∙ sym (ap (λ (e : WebhookEvent). e.id) m.new_eq)
          ∙ same) in
        let matched = m.matched in ground arith

  claimed-Held :
      (now : ℕ) (rows : List WebhookEvent) {a : WebhookEvent}
      → Distinct (λ e. e.id) rows
      → (claim_next_event db now rows).1 ≡ some a
      → All (Held a.id (now + lease_ms)) (claim_next_event db now rows).0
  unfolding claim_next_event claim_update
  claimed-Held now rows {a} distinct hit =
      let m = db.modified (claimable now) (λ e. e.received_at) (claim_update now) rows hit in
      All-map (λ d. d.id ≡ a.id → d ≡ a) (Held a.id (now + lease_ms))
        (λ d only same.
          let e = only same ∙ m.new_eq in
          (ap (λ (x : WebhookEvent). x.status) e, ap (λ (x : WebhookEvent). x.lease_expires_at) e))
        (claim_next_event db now rows).0
        (find_one_and_update-only (λ e. e.id) db (claimable now) (λ e. e.received_at)
          (claim_update now) rows (claim_update-id now) distinct hit)

  -- Where no two events share an id: after a worker has claimed an event, whatever other workers, the
  -- operator and the deliveries then do while the lease lasts (they claim, mark other events, retry,
  -- and store events under other ids), a claim made before the lease runs out never returns that event.
  pub claim_next_event-exclusive :
      (now later : ℕ) (rows : List WebhookEvent) (ops : List Op) {a b : WebhookEvent}
      → Distinct (λ e. e.id) rows
      → (claim_next_event db now rows).1 ≡ some a
      → All (IsForeign a.id (now + lease_ms)) ops
      → later < now + lease_ms
      → (claim_next_event db later (apply_all ops (claim_next_event db now rows).0)).1 ≡ some b
      → b.id ≢ a.id
  claim_next_event-exclusive now later rows ops {a} distinct first foreign early second =
      claim-ne a.id (now + lease_ms) later (apply_all ops (claim_next_event db now rows).0) early
        (apply_all-Held a.id (now + lease_ms) ops (claim_next_event db now rows).0 foreign
          (claimed-Held now rows distinct first))
        second
