-- ===== src/Webhooks/Queue/Duplicates.antt =====
-- Shopify's repeated deliveries: `enqueueEvent` of src/webhooks/webhook.queue.ts.
use mathlib.Core.Path.{subst}
use trademart_b.Prelude.{
  ℕ, ◌≡◌, ◌≢◌, refl, sym, ◌∙◌, Bool, true, false, Option, some, List, [], ◌∷◌, String, All, All-map,
  All-append, All-append_left, All-append_right, arith, ===_iff, ◌===◌, Option-cases, inl, inr,
}
use trademart_b.Mongo.{Collection, Created, stored, duplicate_key, errored}
use trademart_b.Webhooks.Queue.{
  WebhookEvent, Outcome, done, skipped, threw, Delivery, recorded, claimable, claim_update,
  outcome_update, is_failed, retry_update, retry_failed_event, claim_next_event, mark,
  enqueue_event, enqueued_of, new_event, clash,
}
use trademart_b.Webhooks.Queue.Claims.{Op, claim, mark_row, retry, enqueue, apply, apply_all}

clash_same :
    (w : String) (new old : WebhookEvent)
    → new.webhook_id ≡ some w
    → clash new old ≡ false
    → old.webhook_id ≢ some w
unfolding clash
clash_same w new old h c same = let t = (===_iff w w).1 refl in ground arith

outcome_update-webhook_id :
    (now : ℕ) (request_id : Option String) (attempts : ℕ) (outcome : Outcome) (e : WebhookEvent)
    → (outcome_update now request_id attempts outcome e).webhook_id ≡ e.webhook_id
unfolding outcome_update
outcome_update-webhook_id now request_id attempts done e = refl
outcome_update-webhook_id now request_id attempts (skipped reason) e = refl
outcome_update-webhook_id now request_id attempts (threw message code) e = ground arith

-- No event of that webhook id is stored.
abbrev Unseen : String → List WebhookEvent → Type 0
Unseen w rows = All (λ e. e.webhook_id ≢ some w) rows

module _ (db : Collection WebhookEvent) where
  -- A delivery whose webhook id is in the queue is not stored again: the rows stay, and the answer names
  -- no new event.
  pub enqueue_event-duplicate :
      (connected : Bool) (id store_domain : String) (request_id : Option String) (now days : ℕ)
      (input : Delivery) (rows : List WebhookEvent) {w : String}
      → input.webhook_id ≡ some w
      → ¬ All (λ e. e.webhook_id ≢ some w) rows
      → let (rows', answer) =
          enqueue_event db connected id store_domain request_id now days input rows in
        (rows' ≡ rows) × ((k : String) → answer ≢ recorded k)
  unfolding enqueue_event enqueued_of
  enqueue_event-duplicate false id store_domain request_id now days input rows same held =
      (refl, λ k e. cc)
  enqueue_event-duplicate true id store_domain request_id now days input rows {w} same held =
      go (db.create clash new rows) refl
    where
      new : WebhookEvent
      new = new_event id store_domain request_id now days input

      go :
          (c : Created WebhookEvent)
          → db.create clash new rows ≡ c
          → ((enqueued_of db id rows c).0 ≡ rows)
            × ((k : String) → (enqueued_of db id rows c).1 ≢ recorded k)
      go (stored after) e = absurd (
          held (
            All-map (λ d. clash new d ≡ false) (λ d. d.webhook_id ≢ some w)
              (λ d. clash_same w new d (unfold new_event in same)) rows
              (db.created clash new rows e).1))
      go duplicate_key e = (refl, λ k f. cc)
      go errored e = (refl, λ k f. cc)

  enqueued-holds :
      (id w : String) (new : WebhookEvent) (rows : List WebhookEvent) (c : Created WebhookEvent)
      {k : String}
      → db.create clash new rows ≡ c
      → new.webhook_id ≡ some w
      → (enqueued_of db id rows c).1 ≡ recorded k
      → ¬ All (λ e. e.webhook_id ≢ some w) (enqueued_of db id rows c).0
  unfolding enqueued_of
  enqueued-holds id w new rows (stored after) e same kept fresh =
      (All-append_right (λ d. d.webhook_id ≢ some w) rows (new ∷ [])
          (subst (All (λ d. d.webhook_id ≢ some w)) (db.created clash new rows e).0 fresh)).0
        same
  enqueued-holds id w new rows duplicate_key e same kept fresh = cc
  enqueued-holds id w new rows errored e same kept fresh = cc

  -- An update that keeps webhook ids does not forget one.
  updated-Unseen :
      (w : String) (filter : WebhookEvent → Bool) (rank : WebhookEvent → ℕ)
      (update : WebhookEvent → WebhookEvent) (rows : List WebhookEvent)
      → ((e : WebhookEvent) → (update e).webhook_id ≡ e.webhook_id)
      → Unseen w (db.find_one_and_update filter rank update rows).0
      → Unseen w rows
  updated-Unseen w filter rank update rows keeps h =
      elim (Option-cases (db.find_one_and_update filter rank update rows).1) [
        | inl missed ↦ subst (Unseen w) (db.unmodified filter rank update rows missed).0 h
        | inr (new, hit) ↦
            let m = db.modified filter rank update rows hit in
            let h' = subst (Unseen w) m.after_eq h in
            let P = λ (e : WebhookEvent). e.webhook_id ≢ some w in
            let tail = All-append_right P m.ahead (update m.old ∷ m.behind) h' in
            subst (Unseen w) (sym m.before_eq) (
              All-append P m.ahead (m.old ∷ m.behind)
                (All-append_left P m.ahead (update m.old ∷ m.behind) h')
                ((λ e. tail.0 (keeps m.old ∙ e)), tail.1))
      ]

  enqueued-Unseen :
      (w id : String) (new : WebhookEvent) (rows : List WebhookEvent) (c : Created WebhookEvent)
      → db.create clash new rows ≡ c
      → Unseen w (enqueued_of db id rows c).0
      → Unseen w rows
  unfolding enqueued_of
  enqueued-Unseen w id new rows (stored after) e h =
      All-append_left (λ d. d.webhook_id ≢ some w) rows (new ∷ [])
        (subst (Unseen w) (db.created clash new rows e).0 h)
  enqueued-Unseen w id new rows duplicate_key e h = h
  enqueued-Unseen w id new rows errored e h = h

  apply-Unseen :
      (w : String) (op : Op) (rows : List WebhookEvent)
      → Unseen w (apply db op rows)
      → Unseen w rows
  unfolding apply claim_next_event mark retry_failed_event enqueue_event
  apply-Unseen w (claim now) rows h =
      updated-Unseen w (claimable now) (λ e. e.received_at) (claim_update now) rows
        (λ e. unfold claim_update in refl) h
  apply-Unseen w (mark_row now request_id row outcome) rows h =
      updated-Unseen w (λ e. e.id === row.id) (λ _. 0)
        (outcome_update now request_id row.attempts outcome) rows
        (outcome_update-webhook_id now request_id row.attempts outcome) h
  apply-Unseen w (retry false id now) rows h = h
  apply-Unseen w (retry true id now) rows h =
      updated-Unseen w (is_failed id) (λ _. 0) (retry_update now) rows
        (λ e. unfold retry_update in refl) h
  apply-Unseen w (enqueue false id store_domain request_id now days input) rows h = h
  apply-Unseen w (enqueue true id store_domain request_id now days input) rows h =
      enqueued-Unseen w id (new_event id store_domain request_id now days input) rows _ refl h

  apply_all-Unseen :
      (w : String) (ops : List Op) (rows : List WebhookEvent)
      → Unseen w (apply_all db ops rows)
      → Unseen w rows
  unfolding apply_all
  apply_all-Unseen w [] rows h = h
  apply_all-Unseen w (op ∷ ops) rows h =
      apply-Unseen w op rows (apply_all-Unseen w ops (apply db op rows) h)

  -- Shopify's second delivery of a webhook is not stored: once the first is recorded, and whatever the
  -- workers, the operator and other deliveries do to the queue in between, another delivery with the
  -- same webhook id leaves the queue as it is, with any payload, as long as no stored event is deleted
  -- in between: the database deletes an event when its retention is over.
  pub enqueue_event-twice :
      (id id' store_domain : String) (q q' : Option String) (now now' days : ℕ)
      (first second : Delivery) (between : List Op) (rows : List WebhookEvent) {w k : String}
      → first.webhook_id ≡ some w
      → second.webhook_id ≡ some w
      → (enqueue_event db true id store_domain q now days first rows).1 ≡ recorded k
      → let rows' =
          apply_all db between (enqueue_event db true id store_domain q now days first rows).0 in
        let (rows'', answer) = enqueue_event db true id' store_domain q' now' days second rows' in
        (rows'' ≡ rows') × ((j : String) → answer ≢ recorded j)
  unfolding enqueue_event enqueued_of
  enqueue_event-twice id id' store_domain q q' now now' days first second between rows {w} {k} f s
        kept =
      enqueue_event-duplicate true id' store_domain q' now' days second _ s (λ unseen.
        enqueued-holds id w (new_event id store_domain q now days first) rows _ refl
          (unfold new_event in f) kept (apply_all-Unseen w between _ unseen))
