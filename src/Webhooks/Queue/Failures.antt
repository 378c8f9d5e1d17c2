-- ===== src/Webhooks/Queue/Failures.antt =====
-- Retries, duplicates, and what a worker that outlives its lease does.
use mathlib.Core.Path.{subst}
use trademart_b.Prelude.{
  ◌⊎◌, ℕ, zero, suc, ◌+◌, ◌*◌, ◌≤◌, ◌<◌, ◌≡◌, ◌≢◌, ◌↔◌, true, false, Option, List, String, All,
  All-map, arith, ===_iff, Option-cases, inl, inr, ◌∙◌, if◌then◌else◌, ◌==◌,
}
use trademart_b.Mongo.{Collection}
use trademart_b.Mongo.Laws.{All-old}
use trademart_b.Webhooks.Queue.{
  WebhookEvent, failed, lease_ms, claimable, claim_update, failure_update, is_failed, retry_update,
  retry_failed_event,
}

-- The failed attempts are counted from 1. The fourth or a later one leaves the event failed; an earlier
-- one leaves it claimable exactly from 1, 5 or 30 minutes on, after attempt 1, 2 or 3.
pub failure_update-schedule :
    (now later : ℕ) (request_id : Option String) (attempts : ℕ) (message code : String)
    (e : WebhookEvent)
    → 0 < attempts
    → let e' = failure_update now request_id attempts message code e in
      ((4 ≤ attempts) × (e'.status ≡ failed))
      ⊎ ((attempts < 4)
          × (e'.status ≢ failed)
          × ((claimable later e' ≡ true) ↔ (
              now + (if attempts == 1 then 60000 else (if attempts == 2 then 300000 else 1800000))
              ≤ later)))
unfolding failure_update claimable
failure_update-schedule now later request_id zero message code e h = absurd (omega arith)
failure_update-schedule now later request_id (suc zero) message code e h = ground arith
failure_update-schedule now later request_id (suc (suc zero)) message code e h = ground arith
failure_update-schedule now later request_id (suc (suc (suc zero))) message code e h = ground arith
failure_update-schedule now later request_id (suc (suc (suc (suc n)))) message code e h =
    ground arith

-- A worker claims the event each time its lease runs out, and dies each time before it marks it.
pub crash_loop : ℕ → ℕ → WebhookEvent → WebhookEvent
crash_loop zero now e = e
crash_loop (suc n) now e = crash_loop n (now + lease_ms) (claim_update now e)

-- However often the worker dies over an event, the event is claimable again, with an attempt more on
-- its count each time: the bound of four attempts is not reached this way.
pub crash_loop-claimable :
    (n now : ℕ) (e : WebhookEvent)
    → claimable now e ≡ true
    → ((crash_loop n now e).attempts ≡ e.attempts + n)
      × (claimable (now + n * lease_ms) (crash_loop n now e) ≡ true)
unfolding crash_loop
crash_loop-claimable zero now e h = (omega arith, subst (λ t. claimable t e ≡ true) (omega arith) h)
crash_loop-claimable (suc n) now e h =
    let again : claimable (now + lease_ms) (claim_update now e) ≡ true =
      unfold claimable claim_update in (ground arith) in
    let (count, free) = crash_loop-claimable n (now + lease_ms) (claim_update now e) again in
    (
      count ∙ (unfold claim_update in (omega arith)),
      subst (λ t. claimable t (crash_loop n (now + lease_ms) (claim_update now e)) ≡ true)
          (omega arith) free,
    )

is_failed-false :
    (id : String) (e : WebhookEvent) → is_failed id e ≡ false → e.id ≡ id → e.status ≢ failed
unfolding is_failed
is_failed-false id e h same f = let t = (===_iff e.id id).1 same in ground arith

is_failed-true :
    (id : String) (e : WebhookEvent) → is_failed id e ≡ true → (e.id ≡ id) × (e.status ≡ failed)
unfolding is_failed
is_failed-true id e h = ground (arith, ===_iff e.id id)

module _ (db : Collection WebhookEvent) where
  -- An operator's retry changes nothing and says so exactly when no event of that id has failed, while
  -- the database is connected.
  pub retry_failed_event-refuses_iff :
      (id : String) (now : ℕ) (rows : List WebhookEvent)
      → (retry_failed_event db true id now rows ≡ (rows, false))
        ↔ All (λ e. e.id ≡ id → e.status ≢ failed) rows
  unfolding retry_failed_event
  retry_failed_event-refuses_iff id now rows =
      elim (Option-cases
        (db.find_one_and_update (is_failed id) (λ _. 0) (retry_update now) rows).1) [
          | inl missed ↦
              let (same, none_failed) =
                db.unmodified (is_failed id) (λ _. 0) (retry_update now) rows missed in
              (
                (λ _.
                    All-map (λ e. is_failed id e ≡ false) (λ e. e.id ≡ id → e.status ≢ failed)
                      (is_failed-false id) rows none_failed),
                λ _. ground arith,
              )
          | inr (new, hit) ↦
              let m = db.modified (is_failed id) (λ _. 0) (retry_update now) rows hit in
              (
                (λ e. absurd (ground arith)),
                λ h.
                    let found = is_failed-true id m.old m.matched in
                    absurd (All-old db (λ e. e.id ≡ id → e.status ≢ failed) m h found.0 found.1),
              )
        ]
