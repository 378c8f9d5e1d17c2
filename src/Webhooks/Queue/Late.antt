-- ===== src/Webhooks/Queue/Late.antt =====
-- What a worker that outlives its lease does to an event that another worker has finished:
-- `markFailure` of src/webhooks/webhook.queue.ts.
use mathlib.Core.Path.{subst}
use trademart_b.Prelude.{
  ℕ, zero, suc, ◌+◌, ◌<◌, ◌≡◌, ◌≢◌, ◌∙◌, true, false, Option, List, ◌∷◌, String, All, All-map,
  All-append_right, arith, ===_iff, ◌===◌, Option-cases, inl, inr,
}
use trademart_b.Mongo.{Collection}
use trademart_b.Webhooks.Queue.{
  WebhookEvent, Outcome, done, threw, claimable, outcome_update, failure_update, mark,
}
use trademart_b.Webhooks.Queue.Claims.{outcome_update-id}

failure_update-claimable :
    (now : ℕ) (q : Option String) (attempts : ℕ) (message code : String) (e : WebhookEvent)
    → 0 < attempts
    → attempts < 4
    → claimable (now + 1800000) (failure_update now q attempts message code e) ≡ true
unfolding failure_update claimable
failure_update-claimable now q zero message code e h k = absurd (omega arith)
failure_update-claimable now q (suc zero) message code e h k = ground arith
failure_update-claimable now q (suc (suc zero)) message code e h k = ground arith
failure_update-claimable now q (suc (suc (suc zero))) message code e h k = ground arith
failure_update-claimable now q (suc (suc (suc (suc n)))) message code e h k = absurd (omega arith)

module _ (db : Collection WebhookEvent) where
  -- Where an event of the row's id is stored, the mark updates such an event.
  mark-kept :
      (now : ℕ) (q : Option String) (row : WebhookEvent) (outcome : Outcome)
      (rows : List WebhookEvent) (P : WebhookEvent → Type 0)
      → ¬ All (λ e. e.id ≢ row.id) rows
      → ((e : WebhookEvent) → e.id ≡ row.id → ¬ P (outcome_update now q row.attempts outcome e))
      → ¬ All P (mark db now q row outcome rows)
  unfolding mark
  mark-kept now q row outcome rows P there gives all =
      let update = outcome_update now q row.attempts outcome in
      elim (Option-cases (db.find_one_and_update (λ e. e.id === row.id) (λ _. 0) update rows).1) [
        | inl missed ↦ there (
            All-map (λ e. (e.id === row.id) ≡ false) (λ e. e.id ≢ row.id)
              (λ e no same. let t = (===_iff e.id row.id).1 same in cc) rows
              (db.unmodified (λ e. e.id === row.id) (λ _. 0) update rows missed).1)
        | inr (new, hit) ↦
            let m = db.modified (λ e. e.id === row.id) (λ _. 0) update rows hit in
            gives m.old ((===_iff m.old.id row.id).0 m.matched)
              (All-append_right P m.ahead (update m.old ∷ m.behind)
                (subst (All P) m.after_eq all)).0
      ]

  -- After one worker has marked a stored event processed, the failure that another worker reports of
  -- its attempt 1, 2 or 3 on that event puts it back into the queue: some event of that id is
  -- claimable half an hour later.
  pub mark-processed_again :
      (done_at now : ℕ) (q q' : Option String) (first late : WebhookEvent) (message code : String)
      (rows : List WebhookEvent)
      → first.id ≡ late.id
      → ¬ All (λ e. e.id ≢ first.id) rows
      → 0 < late.attempts
      → late.attempts < 4
      → ¬ All
          (λ e. e.id ≡ late.id → claimable (now + 1800000) e ≡ false)
          (mark db now q late (threw message code) (mark db done_at q' first done rows))
  mark-processed_again done_at now q q' first late message code rows same there some_try few =
      mark-kept now q late (threw message code) _
        (λ e. e.id ≡ late.id → claimable (now + 1800000) e ≡ false)
        (mark-kept done_at q' first done rows (λ e. e.id ≢ late.id) there
          (λ e is gone. gone (outcome_update-id done_at q' first.attempts done e ∙ is ∙ same)))
        (λ e is quiet.
          let again = failure_update-claimable now q late.attempts message code e some_try few in
          let not_again =
            quiet (outcome_update-id now q late.attempts (threw message code) e ∙ is) in
          unfold outcome_update in (cc))
