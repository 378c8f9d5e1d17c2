-- ===== src/Intelligence/Push/Finished.antt =====
-- The end of a push, src/intelligence/push.orchestrator.ts from the product on, through the phases.
use trademart_b.Prelude.{
  ℕ, Bool, true, false, not, Option, none, some, List, String, ◌≡◌, refl, ap, sym, ◌∙◌, ◌===◌,
  ===_iff, if◌then◌else◌, Bool-cases, inl, inr,
}
use trademart_b.Intelligence.Push.Types.{
  PushAsDraftInput, PushOutcome, PushAuditFacts, ResolvedListingPrice, ShopifyProductState,
  CostRequest, CandidateSource, VariantMapping, Failure, app_error, push_claim_lost,
}
use trademart_b.Intelligence.Push.Ports.{
  PushPorts, Run, raise_if, asked_for, written, wrote, visible, asked, hid, costed, succeeded,
  incident, hide_event, success_event,
}
use trademart_b.Intelligence.Push.Finish.{
  enforce_hidden, hidden_after, save_cost, was_saved, save_if_known, cost_request, complete, report,
}
use trademart_b.Intelligence.Push.Protocol.{Phase, known, done, reported, advance}
use trademart_b.Intelligence.Push.Follows.{
  Ends, returns, throws, At, At-eq, call-Ends, Ends-map, call-next, tried-next, raise_if-next,
  Holds, known_id, done_id, reported_id, Stopped, with_product, Finished, Follows,
}

pub self : (id : String) → (id === id) ≡ true
self id = (===_iff id id).1 refl

module _ {N : Type 0} (input : PushAsDraftInput N) (id : String) where
  advance-hid : (seen : Bool) → advance input (known id true) (hid id (some seen)) ≡ known id seen
  unfolding advance
  advance-hid seen = rw (self id) refl

  advance-hid_failed : advance input (known id true) (hid id none) ≡ known id true
  unfolding advance
  advance-hid_failed = rw (self id) refl

  advance-costed :
      (seen : Bool) (c : CostRequest N)
      → c.shopify_product_id ≡ id
      → advance input (known id seen) (costed c) ≡ known id seen
  unfolding advance
  advance-costed seen c e = rw (e, self id) refl

  advance-succeeded :
      (owned : Bool)
      → advance input (known id false) (succeeded id owned)
        ≡ (if owned then done id else known id false)
  unfolding advance
  advance-succeeded owned = rw (self id) refl

  advance-incident : advance input (known id true) (incident id) ≡ reported id
  unfolding advance
  advance-incident = rw (self id) refl

-- The phase of a product that has been recorded, as succeeded or as an incident.
abbrev pub recorded : {N : Type 0} → String → Bool → Phase N
recorded id unsafe = if unsafe then reported id else done id

recorded-Holds : {N : Type 0} (id : String) (unsafe : Bool) → Holds {N = N} id (recorded id unsafe)
recorded-Holds id true = reported_id
recorded-Holds id false = done_id

advance-wrote :
    {N : Type 0} (input : PushAsDraftInput N) (id : String) (unsafe : Bool)
    → advance input (recorded id unsafe) wrote ≡ recorded id unsafe
unfolding advance
advance-wrote input id true = refl
advance-wrote input id false = refl

advance-asked :
    {N : Type 0} (input : PushAsDraftInput N) (id : String) (unsafe : Bool)
    → advance input (recorded id unsafe) asked ≡ recorded id unsafe
unfolding advance
advance-asked input id true = refl
advance-asked input id false = refl

-- Code that does not throw.
abbrev pub Never : {S : Type 0} → S → Failure → Type 0
Never s e = ⊥

module _ {N W P C : Type 0} (ports : PushPorts N W P C) (input : PushAsDraftInput N)
    (id : String) where
  -- A product that is visible and cannot be hidden is an incident; no other is.
  pub enforce_hidden-Ends :
      {product : Option String} (observed : ShopifyProductState) (s : Run N W)
      → At input (known id (visible observed)) product s
      → Ends
          (λ s' r. At input (known id (visible r.0)) product s' × (r.1 ≡ visible r.0))
          Never
          (enforce_hidden ports id observed s)
  unfolding enforce_hidden hidden_after
  enforce_hidden-Ends observed s h = elim (Bool-cases (visible observed)) [
    | inr hidden ↦ rw hidden (returns s (observed, false) (h, sym hidden))
    | inl seen ↦ rw seen (
        tried-next input (hide_event id) _ Never (ports.force_hidden id) _ s
          (At-eq input (ap (known id) seen) h)
          (λ s' e k.
            returns s' (observed, true)
              (At-eq input (advance-hid_failed input id ∙ ap (known id) (sym seen)) k, sym seen))
          (λ s' state k.
            returns s' (state, visible state)
              (At-eq input (advance-hid input id (visible state)) k, refl)))
  ]

  save_cost-Ends :
      {seen : Bool} {product : Option String} (request : CostRequest N) (s : Run N W)
      → request.shopify_product_id ≡ id
      → At input (known id seen) product s
      → Ends (λ s' r. At input (known id seen) product s') Never (save_cost ports request s)
  unfolding save_cost was_saved
  save_cost-Ends {seen} request s e h =
      tried-next input (λ _. costed request) _ Never (ports.record_cost request) _ s h
        (λ s' x k. returns s' false (At-eq input (advance-costed input id seen request e) k))
        (λ s' x k. returns s' true (At-eq input (advance-costed input id seen request e) k))

  pub save_if_known-Ends :
      {seen : Bool} {product : Option String} (provider : CandidateSource) (cost : Option N)
      (currency : Option String) (shipping : Option N) (variant : Option String) (s : Run N W)
      → At input (known id seen) product s
      → Ends
          (λ s' r. At input (known id seen) product s')
          Never
          (save_if_known ports (cost_request ports provider id cost currency shipping variant) s)
  unfolding save_if_known cost_request
  save_if_known-Ends provider none currency shipping variant s h = returns s false h
  save_if_known-Ends provider (some c) none shipping variant s h = returns s false h
  save_if_known-Ends provider (some c) (some code) shipping none s h = returns s false h
  save_if_known-Ends provider (some c) (some code) shipping (some v) s h = save_cost-Ends _ s refl h

  pub complete-Ends :
      (candidate operation : String) (mappings : List VariantMapping) (now : ℕ) (unsafe : Bool)
      (s : Run N W)
      → At input (known id unsafe) (some id) s
      → Ends
          (λ s' r. At input (recorded id unsafe) (some id) s')
          (λ s' e. Stopped input s')
          (complete ports candidate operation id mappings now unsafe s)
  unfolding complete
  complete-Ends candidate operation mappings now true s h =
      Ends-map
        (call-Ends input (λ _. incident id)
          (ports.mark_safety_incident candidate operation id mappings now) s h)
        (λ s' e k. with_product (At-eq input (advance-incident input id) k) reported_id)
        (λ s' a k. At-eq input (advance-incident input id) k)
  complete-Ends candidate operation mappings now false s h =
      call-next input (success_event id) _ (λ s' e. Stopped input s') _ _ s h
        (λ s' e k. with_product (At-eq input (advance-succeeded input id false) k) (known_id false))
        (λ s' owned k. owned_or_lost s' owned (At-eq input (advance-succeeded input id owned) k))
    where
      owned_or_lost :
          (s' : Run N W) (owned : Bool)
          → At input (if owned then done id else known id false) (some id) s'
          → Ends
              (λ s' r. At input (recorded id false) (some id) s')
              (λ s' e. Stopped input s')
              (raise_if (not owned) (app_error push_claim_lost (some id)) s')
      owned_or_lost s' true k = returns s' tt k
      owned_or_lost s' false k = throws s' _ (with_product k (known_id false))

  pub report-Follows :
      (candidate : String) (facts : PushAuditFacts N) (outcome : PushOutcome)
      (state : ShopifyProductState) (price : Option (ResolvedListingPrice N)) (saved : Bool)
      (s : Run N W)
      → At input (recorded id (visible state)) (some id) s
      → Follows input (report ports candidate facts outcome id state (visible state) price saved s)
  unfolding report
  report-Follows candidate facts outcome state price saved s h =
      let holds = recorded-Holds id (visible state) in
      let same = advance-asked input id (visible state) in
      let same' = advance-wrote input id (visible state) in
      call-next input written (Finished input) (λ s' e. Stopped input s') (ports.audit facts) _ s h
        (λ s' e k. with_product (At-eq input same' k) holds)
        (λ s' a k.
          raise_if-next input _ _ (visible state) _ _ s'
            (λ seen. with_product (At-eq input same' k) holds)
            (λ hidden.
              call-next input asked_for _ _ (ports.load candidate) _ s' (At-eq input same' k)
                (λ t e l. with_product (At-eq input same l) holds)
                (λ t c l. returns t _ (record {
                  at_done = At-eq input (same ∙ ap (recorded id) hidden) l;
                  hidden = hidden;
                }))))
