-- ===== src/Intelligence/Push/Finish.antt =====
-- src/intelligence/push.orchestrator.ts from the product on: hiding it, its cost, its record, and the
-- reconciliation of a product that an earlier push has left.
use trademart_b.Prelude.{
  ℕ, Bool, true, false, not, Option, none, some, or_option, List, [], ◌∷◌, String, if◌then◌else◌,
}
use trademart_b.Intelligence.Push.Types.{
  ProductCandidate, CandidateSource, other, PushAsDraftInput, PushIntent, PushOutcome, reconciled,
  ShopifyProductState, ExistingResearchProduct, CreatedVariant, VariantMapping, CostRequest,
  PushAuditFacts, PushAsDraftResult, ResolvedListingPrice, recovered_price, SupplierVariantPlan,
  app_error, push_claim_lost, research_push_safety,
}
use trademart_b.Intelligence.Push.Ports.{
  Answer, returned, thrown, PushPorts, Collaborators, Run, M, ◌>>=◌, ◌>>◌, give, raise_if, tried,
  call, visible, asked_for, written, hide_event, success_event, incident, costed,
}

-- The facts that every audit entry takes from the request, with what the push found.
unfoldable pub audit_facts :
    {N : Type 0}
    → PushAsDraftInput N
    → Option String
    → Option String
    → Option String
    → Option PushOutcome
    → Option N
    → Bool
    → Bool
    → PushAuditFacts N
audit_facts input expected actual product outcome price saved unsafe = record {
  expected_decision_hash = expected;
  actual_decision_hash = actual;
  shopify_product_id = product;
  outcome = outcome;
  listed_price = price;
  cost_recorded = saved;
  safety_incident = unsafe;
  duplicate_overridden = input.allow_duplicate;
  guard_breach_overridden = input.acknowledge_guard_breach;
  partial_variants_overridden = input.acknowledge_partial_variants;
}

module _ {N W P C : Type 0} (ports : PushPorts N W P C) where
  unfoldable pub hidden_after :
      ShopifyProductState → Option ShopifyProductState → Answer (ShopifyProductState × Bool)
  hidden_after observed none = returned (observed, true)
  hidden_after observed (some repaired) = returned (repaired, visible repaired)

  -- The state, and whether there is an incident.
  unfoldable pub enforce_hidden :
      String → ShopifyProductState → M (Run N W) (ShopifyProductState × Bool)
  unfolding hidden_after
  enforce_hidden id observed =
      if visible observed
      then (do
        repaired ← tried (call (hide_event id) (ports.force_hidden id))
        give (hidden_after observed repaired))
      else give (returned (observed, false))

  unfoldable pub was_saved : Option (Unit {0}) → Answer Bool
  was_saved none = returned false
  was_saved (some saved) = returned true

  unfoldable pub save_cost : CostRequest N → M (Run N W) Bool
  unfolding was_saved
  save_cost request = do
    saved ← tried (call (λ _. costed request) (ports.record_cost request))
    give (was_saved saved)

  -- The request for a cost that is known, with its currency and its variant.
  unfoldable pub cost_request :
      CandidateSource
      → String
      → Option N
      → Option String
      → Option N
      → Option String
      → Option (CostRequest N)
  cost_request provider product (some cost) (some currency) shipping (some variant) = some (record {
    shopify_product_id = product;
    shopify_variant_id = variant;
    supplier_product_cost = cost;
    supplier_shipping_cost = shipping;
    currency_code = currency;
    provider = provider;
  })
  cost_request provider product none currency shipping variant = none
  cost_request provider product (some cost) none shipping variant = none
  cost_request provider product (some cost) (some currency) shipping none = none

  unfoldable pub save_if_known : Option (CostRequest N) → M (Run N W) Bool
  unfolding save_cost
  save_if_known none = give (returned false)
  save_if_known (some request) = save_cost request

  unfoldable pub first_variant : List CreatedVariant → Option String
  first_variant [] = none
  first_variant (v ∷ vs) = some v.shopify_variant_id

  unfoldable pub record_cost : ProductCandidate N → String → List CreatedVariant → M (Run N W) Bool
  unfolding save_if_known cost_request first_variant
  record_cost candidate product variants =
      let c = candidate.commercials in
      save_if_known (
        cost_request candidate.source product c.supplier_cost c.supplier_currency c.shipping_cost
          (first_variant variants))

  unfoldable pub record_cost_from_intent : PushIntent N → String → Option String → M (Run N W) Bool
  unfolding save_if_known cost_request
  record_cost_from_intent intent product variant = save_if_known (
      cost_request other product intent.supplier_cost intent.supplier_currency intent.shipping_cost
        variant)

  -- `markSucceeded`, or `markSafetyIncident`
  unfoldable pub complete :
      String → String → String → List VariantMapping → ℕ → Bool → M (Run N W) (Unit {0})
  complete id operation product mappings now unsafe =
      if unsafe
      then call (λ _. incident product)
          (ports.mark_safety_incident id operation product mappings now)
      else (do
        owned ←
            call (success_event product) (ports.mark_succeeded id operation product mappings now)
        raise_if (not owned) (app_error push_claim_lost (some product)))

  -- From the audit on: an incident is thrown, never returned.
  unfoldable pub report :
      String
      → PushAuditFacts N
      → PushOutcome
      → String
      → ShopifyProductState
      → Bool
      → Option (ResolvedListingPrice N)
      → Bool
      → M (Run N W) (PushAsDraftResult N)
  report id facts outcome product state unsafe price saved = do
    call written (ports.audit facts)
    raise_if unsafe (app_error research_push_safety (some product))
    candidate ← call asked_for (ports.load id)
    give (
        returned (record {
          candidate = candidate;
          outcome = outcome;
          shopify_product_id = product;
          product_state = state;
          listed_price = price;
          cost_recorded = saved;
        }))

  recovered : Option (PushIntent N) → Option (ResolvedListingPrice N)
  recovered none = none
  recovered (some intent) = some (record {
    amount = intent.listed_price;
    currency_code = intent.selling_currency;
    price_source = recovered_price;
  })

  abbrev from_intent : {A : Type 0} → (PushIntent N → Option A) → Option (PushIntent N) → Option A
  from_intent field none = none
  from_intent field (some intent) = field intent

  module _ (uses : Collaborators N P C) where
    or_nothing : Answer (List VariantMapping) → List VariantMapping
    or_nothing (returned mappings) = mappings
    or_nothing (thrown e) = []

    remapped :
        String → ExistingResearchProduct → ℕ → Answer (SupplierVariantPlan N) → List VariantMapping
    unfolding or_nothing
    remapped id found now (returned plan) =
        or_nothing (uses.map_created_variants id plan.sources found.variants now)
    remapped id found now (thrown e) = []

    -- The cost and the variants that the intent remembers.
    unfoldable pub restore :
        String
        → ExistingResearchProduct
        → ℕ
        → Option (PushIntent N)
        → M (Run N W) (Bool × List VariantMapping)
    unfolding record_cost_from_intent remapped
    restore id found now none = give (returned (false, []))
    restore id found now (some intent) = do
      saved ← record_cost_from_intent intent found.shopify_product_id found.shopify_variant_id
      let plan = uses.build_variant_plan intent.supplier_variant_snapshot intent.listed_price
      give (returned (saved, remapped id found now plan))

    unfoldable pub reconcile_existing :
        String
        → PushAsDraftInput N
        → ExistingResearchProduct
        → ℕ
        → M (Run N W) (PushAsDraftResult N)
    unfolding enforce_hidden restore complete audit_facts report recovered
    reconcile_existing id input found now = do
      intent ← call asked_for (ports.load_intent id)
      (state, unsafe) ← enforce_hidden found.shopify_product_id found.state
      (saved, mappings) ← restore id found now intent
      complete id input.operation_id found.shopify_product_id mappings now unsafe
      report id
          (audit_facts input
            (or_option input.expected_decision_hash
              (from_intent (λ (i : PushIntent N). i.expected_decision_hash) intent))
            (from_intent (λ (i : PushIntent N). some i.actual_decision_hash) intent)
            (some found.shopify_product_id) (some reconciled)
            (from_intent (λ (i : PushIntent N). some i.listed_price) intent) saved unsafe)
          reconciled found.shopify_product_id state unsafe (recovered intent) saved
