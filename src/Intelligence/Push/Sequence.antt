-- ===== src/Intelligence/Push/Sequence.antt =====
-- `pushCandidateAsDraft` of src/intelligence/push.orchestrator.ts, step by step in the source's order.
use trademart_b.Prelude.{ℕ, false, not, ◌&&◌, Option, none, some, List, [], String, ltb, length}
use trademart_b.Intelligence.Transitions.{can_push_candidate}
use trademart_b.Intelligence.Push.Types.{
  ProductCandidate, PreparedAnalysis, PushAsDraftInput, PushIntent, created,
  ExistingResearchProduct, CreatedProduct, PushAsDraftResult, ResolvedListingPrice,
  ProductCreateRequest, PlannedVariantSource, Failure, app_error, other_error, ErrorCode,
  push_claim_lost, validation_error,
}
use trademart_b.Intelligence.Push.Ports.{
  Answer, returned, thrown, PushPorts, Collaborators, Run, M, ◌>>=◌, ◌>>◌, give, raise, raise_if,
  tried, call, clock, asked_for, claim_event, lookup_event, prepare_event, intent_event,
  create_event, release_event, written, record_product_id,
}
use trademart_b.Intelligence.Push.Draft.{
  resolve_listing_price, build_draft_request, assert_draft_only,
}
use trademart_b.Intelligence.Push.Gates.{
  claim_is_owned_or_expired, refusal, assert_labelled_currencies, labelled_amounts,
  refused_decision, guard_breaches_for,
}
use trademart_b.Intelligence.Push.Finish.{
  enforce_hidden, record_cost, complete, audit_facts, report, reconcile_existing,
}

unfoldable pub raise_code : {S : Type 0} → Option ErrorCode → M S (Unit {0})
raise_code none = give (returned tt)
raise_code (some code) = raise (app_error code none)

unfoldable pub build_push_intent :
    {N : Type 0}
    → PushAsDraftInput N
    → ResolvedListingPrice N
    → PreparedAnalysis N
    → ℕ
    → PushIntent N
build_push_intent input price prepared now =
    let candidate = prepared.fresh_candidate in
    let c = candidate.commercials in
    record {
      operation_id = input.operation_id;
      expected_decision_hash = input.expected_decision_hash;
      actual_decision_hash = prepared.decision_hash;
      scenario = input.scenario;
      listed_price = price.amount;
      selling_currency = price.currency_code;
      supplier_cost = c.supplier_cost;
      supplier_currency = c.supplier_currency;
      shipping_cost = c.shipping_cost;
      shipping_currency = c.shipping_currency;
      recommendation = candidate.recommendation;
      supplier_variant_snapshot = prepared.sourceability.variants;
      created_at = now;
    }

module _ {N W P C : Type 0} (ports : PushPorts N W P C) (uses : Collaborators N P C) where
  or_empty : Option (List P) → List P
  or_empty none = []
  or_empty (some products) = products

  -- The number of blocking matches; a catalogue that cannot be read counts as empty.
  unfoldable pub check_duplicates : ProductCandidate N → M (Run N W) ℕ
  unfolding or_empty
  check_duplicates candidate = do
    products ← tried (call asked_for ports.list_catalogue)
    candidates ← call asked_for ports.list_for_duplicates
    give (returned (uses.blocking_duplicates candidate (or_empty products) candidates))

  -- The product of an earlier push, if there is one; else what follows.
  unfoldable pub adopt_or :
      String
      → PushAsDraftInput N
      → ℕ
      → M (Run N W) (PushAsDraftResult N)
      → Option ExistingResearchProduct
      → M (Run N W) (PushAsDraftResult N)
  unfolding reconcile_existing
  adopt_or id input now rest none = rest
  adopt_or id input now rest (some found) = do
    record_product_id found.shopify_product_id
    reconcile_existing ports uses id input found now

  -- From the creation on: steps 10 and 11.
  unfoldable pub finish_created :
      String
      → PushAsDraftInput N
      → PreparedAnalysis N
      → ResolvedListingPrice N
      → List PlannedVariantSource
      → CreatedProduct
      → M (Run N W) (PushAsDraftResult N)
  unfolding enforce_hidden record_cost complete audit_facts report
  finish_created id input prepared price sources product = do
    record_product_id product.shopify_product_id
    mapped_at ← clock ports.now
    mappings ← give (uses.map_created_variants id sources product.variants mapped_at)
    (state, unsafe) ← enforce_hidden ports product.shopify_product_id product.state
    saved ← record_cost ports prepared.fresh_candidate product.shopify_product_id product.variants
    call written (ports.persist prepared)
    completed_at ← clock ports.now
    complete ports id input.operation_id product.shopify_product_id mappings completed_at unsafe
    report ports id
        (audit_facts input input.expected_decision_hash (some prepared.decision_hash)
          (some product.shopify_product_id) (some created) (some price.amount) saved unsafe)
        created product.shopify_product_id state unsafe (some price) saved

  -- Step 9, for the request and the variants planned.
  unfoldable pub create_draft :
      String
      → PushAsDraftInput N
      → PreparedAnalysis N
      → ResolvedListingPrice N
      → ProductCreateRequest N
      → List PlannedVariantSource
      → M (Run N W) (PushAsDraftResult N)
  unfolding finish_created assert_draft_only
  create_draft id input prepared price request sources = do
    give (assert_draft_only request)
    product ← call (create_event request) (ports.create_product request)
    finish_created id input prepared price sources product

  unfoldable pub create_planned :
      String
      → PushAsDraftInput N
      → PreparedAnalysis N
      → ResolvedListingPrice N
      → M (Run N W) (PushAsDraftResult N)
  unfolding create_draft build_draft_request
  create_planned id input prepared price = do
    let candidate = prepared.fresh_candidate
    plan ← give (uses.build_variant_plan candidate.supplier_variants price.amount)
    create_draft id input prepared price
        (build_draft_request candidate (uses.describe candidate) plan) plan.sources

  -- Steps 8b and 8c, then the rest.
  unfoldable pub freeze_and_create :
      String
      → PushAsDraftInput N
      → ℕ
      → PreparedAnalysis N
      → ResolvedListingPrice N
      → M (Run N W) (PushAsDraftResult N)
  unfolding build_push_intent adopt_or create_planned
  freeze_and_create id input now prepared price = do
    renewal ← clock ports.now
    let intent = build_push_intent input price prepared renewal
    owned ← call (intent_event intent) (ports.record_intent id input.operation_id renewal intent)
    raise_if (not owned) (app_error push_claim_lost none)
    winner ← call (lookup_event id) (ports.find_by_research_tag id)
    adopt_or id input now (create_planned id input prepared price) winner

  -- Steps 5 to 8, then the rest.
  unfoldable pub decide_and_create :
      String → PushAsDraftInput N → ℕ → M (Run N W) (PushAsDraftResult N)
  unfolding raise_code refused_decision check_duplicates resolve_listing_price guard_breaches_for
      freeze_and_create
  decide_and_create id input now = do
    prepared ← call prepare_event (ports.prepare id input.scenario now)
    raise_code (refused_decision input prepared)
    blocking ← check_duplicates prepared.fresh_candidate
    raise_if (ltb 0 blocking && not input.allow_duplicate) (app_error validation_error none)
    price ← give (
        resolve_listing_price uses.numbers prepared.fresh_candidate prepared.pricing input.scenario
          input.price)
    raise_if
        (ltb 0 (length (guard_breaches_for uses.numbers prepared price.amount))
          && not input.acknowledge_guard_breach)
        (app_error validation_error none)
    freeze_and_create id input now prepared price

  unfoldable pub push_with_claim :
      String → PushAsDraftInput N → ℕ → M (Run N W) (PushAsDraftResult N)
  unfolding adopt_or decide_and_create
  push_with_claim id input now = do
    already ← call (lookup_event id) (ports.find_by_research_tag id)
    adopt_or id input now (decide_and_create id input now) already

  -- The product's id goes into the details of an AppError.
  abbrev pub with_product : String → Failure → Failure
  with_product id (app_error code product) = app_error code (some id)
  with_product id other_error = other_error

  -- The `catch`: the claim is given back only if no product is known.
  unfoldable pub clean_up :
      String → PushAsDraftInput N → Failure → Option String → M (Run N W) (PushAsDraftResult N)
  unfolding audit_facts
  clean_up id input error none = do
    call release_event (ports.release id input.operation_id)
    call written (
        ports.audit
          (audit_facts input input.expected_decision_hash none none none none false false))
    raise error
  clean_up id input error (some product) = do
    call written (
        ports.audit (
          audit_facts input input.expected_decision_hash none (some product) none none false false))
    raise (with_product product error)

  unfoldable pub settle :
      String
      → PushAsDraftInput N
      → Run N W × Answer (PushAsDraftResult N)
      → Run N W × Answer (PushAsDraftResult N)
  unfolding clean_up
  settle id input (s, returned r) = (s, returned r)
  settle id input (s, thrown error) = clean_up id input error s.product_id s

  unfoldable pub in_claim :
      String → String → PushAsDraftInput N → ℕ → M (Run N W) (PushAsDraftResult N)
  unfolding settle push_with_claim
  in_claim id claimed_id input now s =
      settle id input (push_with_claim claimed_id input now (record s { product_id = none }))

  unfoldable pub after_claim :
      String
      → PushAsDraftInput N
      → ℕ
      → Option (ProductCandidate N)
      → M (Run N W) (PushAsDraftResult N)
  unfolding in_claim refusal
  after_claim id input now none = do
    current ← call asked_for (ports.load id)
    raise (refusal current.columns)
  after_claim id input now (some claimed) = in_claim id claimed.id input now

  unfoldable pub push_candidate_as_draft :
      String → PushAsDraftInput N → M (Run N W) (PushAsDraftResult N)
  unfolding can_push_candidate claim_is_owned_or_expired refusal assert_labelled_currencies
      labelled_amounts after_claim
  push_candidate_as_draft id input = do
    now ← clock ports.now
    existing ← call asked_for (ports.load id)
    raise_if
        (not (can_push_candidate existing.columns).allowed
          && not (claim_is_owned_or_expired uses.time_of existing.columns input.operation_id now))
        (refusal existing.columns)
    give (
        assert_labelled_currencies uses.is_explicit_currency
          (labelled_amounts existing.commercials))
    claimed ← call claim_event (ports.claim id input.operation_id now)
    after_claim id input now claimed
