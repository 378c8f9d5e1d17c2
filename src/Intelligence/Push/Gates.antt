-- ===== src/Intelligence/Push/Gates.antt =====
-- The refusals of src/intelligence/push.orchestrator.ts that read values only, and
-- `assertLabelledCurrencies` of src/common/money.ts.
use trademart_b.Prelude.{
  ℕ, Bool, true, false, not, ◌&&◌, ◌||◌, Option, none, some, is_null, List, [], ◌∷◌, ◌++◌, String,
  ◌===◌, if◌then◌else◌, is_blank, holds,
}
use trademart_b.Intelligence.Transitions.{
  Candidate, CandidateStatus, pushed_to_shopify, PushState, in_progress, safety_incident,
  claim_is_recoverable,
}
use trademart_b.Intelligence.Push.Types.{
  Numbers, Commercials, SourceabilityBlock, supplier_unavailable, availability_unknown,
  availability_stale, VariantCoverage, partial_coverage, Breach, margin_below_floor,
  profit_below_floor, PricingScenario, PricingResult, PreparedAnalysis, PushAsDraftInput, Failure,
  app_error, ErrorCode, research_already_pushed, research_push_in_progress, research_push_safety,
  research_supplier_unavailable, research_supplier_unverified, research_supplier_stale,
  research_supplier_variants, currency_mismatch, recommendation_changed, validation_error,
}
use trademart_b.Intelligence.Push.Ports.{Answer, returned, thrown}

abbrev pub push_claim_lease_ms : ℕ
push_claim_lease_ms = 120000

abbrev claims_in_progress : PushState → Bool
claims_in_progress in_progress = true
claims_in_progress _ = false

abbrev awaits_human : PushState → Bool
awaits_human safety_incident = true
awaits_human _ = false

abbrev is_pushed : CandidateStatus → Bool
is_pushed pushed_to_shopify = true
is_pushed _ = false

-- `time_of` reads the text of a date.
unfoldable pub claim_is_owned_or_expired : (String → Option ℕ) → Candidate → String → ℕ → Bool
unfolding claim_is_recoverable
claim_is_owned_or_expired time_of c operation now =
    if not (claims_in_progress c.push_state)
    then false
    else (if not (is_null c.pushed_shopify_product_id)
        then false
        else (if holds c.push_operation_id operation
            then true
            else claim_is_recoverable time_of c now push_claim_lease_ms))

-- The error of a refusal, with the candidate's product in its details.
unfoldable pub refusal : Candidate → Failure
refusal c =
    let product = c.pushed_shopify_product_id in
    if not (is_null product) || is_pushed c.status
    then app_error research_already_pushed product
    else (if claims_in_progress c.push_state
        then app_error research_push_in_progress product
        else (if awaits_human c.push_state
            then app_error research_push_safety product
            else app_error validation_error product))

abbrev block_error : SourceabilityBlock → ErrorCode
block_error supplier_unavailable = research_supplier_unavailable
block_error availability_unknown = research_supplier_unverified
block_error availability_stale = research_supplier_stale

abbrev is_partial : VariantCoverage → Bool
is_partial partial_coverage = true
is_partial _ = false

module _ {N : Type 0} where
  -- Whether an amount stands without a currency code.
  unlabelled : (String → Bool) → Option N → Option String → Bool
  unlabelled explicit none code = false
  unlabelled explicit (some amount) none = true
  unlabelled explicit (some amount) (some code) = is_blank code || not (explicit code)

  unfoldable pub assert_labelled_currencies :
      (String → Bool) → List (Option N × Option String) → Answer (Unit {0})
  unfolding unlabelled
  assert_labelled_currencies explicit [] = returned tt
  assert_labelled_currencies explicit ((amount, code) ∷ entries) =
      let rest = assert_labelled_currencies explicit entries in
      if unlabelled explicit amount code then thrown (app_error currency_mismatch none) else rest

  unfoldable pub labelled_amounts : Commercials N → List (Option N × Option String)
  labelled_amounts c =
      (c.supplier_cost, c.supplier_currency)
      ∷ (c.shipping_cost, c.shipping_currency)
      ∷ (c.expected_selling_price, c.expected_selling_currency)
      ∷ []

  -- `input.expectedDecisionHash !== undefined && … !== prepared.decisionHash`
  unfoldable pub decision_changed : PushAsDraftInput N → PreparedAnalysis N → Bool
  decision_changed input prepared = elim input.expected_decision_hash [
    | none ↦ false
    | some expected ↦ not (expected === prepared.decision_hash)
  ]

  -- Steps 6 and 6b: the refusal, if there is one.
  unfoldable pub refused_decision : PushAsDraftInput N → PreparedAnalysis N → Option ErrorCode
  unfolding decision_changed
  refused_decision input prepared =
      if decision_changed input prepared
      then some recommendation_changed
      else elim prepared.sourceability.block [
        | some block ↦ some (block_error block)
        | none ↦
            if is_partial prepared.sourceability.variant_coverage
              && not input.acknowledge_partial_variants
            then some research_supplier_variants
            else none
      ]

  module _ (numbers : Numbers N) where
    below : Option N → N → Bool
    below none floor = false
    below (some margin) floor = numbers.less margin floor

    unfoldable pub pricing_guard_breaches : PricingResult N → N → N → List Breach
    unfolding below
    pricing_guard_breaches result minimum_margin minimum_profit =
        (if below result.profit_margin_percentage minimum_margin
          then margin_below_floor ∷ []
          else [])
        ++ (if numbers.less numbers.zero minimum_profit
              && numbers.less result.gross_profit minimum_profit
            then profit_below_floor ∷ []
            else [])

    -- `scenarios.find((entry) => entry.price === amount)`
    unfoldable pub scenario_priced : N → List (PricingScenario N) → Option (PricingScenario N)
    scenario_priced amount [] = none
    scenario_priced amount (e ∷ es) =
        let rest = scenario_priced amount es in
        if numbers.equal e.price amount then some e else rest

    evaluated_breaches : PreparedAnalysis N → Option (PricingResult N) → List Breach
    unfolding pricing_guard_breaches
    evaluated_breaches prepared none = []
    evaluated_breaches prepared (some result) =
        pricing_guard_breaches result prepared.minimum_margin_percentage
          prepared.minimum_profit_amount

    breaches_over : PreparedAnalysis N → N → Option (PricingScenario N) → List Breach
    unfolding evaluated_breaches
    breaches_over prepared amount (some s) = s.guard_breaches
    breaches_over prepared amount none =
        evaluated_breaches prepared (prepared.evaluate_price amount)

    unfoldable pub guard_breaches_for : PreparedAnalysis N → N → List Breach
    unfolding breaches_over scenario_priced
    guard_breaches_for prepared amount =
        breaches_over prepared amount (scenario_priced amount prepared.pricing.scenarios)
