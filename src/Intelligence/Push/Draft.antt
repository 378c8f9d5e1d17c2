-- ===== src/Intelligence/Push/Draft.antt =====
-- src/intelligence/push.draft.ts: the price that a draft is listed at, and the request that creates it.
use trademart_b.Prelude.{
  Bool, true, false, not, ◌||◌, Option, none, some, or_option, List, [], ◌∷◌, String, ◌===◌,
  if◌then◌else◌,
}
use Prim.Native.String.{◌++◌}
use trademart_b.Intelligence.Push.Types.{
  Numbers, Recommendation, strong_candidate, good_candidate, watch, weak, reject, ProductCandidate,
  PricingScenario, PriceRecommendation, ResolvedListingPrice, explicit_price, expected_price,
  scenario_price, SupplierVariantPlan, ProductCreateRequest, ProductStatus, draft, app_error,
  validation_error, internal_error,
}
use trademart_b.Intelligence.Push.Ports.{Answer, returned, thrown}

abbrev pub research_push_tag : String
research_push_tag = "trademart-research"

unfoldable pub research_identity_tag : String → String
research_identity_tag id = "trademart-research-candidate:" ++ id

abbrev recommendation_tags : Option Recommendation → List String
recommendation_tags none = []
recommendation_tags (some strong_candidate) = "research-strong-candidate" ∷ []
recommendation_tags (some good_candidate) = "research-good-candidate" ∷ []
recommendation_tags (some watch) = "research-watch" ∷ []
recommendation_tags (some weak) = "research-weak" ∷ []
recommendation_tags (some reject) = "research-reject" ∷ []

abbrev pub is_draft : ProductStatus → Bool
is_draft draft = true
is_draft _ = false

module _ {N : Type 0} where
  -- `scenarios.find((entry) => entry.name === wanted)`
  unfoldable pub scenario_named : String → List (PricingScenario N) → Option (PricingScenario N)
  scenario_named wanted [] = none
  scenario_named wanted (e ∷ es) =
      let rest = scenario_named wanted es in if e.name === wanted then some e else rest

  abbrev wanted_scenario : Option String → List (PricingScenario N) → Option (PricingScenario N)
  wanted_scenario none scenarios = none
  wanted_scenario (some wanted) scenarios = scenario_named wanted scenarios

  module _ (numbers : Numbers N) where
    -- The price where none was typed.
    recommended_price :
        Option String → Option (PricingScenario N) → Option N → Answer (ResolvedListingPrice N)
    recommended_price currency (some s) expected = returned (record {
      amount = s.price;
      currency_code = currency;
      price_source = scenario_price s.name;
    })
    recommended_price currency none (some price) =
        returned
          (record { amount = price; currency_code = currency; price_source = expected_price })
    recommended_price currency none none = thrown (app_error validation_error none)

    typed_price : Option String → N → Answer (ResolvedListingPrice N)
    typed_price currency price =
        if not (numbers.is_finite price) || not (numbers.less numbers.zero price)
        then thrown (app_error validation_error none)
        else returned
            (record { amount = price; currency_code = currency; price_source = explicit_price })

    unfoldable pub resolve_listing_price :
        ProductCandidate N
        → PriceRecommendation N
        → Option String
        → Option N
        → Answer (ResolvedListingPrice N)
    unfolding typed_price recommended_price scenario_named
    resolve_listing_price candidate pricing scenario price =
        let c = candidate.commercials in
        let currency = or_option pricing.currency_code c.expected_selling_currency in
        elim price [
          | some typed ↦ typed_price currency typed
          | none ↦
              recommended_price currency
                (wanted_scenario (or_option scenario pricing.recommended) pricing.scenarios)
                c.expected_selling_price
        ]

  -- The description is the one that `describeCandidate` writes.
  unfoldable pub build_draft_request :
      ProductCandidate N → String → SupplierVariantPlan N → ProductCreateRequest N
  unfolding research_identity_tag
  build_draft_request candidate description plan = record {
    title = candidate.title;
    product_type = candidate.category;
    description_html = description;
    status = draft;
    publish = false;
    tags =
        research_push_tag
        ∷ research_identity_tag candidate.id
        ∷ recommendation_tags candidate.recommendation;
    options = plan.options;
    variants = plan.variants;
    media_urls = elim candidate.image_url [ none ↦ [] | some url ↦ url ∷ [] ];
  }

  unfoldable pub assert_draft_only : ProductCreateRequest N → Answer (Unit {0})
  assert_draft_only request =
      if not (is_draft request.status) || request.publish
      then thrown (app_error internal_error none)
      else returned tt
