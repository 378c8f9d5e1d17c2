-- ===== src/Intelligence/Push/Types.antt =====
-- The data of src/intelligence/push.ports.ts, push.draft.ts and push.orchestrator.ts. `N` is the type
-- of JavaScript's numbers, and a time is in milliseconds.
use trademart_b.Prelude.{ℕ, Bool, Option, List, String}
use trademart_b.Intelligence.Transitions.{Candidate}

-- What the code asks of numbers.
pub record Numbers (N : Type 0) : Type 0 where
  pub equal : N → N → Bool
  pub less : N → N → Bool
  pub zero : N
  pub is_finite : N → Bool

pub data Recommendation : Type 0 where
  strong_candidate good_candidate watch weak reject : Recommendation

pub data CandidateSource : Type 0 where
  tradelle deodap other : CandidateSource

pub data SupplierAvailability : Type 0 where
  available unavailable unknown : SupplierAvailability

pub record SupplierVariant : Type 0 where
  pub supplier_variant_id : Option String
  pub sku : Option String
  pub title : String
  pub availability : SupplierAvailability
  pub option_values : List (String × String)

pub record Commercials (N : Type 0) : Type 0 where
  pub supplier_cost : Option N
  pub supplier_currency : Option String
  pub shipping_cost : Option N
  pub shipping_currency : Option String
  pub expected_selling_price : Option N
  pub expected_selling_currency : Option String

-- `columns` are those that candidate.transitions.ts reads.
pub record ProductCandidate (N : Type 0) : Type 0 where
  pub id : String
  pub columns : Candidate
  pub title : String
  pub category : Option String
  pub image_url : Option String
  pub source : CandidateSource
  pub commercials : Commercials N
  pub recommendation : Option Recommendation
  pub supplier_variants : List SupplierVariant

pub data SourceabilityBlock : Type 0 where
  supplier_unavailable availability_unknown availability_stale : SourceabilityBlock

pub data VariantCoverage : Type 0 where
  full_coverage partial_coverage no_coverage unknown_coverage : VariantCoverage

pub record Sourceability : Type 0 where
  pub block : Option SourceabilityBlock
  pub variant_coverage : VariantCoverage
  pub variants : List SupplierVariant

pub data Breach : Type 0 where
  margin_below_floor profit_below_floor : Breach

pub record PricingScenario (N : Type 0) : Type 0 where
  pub name : String
  pub price : N
  pub guard_breaches : List Breach

pub record PriceRecommendation (N : Type 0) : Type 0 where
  pub currency_code : Option String
  pub recommended : Option String
  pub scenarios : List (PricingScenario N)

pub record PricingResult (N : Type 0) : Type 0 where
  pub profit_margin_percentage : Option N
  pub gross_profit : N

-- `evaluate_price` answers none where the function is not there or answers null.
pub record PreparedAnalysis (N : Type 0) : Type 0 where
  pub fresh_candidate : ProductCandidate N
  pub pricing : PriceRecommendation N
  pub minimum_margin_percentage : N
  pub minimum_profit_amount : N
  pub sourceability : Sourceability
  pub decision_hash : String
  pub evaluate_price : N → Option (PricingResult N)

-- A flag is true only where the source's is `true`.
pub record PushAsDraftInput (N : Type 0) : Type 0 where
  pub scenario : Option String
  pub price : Option N
  pub expected_decision_hash : Option String
  pub allow_duplicate : Bool
  pub acknowledge_guard_breach : Bool
  pub acknowledge_partial_variants : Bool
  pub operation_id : String

pub data PriceSource : Type 0 where
  explicit_price expected_price recovered_price : PriceSource
  scenario_price : String → PriceSource

pub record ResolvedListingPrice (N : Type 0) : Type 0 where
  pub amount : N
  pub currency_code : Option String
  pub price_source : PriceSource

pub record PushIntent (N : Type 0) : Type 0 where
  pub operation_id : String
  pub expected_decision_hash : Option String
  pub actual_decision_hash : String
  pub scenario : Option String
  pub listed_price : N
  pub selling_currency : Option String
  pub supplier_cost : Option N
  pub supplier_currency : Option String
  pub shipping_cost : Option N
  pub shipping_currency : Option String
  pub recommendation : Option Recommendation
  pub supplier_variant_snapshot : List SupplierVariant
  pub created_at : ℕ

pub record ShopifyProductState : Type 0 where
  pub status : Option String
  pub published : Bool
  pub visible_to_customers : Bool

pub record CreatedVariant : Type 0 where
  pub shopify_variant_id : String
  pub sku : Option String
  pub option_values : List (String × String)

pub record ExistingResearchProduct : Type 0 where
  pub shopify_product_id : String
  pub shopify_variant_id : Option String
  pub variants : List CreatedVariant
  pub state : ShopifyProductState

pub record CreatedProduct : Type 0 where
  pub shopify_product_id : String
  pub variants : List CreatedVariant
  pub state : ShopifyProductState

pub data ProductStatus : Type 0 where
  active draft archived : ProductStatus

pub record PlannedVariantSource : Type 0 where
  pub supplier_variant_id : Option String
  pub supplier_sku : Option String
  pub supplier_title : String
  pub option_values : List (String × String)

pub record SupplierVariantPlan (N : Type 0) : Type 0 where
  pub options : List (String × List String)
  -- the price, the SKU and the option values of each variant
  pub variants : List (N × Option String × List (String × String))
  pub sources : List PlannedVariantSource

pub record ProductCreateRequest (N : Type 0) : Type 0 where
  pub title : String
  pub product_type : Option String
  pub description_html : String
  pub status : ProductStatus
  pub publish : Bool
  pub tags : List String
  pub options : List (String × List String)
  pub variants : List (N × Option String × List (String × String))
  pub media_urls : List String

pub record VariantMapping : Type 0 where
  pub public_variant_id : String
  pub shopify_variant_id : String
  pub planned : PlannedVariantSource
  pub mapped_at : ℕ

pub record CostRequest (N : Type 0) : Type 0 where
  pub shopify_product_id : String
  pub shopify_variant_id : String
  pub supplier_product_cost : N
  pub supplier_shipping_cost : Option N
  pub currency_code : String
  pub provider : CandidateSource

pub data PushOutcome : Type 0 where
  created reconciled : PushOutcome

pub record PushAsDraftResult (N : Type 0) : Type 0 where
  pub candidate : ProductCandidate N
  pub outcome : PushOutcome
  pub shopify_product_id : String
  pub product_state : ShopifyProductState
  pub listed_price : Option (ResolvedListingPrice N)
  pub cost_recorded : Bool

pub record PushAuditFacts (N : Type 0) : Type 0 where
  pub expected_decision_hash : Option String
  pub actual_decision_hash : Option String
  pub shopify_product_id : Option String
  pub outcome : Option PushOutcome
  pub listed_price : Option N
  pub cost_recorded : Bool
  pub safety_incident : Bool
  pub duplicate_overridden : Bool
  pub guard_breach_overridden : Bool
  pub partial_variants_overridden : Bool

pub data ErrorCode : Type 0 where
  research_already_pushed research_push_in_progress research_push_safety : ErrorCode
  research_supplier_unavailable research_supplier_unverified : ErrorCode
  research_supplier_stale research_supplier_variants : ErrorCode
  currency_mismatch recommendation_changed validation_error push_claim_lost internal_error :
      ErrorCode

-- An AppError, with the product id of its details, or any other error.
pub data Failure : Type 0 where
  app_error : ErrorCode → Option String → Failure
  other_error : Failure
