-- ===== src/Intelligence/Sourceability.antt =====
-- src/intelligence/sourceability.ts: whether a candidate can be sourced. `N` is the type of JavaScript's
-- numbers, which are only kept, and a number of hours is whole. A verification's note, evidence and
-- time of observation, which nothing here reads, are left out.
pub mod Coverage
use trademart_b.Prelude.{
  ℕ, ◌+◌, ◌-◌, ◌*◌, Bool, true, false, not, ◌&&◌, Option, none, some, is_null, or_else, List, [],
  ◌∷◌, ◌++◌, String, length, ltb, leb, ◌==◌, if◌then◌else◌,
}
use trademart_b.Common.DataQuality.{Freshness, fresh, aging, stale, resolve_freshness}
use trademart_b.Intelligence.Push.Types.{
  Recommendation, strong_candidate, good_candidate, watch, weak, reject, SupplierAvailability,
  available, unavailable, unknown, SupplierVariant, SourceabilityBlock, supplier_unavailable,
  availability_unknown, availability_stale, VariantCoverage, full_coverage, partial_coverage,
  no_coverage, unknown_coverage,
}

pub data SupplierAvailabilitySource : Type 0 where
  shopify_bridge manual direct_api : SupplierAvailabilitySource

pub data SupplierProvider : Type 0 where
  tradelle deodap other_provider unknown_provider : SupplierProvider

pub record SupplierInfo (N : Type 0) : Type 0 where
  pub provider : SupplierProvider
  pub supplier_product_id : Option String
  pub source_url : Option String
  pub availability : SupplierAvailability
  pub availability_source : SupplierAvailabilitySource
  pub checked_at : Option String
  pub stock_known : Bool
  pub product_cost : Option N
  pub product_currency : Option String
  pub shipping_cost : Option N
  pub shipping_currency : Option String
  pub shipping_days : Option N
  pub variants : List SupplierVariant

abbrev pub empty_supplier_info : {N : Type 0} → SupplierInfo N
empty_supplier_info = record {
  provider = unknown_provider;
  supplier_product_id = none;
  source_url = none;
  availability = unknown;
  availability_source = manual;
  checked_at = none;
  stock_known = false;
  product_cost = none;
  product_currency = none;
  shipping_cost = none;
  shipping_currency = none;
  shipping_days = none;
  variants = [];
}

pub data SourceabilityReason : Type 0 where
  supplier_available supplier_is_unavailable supplier_availability_unknown
        supplier_availability_stale variants_fully_available variants_partially_available
        variants_unavailable variant_availability_unknown cost_unknown shipping_unknown
        check_required :
      SourceabilityReason

pub data CurrentSourceability : Type 0 where
  sourceable partially_sourceable needs_recheck not_sourceable unverified : CurrentSourceability

pub record SourceabilityResult (N : Type 0) : Type 0 where
  pub info : SupplierInfo N
  pub freshness : Freshness
  pub current : CurrentSourceability
  pub variant_coverage : VariantCoverage
  pub reasons : List SourceabilityReason
  pub push_eligible : Bool
  pub block : Option SourceabilityBlock
  pub confidence_penalty : ℕ

abbrev pub is_available : SupplierVariant → Bool
is_available v = elim v.availability [ available ↦ true | _ ↦ false ]

abbrev pub is_unavailable : SupplierVariant → Bool
is_unavailable v = elim v.availability [ unavailable ↦ true | _ ↦ false ]

abbrev pub is_unknown : SupplierVariant → Bool
is_unknown v = elim v.availability [ unknown ↦ true | _ ↦ false ]

-- `variants.filter(test)` and `variants.some(test)`
unfoldable pub filter : (SupplierVariant → Bool) → List SupplierVariant → List SupplierVariant
filter test [] = []
filter test (v ∷ vs) = let rest = filter test vs in if test v then v ∷ rest else rest

unfoldable pub any : (SupplierVariant → Bool) → List SupplierVariant → Bool
any test [] = false
any test (v ∷ vs) = let rest = any test vs in if test v then true else rest

unfoldable pub variant_coverage_of : List SupplierVariant → VariantCoverage
variant_coverage_of variants =
    let any_unknown = any is_unknown variants in
    let available_ones = filter is_available variants in
    let unavailable_ones = filter is_unavailable variants in
    if length variants == 0
    then unknown_coverage
    else (if length available_ones == length variants
        then full_coverage
        else (if (length available_ones == 0) && not any_unknown && ltb 0 (length unavailable_ones)
            then no_coverage
            else partial_coverage))

-- The place of a reason among the constructors, by which two are compared.
abbrev reason_code : SourceabilityReason → ℕ
reason_code supplier_available = 0
reason_code supplier_is_unavailable = 1
reason_code supplier_availability_unknown = 2
reason_code supplier_availability_stale = 3
reason_code variants_fully_available = 4
reason_code variants_partially_available = 5
reason_code variants_unavailable = 6
reason_code variant_availability_unknown = 7
reason_code cost_unknown = 8
reason_code shipping_unknown = 9
reason_code check_required = 10

unfoldable pub has : SourceabilityReason → List SourceabilityReason → Bool
has reason [] = false
has reason (r ∷ rs) =
    let rest = has reason rs in if reason_code r == reason_code reason then true else rest

-- The loop of `dedupeReasons`, given what it has seen.
unfoldable pub dedupe_from :
    List SourceabilityReason → List SourceabilityReason → List SourceabilityReason
unfolding has
dedupe_from seen [] = []
dedupe_from seen (r ∷ rs) =
    let skipped = dedupe_from seen rs in
    let pushed = r ∷ dedupe_from (r ∷ seen) rs in if has r seen then skipped else pushed

unfoldable pub dedupe_reasons : List SourceabilityReason → List SourceabilityReason
unfolding dedupe_from
dedupe_reasons reasons = dedupe_from [] reasons

-- The reasons that the variants give.
unfoldable pub variant_reasons : List SupplierVariant → VariantCoverage → List SourceabilityReason
unfolding any
variant_reasons [] _ = []
variant_reasons variants full_coverage = variants_fully_available ∷ []
variant_reasons variants no_coverage = variants_unavailable ∷ []
variant_reasons variants _ =
    variants_partially_available
    ∷ (if any is_unknown variants then variant_availability_unknown ∷ [] else [])

-- The reasons that are pushed before the availability is looked at.
unfoldable pub noted_reasons :
    {N : Type 0} → SupplierInfo N → VariantCoverage → List SourceabilityReason
unfolding variant_reasons
noted_reasons info coverage =
    (if is_null info.product_cost then cost_unknown ∷ [] else [])
    ++ (if is_null info.shipping_cost then shipping_unknown ∷ [] else [])
    ++ variant_reasons info.variants coverage

-- The reasons that are put in front, and the variables that the branches assign.
pub record Verdict : Type 0 where
  pub front : List SourceabilityReason
  pub current : CurrentSourceability
  pub push_eligible : Bool
  pub block : Option SourceabilityBlock
  pub confidence_penalty : ℕ

abbrev pub refused :
    List SourceabilityReason → CurrentSourceability → SourceabilityBlock → ℕ → Verdict
refused front current block penalty = record {
  front = front;
  current = current;
  push_eligible = false;
  block = some block;
  confidence_penalty = penalty;
}

abbrev pub allowed : CurrentSourceability → ℕ → Verdict
allowed current penalty = record {
  front = supplier_available ∷ [];
  current = current;
  push_eligible = true;
  block = none;
  confidence_penalty = penalty;
}

abbrev aging_manual : Freshness → SupplierAvailabilitySource → ℕ
aging_manual aging manual = 5
aging_manual _ _ = 0

-- The branch of an availability that is recorded and not stale.
unfoldable pub current_verdict : Freshness → SupplierAvailabilitySource → VariantCoverage → Verdict
current_verdict freshness source no_coverage =
    refused (supplier_available ∷ []) not_sourceable supplier_unavailable
      (aging_manual freshness source)
current_verdict freshness source partial_coverage =
    allowed partially_sourceable (10 + aging_manual freshness source)
current_verdict freshness source _ = allowed sourceable (aging_manual freshness source)

unfoldable pub verdict :
    SupplierAvailability → Freshness → SupplierAvailabilitySource → VariantCoverage → Verdict
unfolding current_verdict
verdict unavailable freshness source _ =
    refused (supplier_is_unavailable ∷ []) not_sourceable supplier_unavailable 0
verdict unknown freshness source _ =
    refused (supplier_availability_unknown ∷ check_required ∷ []) unverified availability_unknown 25
verdict available stale source _ =
    refused (supplier_availability_stale ∷ check_required ∷ []) needs_recheck availability_stale 25
verdict available freshness source covered = current_verdict freshness source covered

unfoldable pub compute_sourceability :
    {N : Type 0} → (String → Option ℕ) → Option (SupplierInfo N) → ℕ → ℕ → SourceabilityResult N
unfolding verdict noted_reasons dedupe_reasons variant_coverage_of resolve_freshness
compute_sourceability date supplier now fresh_hours =
    let info = or_else supplier empty_supplier_info in
    let coverage = variant_coverage_of info.variants in
    let freshness =
      resolve_freshness date info.checked_at now
        (record { fresh_within_hours = fresh_hours; aging_within_hours = fresh_hours * 2 }) in
    let v = verdict info.availability freshness info.availability_source coverage in
    record {
      info = info;
      freshness = freshness;
      current = v.current;
      variant_coverage = coverage;
      reasons = dedupe_reasons (v.front ++ noted_reasons info coverage);
      push_eligible = v.push_eligible;
      block = v.block;
      confidence_penalty = v.confidence_penalty;
    }
