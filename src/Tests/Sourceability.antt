-- ===== src/Tests/Sourceability.antt =====
-- A supplier's verification and the recommendation that it allows.
use trademart_b.Prelude.{
  ℕ, ◌<◌, ◌≤◌, ◌≡◌, ◌≢◌, ◌↔◌, refl, true, false, Option, none, some, [], ◌∷◌, String, or_else,
}
use trademart_b.Common.DataQuality.{stale}
use trademart_b.Intelligence.Push.Types.{
  Recommendation, strong_candidate, watch, reject, available, unavailable, SupplierVariant,
  PreparedAnalysis, full_coverage, no_coverage, partial_coverage, unknown_coverage,
}
use trademart_b.Intelligence.Sourceability.{
  SupplierInfo, tradelle, manual, variant_coverage_of, compute_sourceability,
}
use trademart_b.Intelligence.Sourceability.Coverage.{AllAre, variant_coverage_of-AllAre}
use trademart_b.Intelligence.FinalRecommendation.{recommendation_rank, final_recommendation_of}
use trademart_b.Intelligence.Push.Gates.{decision_changed, refused_decision}
use trademart_b.Intelligence.FinalRecommendation.Pushed.{
  prepared_sourceability, MayBeHad, refused_decision-MayBeHad,
}
use trademart_b.Tests.Push.{prepared_analysis, request}
use trademart_b.Intelligence.FinalRecommendation.Cautious.{final_recommendation_of-IsCautious}

abbrev red : SupplierVariant
red = record {
  supplier_variant_id = some "v1";
  sku = none;
  title = "Red";
  availability = available;
  option_values = [];
}

abbrev blue : SupplierVariant
blue = record red { title = "Blue"; availability = unavailable }

abbrev supplier : SupplierInfo ℕ
supplier = record {
  provider = tradelle;
  supplier_product_id = none;
  source_url = none;
  availability = available;
  availability_source = manual;
  checked_at = some "1970-01-01T00:00:00Z";
  stock_known = false;
  product_cost = some 5;
  product_currency = some "USD";
  shipping_cost = none;
  shipping_currency = none;
  shipping_days = none;
  variants = red ∷ blue ∷ [];
}

abbrev date : String → Option ℕ
date _ = some 0

variant_coverage_of-AllAre_example :
    ((variant_coverage_of (red ∷ blue ∷ []) ≡ full_coverage)
      ↔ ((red ∷ blue ∷ [] ≢ []) × AllAre available (red ∷ blue ∷ [])))
    × ((variant_coverage_of (red ∷ blue ∷ []) ≡ no_coverage)
        ↔ ((red ∷ blue ∷ [] ≢ []) × AllAre unavailable (red ∷ blue ∷ [])))
    × ((variant_coverage_of (red ∷ blue ∷ []) ≡ unknown_coverage) ↔ (red ∷ blue ∷ [] ≡ []))
variant_coverage_of-AllAre_example = variant_coverage_of-AllAre (red ∷ blue ∷ [])

final_recommendation_of-IsCautious_example :
    let out =
      final_recommendation_of date
        (some strong_candidate)
        (some 90)
        (some supplier)
        1000000000
        72 in
    (final : Recommendation) × (out.1.recommendation ≡ some final)
    × (recommendation_rank final ≤ recommendation_rank strong_candidate)
    × (2 < recommendation_rank final
        → (out.0.info.availability ≡ available)
          × (out.0.freshness ≢ stale)
          × (out.0.variant_coverage ≢ no_coverage)
          × (out.0.push_eligible ≡ true))
    × (out.0.info.availability ≡ unavailable → final ≡ reject)
    × (out.1.confidence_score ≤ or_else (some 90) 0)
    × (out.1.confidence_score ≤ 100)
final_recommendation_of-IsCautious_example =
    final_recommendation_of-IsCautious date (some supplier) 1000000000 72 strong_candidate (some 90)

-- The check is long past, and the strong candidate is held at WATCH.
stale_check :
    (final_recommendation_of date
      (some strong_candidate)
      (some 90)
      (some supplier)
      1000000000
      72).1.recommendation
    ≡ some watch
unfolding final_recommendation_of
stale_check = refl

abbrev judged : PreparedAnalysis ℕ
judged = record prepared_analysis {
  sourceability = prepared_sourceability (compute_sourceability date (some supplier) 1000 72);
}

refused_decision-MayBeHad_example : (refused_decision request judged ≡ none) ↔ (
    (decision_changed request judged ≡ false)
    × MayBeHad
        (compute_sourceability date (some supplier) 1000 72).info.availability
        (compute_sourceability date (some supplier) 1000 72).freshness
        (compute_sourceability date (some supplier) 1000 72).variant_coverage
    × ((compute_sourceability date (some supplier) 1000 72).variant_coverage ≡ partial_coverage
        → request.acknowledge_partial_variants ≡ true))
refused_decision-MayBeHad_example =
    refused_decision-MayBeHad request judged date (some supplier) 1000 72 refl
