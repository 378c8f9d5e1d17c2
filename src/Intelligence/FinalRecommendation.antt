-- ===== src/Intelligence/FinalRecommendation.antt =====
-- What src/intelligence/sourceability.ts makes of a candidate's recommendation. A confidence score is a
-- whole number, and the texts that give the reason are the constructors of GateReason.
pub mod Cautious
pub mod Pushed
use trademart_b.Prelude.{
  ℕ, ◌+◌, ◌-◌, ◌*◌, Bool, true, false, not, ◌&&◌, Option, none, some, is_null, or_else, List, [],
  ◌∷◌, ◌++◌, String, length, ltb, leb, ◌==◌, if◌then◌else◌,
}
use trademart_b.Common.DataQuality.{Freshness, fresh, aging, stale, resolve_freshness}
use trademart_b.Intelligence.Push.Types.{
  Recommendation, strong_candidate, good_candidate, watch, weak, reject, SupplierAvailability,
  available, unavailable, unknown, SupplierVariant, SourceabilityBlock, supplier_unavailable,
  availability_unknown, availability_stale, VariantCoverage, full_coverage, partial_coverage,
  no_coverage, unknown_coverage,
}
use trademart_b.Intelligence.Sourceability.{
  SupplierInfo, CurrentSourceability, sourceable, partially_sourceable, needs_recheck,
  not_sourceable, unverified, SourceabilityResult, compute_sourceability,
}

abbrev pub recommendation_rank : Recommendation → ℕ
recommendation_rank strong_candidate = 4
recommendation_rank good_candidate = 3
recommendation_rank watch = 2
recommendation_rank weak = 1
recommendation_rank reject = 0

unfoldable pub cap_at : Recommendation → Recommendation → Recommendation
cap_at rec cap = if leb (recommendation_rank rec) (recommendation_rank cap) then rec else cap

pub data GateReason : Type 0 where
  rejected_no_variant rejected_unavailable held_unverified held_stale some_variants : GateReason

pub record FinalRecommendation : Type 0 where
  pub recommendation : Option Recommendation
  pub opportunity_recommendation : Option Recommendation
  pub confidence_score : ℕ
  pub reason : Option GateReason
  pub gated : Bool

-- `Math.max(0, Math.min(100, Math.round(score - penalty)))`
unfoldable pub reduced : ℕ → ℕ → ℕ
reduced score penalty = if leb (score - penalty) 100 then score - penalty else 100

abbrev same_recommendation : Recommendation → Recommendation → Bool
same_recommendation a b = recommendation_rank a == recommendation_rank b

abbrev rejection : VariantCoverage → Option SourceabilityBlock → GateReason
rejection no_coverage (some supplier_unavailable) = rejected_no_variant
rejection _ _ = rejected_unavailable

-- The `switch` on the verdict.
unfoldable pub gate_verdict :
    {N : Type 0}
    → Recommendation
    → ℕ
    → SourceabilityResult N
    → CurrentSourceability
    → FinalRecommendation
unfolding cap_at
gate_verdict r score s not_sourceable = record {
  recommendation = some reject;
  opportunity_recommendation = some r;
  confidence_score = score;
  reason = some (rejection s.variant_coverage s.block);
  gated = true;
}
gate_verdict r score s unverified =
    let capped = cap_at r watch in
    let kept = same_recommendation capped r in
    record {
      recommendation = some capped;
      opportunity_recommendation = some r;
      confidence_score = score;
      reason = if kept then none else some held_unverified;
      gated = not kept;
    }
gate_verdict r score s needs_recheck = record {
  recommendation = some (cap_at r watch);
  opportunity_recommendation = some r;
  confidence_score = score;
  reason = some held_stale;
  gated = true;
}
gate_verdict r score s partially_sourceable = record {
  recommendation = some r;
  opportunity_recommendation = some r;
  confidence_score = score;
  reason = some some_variants;
  gated = false;
}
gate_verdict r score s sourceable = record {
  recommendation = some r;
  opportunity_recommendation = some r;
  confidence_score = score;
  reason = none;
  gated = false;
}

unfoldable pub apply_sourceability_gate :
    {N : Type 0} → Option Recommendation → ℕ → SourceabilityResult N → FinalRecommendation
unfolding gate_verdict reduced
apply_sourceability_gate none confidence s = record {
  recommendation = none;
  opportunity_recommendation = none;
  confidence_score = reduced confidence s.confidence_penalty;
  reason = none;
  gated = false;
}
apply_sourceability_gate (some r) confidence s =
    gate_verdict r (reduced confidence s.confidence_penalty) s s.current

-- `finalRecommendationOf` of src/intelligence/candidate.analysis.ts.
unfoldable pub final_recommendation_of :
    {N : Type 0}
    → (String → Option ℕ)
    → Option Recommendation
    → Option ℕ
    → Option (SupplierInfo N)
    → ℕ
    → ℕ
    → SourceabilityResult N × FinalRecommendation
unfolding compute_sourceability apply_sourceability_gate
final_recommendation_of date recommendation confidence supplier now fresh_hours =
    let s = compute_sourceability date supplier now fresh_hours in
    (s, apply_sourceability_gate recommendation (or_else confidence 0) s)
