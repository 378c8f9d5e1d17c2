-- ===== src/Intelligence/FinalRecommendation/Cautious.antt =====
-- The recommendation that is shown is never bolder than what the supplier allows:
-- src/intelligence/sourceability.ts.
use trademart_b.Prelude.{ℕ, ◌≤◌, ◌<◌, ◌≡◌, ◌≢◌, refl, true, Option, some, String, arith, or_else}
use trademart_b.Intelligence.Push.Types.{
  Recommendation, watch, reject, SupplierAvailability, available, unavailable, unknown,
  VariantCoverage, no_coverage,
}
use trademart_b.Common.DataQuality.{Freshness, fresh, aging, stale, unknown_freshness}
use trademart_b.Intelligence.Sourceability.{
  SupplierInfo, SupplierAvailabilitySource, CurrentSourceability, sourceable, partially_sourceable,
  needs_recheck, not_sourceable, unverified, current_verdict, verdict, SourceabilityResult,
  compute_sourceability,
}
use trademart_b.Intelligence.FinalRecommendation.{
  recommendation_rank, cap_at, reduced, gate_verdict, apply_sourceability_gate,
  final_recommendation_of,
}

-- The verdict lets the recommendation stand.
data IsOpen : CurrentSourceability → Type 0 where
  all_open : IsOpen sourceable
  partly_open : IsOpen partially_sourceable

verdict-open :
    (a : SupplierAvailability) (f : Freshness) (source : SupplierAvailabilitySource)
    (c : VariantCoverage)
    → IsOpen (verdict a f source c).current
    → (a ≡ available)
      × (f ≢ stale)
      × (c ≢ no_coverage)
      × ((verdict a f source c).push_eligible ≡ true)
unfolding verdict current_verdict
verdict-open unavailable f source c h = elim h [ ]
verdict-open unknown f source c h = elim h [ ]
verdict-open available stale source c h = elim h [ ]
verdict-open available fresh source no_coverage h = elim h [ ]
verdict-open available aging source no_coverage h = elim h [ ]
verdict-open available unknown_freshness source no_coverage h = elim h [ ]
verdict-open available f source c h = (refl, λ e. cc, λ e. cc, refl)

verdict-unavailable :
    (a : SupplierAvailability) (f : Freshness) (source : SupplierAvailabilitySource)
    (c : VariantCoverage)
    → a ≡ unavailable
    → (verdict a f source c).current ≡ not_sourceable
unfolding verdict
verdict-unavailable a f source c h = ground arith

cap_at-watch :
    (r : Recommendation)
    → (recommendation_rank (cap_at r watch) ≤ recommendation_rank r)
      × (recommendation_rank (cap_at r watch) ≤ 2)
unfolding cap_at
cap_at-watch r = ground arith

reduced-le : (score penalty : ℕ) → (reduced score penalty ≤ score) × (reduced score penalty ≤ 100)
unfolding reduced
reduced-le score penalty = ground arith

module _ {N : Type 0} (r : Recommendation) (score : ℕ) (s : SourceabilityResult N) where
  gate_verdict-lem :
      (c : CurrentSourceability)
      → (final : Recommendation) × ((gate_verdict r score s c).recommendation ≡ some final)
        × (recommendation_rank final ≤ recommendation_rank r)
        × (2 < recommendation_rank final → IsOpen c)
        × (c ≡ not_sourceable → final ≡ reject)
        × ((gate_verdict r score s c).confidence_score ≡ score)
  unfolding gate_verdict
  gate_verdict-lem sourceable = (r, refl, omega arith, λ _. all_open, λ e. absurd (cc), refl)
  gate_verdict-lem partially_sourceable =
      (r, refl, omega arith, λ _. partly_open, λ e. absurd (cc), refl)
  gate_verdict-lem needs_recheck = (
    cap_at r watch,
    refl,
    (cap_at-watch r).0,
    λ bold. absurd (omega (arith, cap_at-watch r, bold)),
    λ e. absurd (cc),
    refl,
  )
  gate_verdict-lem unverified = (
    cap_at r watch,
    refl,
    (cap_at-watch r).0,
    λ bold. absurd (omega (arith, cap_at-watch r, bold)),
    λ e. absurd (cc),
    refl,
  )
  gate_verdict-lem not_sourceable =
      (reject, refl, omega arith, λ bold. absurd (omega (arith, bold)), λ e. refl, refl)

module _ {N : Type 0} (date : String → Option ℕ) (supplier : Option (SupplierInfo N))
    (now fresh_hours : ℕ) where
  -- The recommendation that is shown for a candidate with a recommendation is never bolder than that
  -- one. It is better than WATCH only where the supplier's availability is recorded as AVAILABLE, its
  -- check is not STALE, some variant may be had, and a push is eligible; and where the supplier is
  -- recorded as UNAVAILABLE it is REJECT. The confidence that goes with it is at most the
  -- candidate's, and at most 100.
  pub final_recommendation_of-IsCautious :
      (r : Recommendation) (confidence : Option ℕ)
      → let out = final_recommendation_of date (some r) confidence supplier now fresh_hours in
        (final : Recommendation) × (out.1.recommendation ≡ some final)
        × (recommendation_rank final ≤ recommendation_rank r)
        × (2 < recommendation_rank final
            → (out.0.info.availability ≡ available)
              × (out.0.freshness ≢ stale)
              × (out.0.variant_coverage ≢ no_coverage)
              × (out.0.push_eligible ≡ true))
        × (out.0.info.availability ≡ unavailable → final ≡ reject)
        × (out.1.confidence_score ≤ or_else confidence 0)
        × (out.1.confidence_score ≤ 100)
  unfolding final_recommendation_of apply_sourceability_gate compute_sourceability
  final_recommendation_of-IsCautious r confidence =
      let s = compute_sourceability date supplier now fresh_hours in
      let score = reduced (or_else confidence 0) s.confidence_penalty in
      let (final, is_final, lower, bold, refused, kept) = gate_verdict-lem r score s s.current in
      let bounds = reduced-le (or_else confidence 0) s.confidence_penalty in
      (
        final,
        is_final,
        lower,
        λ high.
            verdict-open s.info.availability s.freshness s.info.availability_source
              s.variant_coverage (bold high),
        λ e. refused (
            verdict-unavailable s.info.availability s.freshness s.info.availability_source
              s.variant_coverage e),
        omega (arith, bounds.0, kept),
        omega (arith, bounds.1, kept),
      )
