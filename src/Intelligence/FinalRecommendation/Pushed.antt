-- ===== src/Intelligence/FinalRecommendation/Pushed.antt =====
-- What a push refuses for the supplier's sake: src/intelligence/push.orchestrator.ts on the verdict of
-- src/intelligence/sourceability.ts, which the analysis of a candidate hands to it.
use trademart_b.Prelude.{
  ℕ, ◌≡◌, ◌≢◌, ◌↔◌, refl, sym, ◌∙◌, ap, true, false, Option, none, String, arith,
}
use trademart_b.Intelligence.Push.Types.{
  SupplierAvailability, available, unavailable, unknown, VariantCoverage, partial_coverage,
  no_coverage, Sourceability, PreparedAnalysis, PushAsDraftInput,
}
use trademart_b.Intelligence.Push.Gates.{decision_changed, refused_decision}
use trademart_b.Common.DataQuality.{Freshness, fresh, aging, stale, unknown_freshness}
use trademart_b.Intelligence.Sourceability.{
  SupplierInfo, SupplierAvailabilitySource, current_verdict, verdict, SourceabilityResult,
  compute_sourceability,
}

-- Of the verdict the fields that a push reads.
unfoldable pub prepared_sourceability : {N : Type 0} → SourceabilityResult N → Sourceability
prepared_sourceability s = record {
  block = s.block;
  variant_coverage = s.variant_coverage;
  variants = s.info.variants;
}

-- The supplier has it, was asked lately enough, and has some variant of it.
abbrev pub MayBeHad : SupplierAvailability → Freshness → VariantCoverage → Type 0
MayBeHad a f c = (a ≡ available) × (f ≢ stale) × (c ≢ no_coverage)

verdict-unblocked :
    (a : SupplierAvailability) (f : Freshness) (source : SupplierAvailabilitySource)
    (c : VariantCoverage)
    → (verdict a f source c).block ≡ none
    → MayBeHad a f c
unfolding verdict current_verdict
verdict-unblocked unavailable f source c h = absurd (cc)
verdict-unblocked unknown f source c h = absurd (cc)
verdict-unblocked available stale source c h = absurd (cc)
verdict-unblocked available fresh source no_coverage h = absurd (cc)
verdict-unblocked available aging source no_coverage h = absurd (cc)
verdict-unblocked available unknown_freshness source no_coverage h = absurd (cc)
verdict-unblocked available f source c h = (refl, λ e. cc, λ e. cc)

unblocked-verdict :
    (a : SupplierAvailability) (f : Freshness) (source : SupplierAvailabilitySource)
    (c : VariantCoverage)
    → MayBeHad a f c
    → (verdict a f source c).block ≡ none
unfolding verdict current_verdict
unblocked-verdict unavailable f source c h = absurd (cc (h.0))
unblocked-verdict unknown f source c h = absurd (cc (h.0))
unblocked-verdict available stale source c h = absurd (h.1 refl)
unblocked-verdict available fresh source no_coverage h = absurd (h.2 refl)
unblocked-verdict available aging source no_coverage h = absurd (h.2 refl)
unblocked-verdict available unknown_freshness source no_coverage h = absurd (h.2 refl)
unblocked-verdict available f source c h = refl

module _ {N : Type 0} (input : PushAsDraftInput N) (p : PreparedAnalysis N) where
  refused_decision-unblocked :
      refused_decision input p ≡ none
      → (decision_changed input p ≡ false)
        × (p.sourceability.block ≡ none)
        × (p.sourceability.variant_coverage ≡ partial_coverage
            → input.acknowledge_partial_variants ≡ true)
  unfolding refused_decision
  refused_decision-unblocked h = (ground arith, ground arith, λ e. ground arith)

  unblocked-refused_decision :
      decision_changed input p ≡ false
      → p.sourceability.block ≡ none
      → (p.sourceability.variant_coverage ≡ partial_coverage
          → input.acknowledge_partial_variants ≡ true)
      → refused_decision input p ≡ none
  unfolding refused_decision
  unblocked-refused_decision same open_block partly = ground arith

module _ {N M : Type 0} (input : PushAsDraftInput N) (p : PreparedAnalysis N)
    (date : String → Option ℕ) (supplier : Option (SupplierInfo M)) (now fresh_hours : ℕ) where
  -- A push whose analysis carries the verdict on the supplier's record passes the tests of the decision
  -- and of the supplier just where the decision is the approved one, the supplier's availability is
  -- recorded as AVAILABLE, its check is not STALE, its variants are not all UNAVAILABLE, and a partial
  -- coverage of the variants is acknowledged.
  pub refused_decision-MayBeHad :
      p.sourceability ≡ prepared_sourceability (compute_sourceability date supplier now fresh_hours)
      → (refused_decision input p ≡ none) ↔ (
          (decision_changed input p ≡ false)
          × MayBeHad
              (compute_sourceability date supplier now fresh_hours).info.availability
              (compute_sourceability date supplier now fresh_hours).freshness
              (compute_sourceability date supplier now fresh_hours).variant_coverage
          × ((compute_sourceability date supplier now fresh_hours).variant_coverage
                ≡ partial_coverage
              → input.acknowledge_partial_variants ≡ true))
  unfolding prepared_sourceability compute_sourceability
  refused_decision-MayBeHad e =
      let s = compute_sourceability date supplier now fresh_hours in
      let same_block = ap (λ (x : Sourceability). x.block) e in
      let same_coverage = ap (λ (x : Sourceability). x.variant_coverage) e in
      (
        (λ h.
            let k = refused_decision-unblocked input p h in
            (
              k.0,
              verdict-unblocked s.info.availability s.freshness s.info.availability_source
                  s.variant_coverage (sym same_block ∙ k.1),
              λ partly. k.2 (same_coverage ∙ partly),
            )),
        (λ h.
            unblocked-refused_decision input p h.0
              (same_block
                ∙ unblocked-verdict s.info.availability s.freshness s.info.availability_source
                    s.variant_coverage h.1)
              (λ partly. h.2 (sym same_coverage ∙ partly))),
      )
