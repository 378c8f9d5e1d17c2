-- ===== src/Intelligence/Sourceability/Coverage.antt =====
-- What the coverage of the variants says of each of them: src/intelligence/sourceability.ts.
use trademart_b.Prelude.{
  ◌≤◌, ◌≡◌, ◌≢◌, ◌↔◌, refl, Bool, true, false, List, [], ◌∷◌, arith, length, All, All-map, All-zip,
  Bool-cases, inl, inr,
}
use trademart_b.Intelligence.Push.Types.{
  SupplierVariant, SupplierAvailability, available, unavailable, full_coverage, no_coverage,
  unknown_coverage,
}
use trademart_b.Intelligence.Sourceability.{
  is_available, is_unavailable, is_unknown, filter, any, variant_coverage_of,
}

module _ (test : SupplierVariant → Bool) where
  length-filter : (vs : List SupplierVariant) → length (filter test vs) ≤ length vs
  unfolding filter
  length-filter [] = omega arith
  length-filter (v ∷ vs) = ground (arith, length-filter vs)

  filter-all :
      (vs : List SupplierVariant)
      → length (filter test vs) ≡ length vs
      → All (λ v. test v ≡ true) vs
  unfolding filter
  filter-all [] e = tt
  filter-all (v ∷ vs) e = elim (Bool-cases (test v)) [
    | inl holds ↦ (holds, filter-all vs (ground arith))
    | inr fails ↦ absurd (ground (arith, length-filter vs))
  ]

  all-filter :
      (vs : List SupplierVariant)
      → All (λ v. test v ≡ true) vs
      → length (filter test vs) ≡ length vs
  unfolding filter
  all-filter [] h = refl
  all-filter (v ∷ vs) h = ground (arith, all-filter vs h.1, h.0)

  filter-none :
      (vs : List SupplierVariant) → length (filter test vs) ≡ 0 → All (λ v. test v ≡ false) vs
  unfolding filter
  filter-none [] e = tt
  filter-none (v ∷ vs) e = elim (Bool-cases (test v)) [
    | inl holds ↦ absurd (ground arith)
    | inr fails ↦ (fails, filter-none vs (ground arith))
  ]

  none-filter :
      (vs : List SupplierVariant) → All (λ v. test v ≡ false) vs → length (filter test vs) ≡ 0
  unfolding filter
  none-filter [] h = refl
  none-filter (v ∷ vs) h = ground (arith, none-filter vs h.1, h.0)

  any-none : (vs : List SupplierVariant) → any test vs ≡ false → All (λ v. test v ≡ false) vs
  unfolding any
  any-none [] e = tt
  any-none (v ∷ vs) e = elim (Bool-cases (test v)) [
    | inl holds ↦ absurd (ground arith)
    | inr fails ↦ (fails, any-none vs (ground arith))
  ]

  none-any : (vs : List SupplierVariant) → All (λ v. test v ≡ false) vs → any test vs ≡ false
  unfolding any
  none-any [] h = refl
  none-any (v ∷ vs) h = ground (arith, none-any vs h.1, h.0)

-- Every variant has this availability.
abbrev pub AllAre : SupplierAvailability → List SupplierVariant → Type 0
AllAre a vs = All (λ v. v.availability ≡ a) vs

available-are : (v : SupplierVariant) → is_available v ≡ true → v.availability ≡ available
available-are v h = ground arith

are-available : (v : SupplierVariant) → v.availability ≡ available → is_available v ≡ true
are-available v h = ground arith

unavailable-are :
    (v : SupplierVariant)
    → is_available v ≡ false
    → is_unknown v ≡ false
    → v.availability ≡ unavailable
unavailable-are v h k = ground arith

not_available : (v : SupplierVariant) → v.availability ≡ unavailable → is_available v ≡ false
not_available v h = ground arith

not_unknown : (v : SupplierVariant) → v.availability ≡ unavailable → is_unknown v ≡ false
not_unknown v h = ground arith

are-unavailable : (v : SupplierVariant) → v.availability ≡ unavailable → is_unavailable v ≡ true
are-unavailable v h = ground arith

full-lem :
    (vs : List SupplierVariant)
    → variant_coverage_of vs ≡ full_coverage
    → (vs ≢ []) × (length (filter is_available vs) ≡ length vs)
unfolding variant_coverage_of
full-lem [] h = absurd (cc)
full-lem (v ∷ vs) h = (λ e. cc, ground arith)

none-lem :
    (vs : List SupplierVariant)
    → variant_coverage_of vs ≡ no_coverage
    → (vs ≢ []) × (length (filter is_available vs) ≡ 0) × (any is_unknown vs ≡ false)
unfolding variant_coverage_of
none-lem [] h = absurd (cc)
none-lem (v ∷ vs) h = (λ e. cc, ground arith, ground arith)

full-back :
    (vs : List SupplierVariant)
    → vs ≢ []
    → length (filter is_available vs) ≡ length vs
    → variant_coverage_of vs ≡ full_coverage
unfolding variant_coverage_of
full-back [] n e = absurd (n refl)
full-back (v ∷ vs) n e = ground arith

none-back :
    (vs : List SupplierVariant)
    → vs ≢ []
    → length (filter is_available vs) ≡ 0
    → any is_unknown vs ≡ false
    → length (filter is_unavailable vs) ≡ length vs
    → variant_coverage_of vs ≡ no_coverage
unfolding variant_coverage_of
none-back [] n a u e = absurd (n refl)
none-back (v ∷ vs) n a u e = ground arith

unknown-lem : (vs : List SupplierVariant) → variant_coverage_of vs ≡ unknown_coverage → vs ≡ []
unfolding variant_coverage_of
unknown-lem [] h = refl
unknown-lem (v ∷ vs) h = absurd (ground arith)

unknown-back : (vs : List SupplierVariant) → vs ≡ [] → variant_coverage_of vs ≡ unknown_coverage
unfolding variant_coverage_of
unknown-back [] h = refl
unknown-back (v ∷ vs) h = absurd (cc)

-- The coverage is FULL just where there are variants and each is AVAILABLE, NONE just where there are
-- variants and each is UNAVAILABLE, and UNKNOWN just where there are no variants: so PARTIAL just
-- where there are variants and neither holds of them all.
pub variant_coverage_of-AllAre :
    (vs : List SupplierVariant)
    → ((variant_coverage_of vs ≡ full_coverage) ↔ ((vs ≢ []) × AllAre available vs))
      × ((variant_coverage_of vs ≡ no_coverage) ↔ ((vs ≢ []) × AllAre unavailable vs))
      × ((variant_coverage_of vs ≡ unknown_coverage) ↔ (vs ≡ []))
variant_coverage_of-AllAre vs = (
  (
    (λ h.
        let (some_one, same) = full-lem vs h in
        (
          some_one,
          All-map _ (λ v. v.availability ≡ available) available-are vs
              (filter-all is_available vs same),
        )),
    (λ h. full-back vs h.0 (
        all-filter is_available vs
          (All-map (λ v. v.availability ≡ available) _ are-available vs h.1))),
  ),
  (
    (λ h.
        let (some_one, zero_available, known) = none-lem vs h in
        (
          some_one,
          All-zip _ _ (λ v. v.availability ≡ unavailable) unavailable-are vs
              (filter-none is_available vs zero_available) (any-none is_unknown vs known),
        )),
    (λ h.
        none-back vs h.0
          (none-filter is_available vs
            (All-map (λ v. v.availability ≡ unavailable) _ not_available vs h.1))
          (none-any is_unknown vs
            (All-map (λ v. v.availability ≡ unavailable) _ not_unknown vs h.1))
          (all-filter is_unavailable vs
            (All-map (λ v. v.availability ≡ unavailable) _ are-unavailable vs h.1))),
  ),
  (unknown-lem vs, unknown-back vs),
)
