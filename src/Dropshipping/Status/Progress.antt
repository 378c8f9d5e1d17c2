-- ===== src/Dropshipping/Status/Progress.antt =====
-- The progress of an order is that of the parcel that ranks highest.
use trademart_b.Prelude.{
  ℕ, ◌≤◌, ◌≡◌, ◌≢◌, refl, Option, none, some, List, [], ◌∷◌, String, arith, All, ◌⊎◌, inl, inr, ◌∙◌,
}
use trademart_b.Dropshipping.Status.{
  DropshipFulfillmentState, delayed, unknown, FulfillmentDto, from_order_status, order_state,
  from_fulfillment, rank_of, further, furthest, resolve_progress,
}

-- Some parcel is in the state, or the state is what the search began with.
abbrev pub IsReported :
    DropshipFulfillmentState → DropshipFulfillmentState → List FulfillmentDto → Type 0
IsReported start s [] = s ≡ start
IsReported start s (f ∷ fs) = (s ≡ from_fulfillment f) ⊎ IsReported start s fs

further-rank :
    (s : DropshipFulfillmentState) (f : FulfillmentDto)
    → (rank_of s ≤ rank_of (further s f)) × (rank_of (from_fulfillment f) ≤ rank_of (further s f))
unfolding further
further-rank s f = ground arith

further-cases :
    (s : DropshipFulfillmentState) (f : FulfillmentDto)
    → (further s f ≡ from_fulfillment f) ⊎ (further s f ≡ s)
unfolding further
further-cases s f = ground arith

furthest-rank :
    (start : DropshipFulfillmentState) (fs : List FulfillmentDto)
    → (rank_of start ≤ rank_of (furthest start fs))
      × All (λ f. rank_of (from_fulfillment f) ≤ rank_of (furthest start fs)) fs
unfolding furthest
furthest-rank start [] = (omega arith, tt)
furthest-rank start (f ∷ fs) =
    let (a, b) = furthest-rank (further start f) fs in
    let (c, d) = further-rank start f in (omega (arith, a, c), (omega (arith, a, d), b))

IsReported-restart :
    (start a s : DropshipFulfillmentState) (f : FulfillmentDto) (fs : List FulfillmentDto)
    → (a ≡ from_fulfillment f) ⊎ (a ≡ start)
    → IsReported a s fs
    → IsReported start s (f ∷ fs)
IsReported-restart start a s f [] (inl e) h = inl (h ∙ e)
IsReported-restart start a s f [] (inr e) h = inr (h ∙ e)
IsReported-restart start a s f (g ∷ fs) c (inl e) = inr (inl e)
IsReported-restart start a s f (g ∷ fs) c (inr h) = elim (IsReported-restart start a s f fs c h) [
  | inl e ↦ inl e
  | inr k ↦ inr (inr k)
]

furthest-IsReported :
    (start : DropshipFulfillmentState) (fs : List FulfillmentDto)
    → IsReported start (furthest start fs) fs
unfolding furthest
furthest-IsReported start [] = refl
furthest-IsReported start (f ∷ fs) =
    IsReported-restart start (further start f) (furthest (further start f) fs) f fs
      (further-cases start f) (furthest-IsReported (further start f) fs)

-- For an order that is not cancelled and has fulfillments, the progress is the state of one of them, or
-- UNKNOWN, and no fulfillment's state ranks above it.
pub resolve_progress-IsFurthest :
    (order_status financial_status : Option String) (f : FulfillmentDto) (fs : List FulfillmentDto)
    → IsReported unknown (resolve_progress order_status financial_status none (f ∷ fs)).0 (f ∷ fs)
      × All
          (λ g.
            rank_of (from_fulfillment g)
            ≤ rank_of (resolve_progress order_status financial_status none (f ∷ fs)).0)
          (f ∷ fs)
unfolding resolve_progress
resolve_progress-IsFurthest order_status financial_status f fs =
    (furthest-IsReported unknown (f ∷ fs), (furthest-rank unknown (f ∷ fs)).1)

-- The progress is never DELAYED.
pub resolve_progress-ne-delayed :
    (order_status financial_status : Option String) (cancelled_at : Option ℕ)
    (fs : List FulfillmentDto)
    → (resolve_progress order_status financial_status cancelled_at fs).0 ≢ delayed
unfolding resolve_progress from_order_status order_state
resolve_progress-ne-delayed order_status financial_status (some t) fs = λ e. cc
resolve_progress-ne-delayed none financial_status none [] = λ e. cc
resolve_progress-ne-delayed (some s) financial_status none [] = λ e. ground arith
resolve_progress-ne-delayed order_status financial_status none (f ∷ fs) = λ e.
    let above = (furthest-rank unknown (f ∷ fs)).0 in
    absurd (unfold rank_of in (let k = rw e at above in omega (arith, k)))
