-- ===== src/Tests/Dropshipping.antt =====
-- An order with two parcels.
use trademart_b.Prelude.{◌≤◌, none, some, [], ◌∷◌, All}
use trademart_b.Dropshipping.Status.{
  FulfillmentDto, unknown, from_fulfillment, rank_of, resolve_progress,
}
use trademart_b.Dropshipping.Status.Progress.{IsReported, resolve_progress-IsFurthest}

abbrev moving : FulfillmentDto
moving = record {
  status = some "SUCCESS";
  display_status = some "IN_TRANSIT";
  in_transit_at = none;
  delivered_at = none;
}

abbrev lost : FulfillmentDto
lost = record {
  status = some "SUCCESS";
  display_status = some "FAILURE";
  in_transit_at = none;
  delivered_at = none;
}

resolve_progress-IsFurthest_example :
    let state = (resolve_progress (some "FULFILLED") (some "PAID") none (moving ∷ lost ∷ [])).0 in
    IsReported unknown state (moving ∷ lost ∷ [])
    × All (λ g. rank_of (from_fulfillment g) ≤ rank_of state) (moving ∷ lost ∷ [])
resolve_progress-IsFurthest_example =
    resolve_progress-IsFurthest (some "FULFILLED") (some "PAID") moving (lost ∷ [])
