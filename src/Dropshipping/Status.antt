-- ===== src/Dropshipping/Status.antt =====
-- src/dropshipping/dropshipping.status.ts: the progress that an order's parcels report. The texts of
-- Shopify's fields stay texts, the parsed time of a cancellation is an argument, and the sentences of
-- the notes are their kinds. The lateness signals and the tracking lists are left out.
pub mod Progress
use trademart_b.Prelude.{
  ℕ, Bool, true, false, not, ◌||◌, ◌&&◌, Option, none, some, List, [], ◌∷◌, String, ltb, ◌===◌,
  if◌then◌else◌,
}

pub data DropshipFulfillmentState : Type 0 where
  order_received awaiting_supplier supplier_processing fulfilled label_created carrier_picked_up
        in_transit out_for_delivery delivered delayed delivery_failed cancelled unknown :
      DropshipFulfillmentState

-- The fields that the progress is read from.
pub record FulfillmentDto : Type 0 where
  pub status : Option String
  pub display_status : Option String
  pub in_transit_at : Option String
  pub delivered_at : Option String

pub data Note : Type 0 where
  on_hold request_declined restocked partly_fulfilled : Note

-- DISPLAY_STATUS_MAP
unfoldable pub display_state : String → Option DropshipFulfillmentState
display_state s =
    if (s === "SUBMITTED") || (s === "CONFIRMED")
    then some supplier_processing
    else (if (s === "FULFILLED") || (s === "MARKED_AS_FULFILLED")
        then some fulfilled
        else (if (s === "LABEL_PRINTED") || (s === "LABEL_PURCHASED")
            then some label_created
            else (if s === "PICKED_UP"
                then some carrier_picked_up
                else (if s === "IN_TRANSIT"
                    then some in_transit
                    else (if (s === "OUT_FOR_DELIVERY") || (s === "READY_FOR_PICKUP")
                        then some out_for_delivery
                        else (if s === "DELIVERED"
                            then some delivered
                            else (if (s === "ATTEMPTED_DELIVERY")
                                  || (s === "NOT_DELIVERED")
                                  || (s === "FAILURE")
                                then some delivery_failed
                                else (if (s === "CANCELED") || (s === "LABEL_VOIDED")
                                    then some cancelled
                                    else none))))))))

-- `fromOrderStatus` of a status that is not null.
order_state : String → Bool → DropshipFulfillmentState × Option Note
order_state s paid =
    if s === "FULFILLED"
    then (fulfilled, none)
    else (if (s === "IN_PROGRESS") || (s === "PARTIALLY_FULFILLED")
        then (supplier_processing, none)
        else (if (s === "PENDING_FULFILLMENT") || (s === "SCHEDULED")
            then (awaiting_supplier, none)
            else (if s === "ON_HOLD"
                then (awaiting_supplier, some on_hold)
                else (if s === "REQUEST_DECLINED"
                    then (awaiting_supplier, some request_declined)
                    else (if s === "RESTOCKED"
                        then (cancelled, some restocked)
                        else (if (s === "OPEN") || (s === "UNFULFILLED")
                            then (if paid
                                then (awaiting_supplier, none)
                                else (order_received, none))
                            else (unknown, none)))))))

unfoldable pub from_order_status : Option String → Bool → DropshipFulfillmentState × Option Note
unfolding order_state
from_order_status none paid = (unknown, none)
from_order_status (some s) paid = order_state s paid

-- The `switch` on `fulfillment.status`.
record_state : String → DropshipFulfillmentState
record_state s =
    if s === "CANCELLED"
    then cancelled
    else (if (s === "ERROR") || (s === "FAILURE")
        then delivery_failed
        else (if s === "SUCCESS"
            then fulfilled
            else (if (s === "OPEN") || (s === "PENDING") then supplier_processing else unknown)))

status_state : Option String → DropshipFulfillmentState
unfolding record_state
status_state none = unknown
status_state (some s) = record_state s

-- `fromFulfillment` where the display status says nothing.
observed_state : FulfillmentDto → DropshipFulfillmentState
unfolding status_state
observed_state f = elim f.delivered_at [
  | some t ↦ delivered
  | none ↦ elim f.in_transit_at [ some t ↦ in_transit | none ↦ status_state f.status ]
]

abbrev mapped_or :
    Option DropshipFulfillmentState → DropshipFulfillmentState → DropshipFulfillmentState
mapped_or none d = d
mapped_or (some s) d = s

unfoldable pub from_fulfillment : FulfillmentDto → DropshipFulfillmentState
unfolding display_state observed_state
from_fulfillment f = elim f.display_status [
  | none ↦ observed_state f
  | some d ↦ mapped_or (display_state d) (observed_state f)
]

-- STATE_RANK, one higher, with DELAYED, which ranks below all, at 0.
unfoldable pub rank_of : DropshipFulfillmentState → ℕ
rank_of delayed = 0
rank_of unknown = 1
rank_of order_received = 2
rank_of awaiting_supplier = 3
rank_of supplier_processing = 4
rank_of fulfilled = 5
rank_of label_created = 6
rank_of carrier_picked_up = 7
rank_of in_transit = 8
rank_of out_for_delivery = 9
rank_of delivered = 10
rank_of delivery_failed = 11
rank_of cancelled = 12

unfoldable pub is_terminal : DropshipFulfillmentState → Bool
is_terminal delivered = true
is_terminal cancelled = true
is_terminal delivery_failed = true
is_terminal _ = false

unfoldable pub is_paid : Option String → Bool
is_paid none = false
is_paid (some s) = (s === "PAID") || (s === "PARTIALLY_PAID") || (s === "PARTIALLY_REFUNDED")

-- One turn of the loop over the fulfillments.
unfoldable pub further : DropshipFulfillmentState → FulfillmentDto → DropshipFulfillmentState
unfolding from_fulfillment rank_of
further state f =
    if ltb (rank_of state) (rank_of (from_fulfillment f)) then from_fulfillment f else state

-- The loop, from the state found so far.
unfoldable pub furthest : DropshipFulfillmentState → List FulfillmentDto → DropshipFulfillmentState
unfolding further
furthest state [] = state
furthest state (f ∷ fs) = furthest (further state f) fs

abbrev note_of : Option Note → List Note
note_of none = []
note_of (some n) = n ∷ []

abbrev is_partly : Option String → Bool
is_partly none = false
is_partly (some s) = s === "PARTIALLY_FULFILLED"

-- `normalizedStatus` and the notes of `resolveShipment`; `cancelled_at` is the parsed time.
unfoldable pub resolve_progress :
    Option String
    → Option String
    → Option ℕ
    → List FulfillmentDto
    → DropshipFulfillmentState × List Note
unfolding from_order_status is_paid furthest is_terminal
resolve_progress order_status financial_status (some t) fs = (cancelled, [])
resolve_progress order_status financial_status none [] =
    let (state, note) = from_order_status order_status (is_paid financial_status) in
    (state, note_of note)
resolve_progress order_status financial_status none (f ∷ fs) =
    let state = furthest unknown (f ∷ fs) in
    (
      state,
      (if is_partly order_status && not (is_terminal state) then partly_fulfilled ∷ [] else []),
    )
