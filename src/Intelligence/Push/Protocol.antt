-- ===== src/Intelligence/Push/Protocol.antt =====
-- What src/intelligence/push.orchestrator.ts promises about its calls: the phases of a push, and the
-- call that each phase allows. It is read off the module's comments, not off its code.
use trademart_b.Prelude.{
  Bool, true, false, not, ◌&&◌, ◌||◌, Option, none, some, is_null, List, [], ◌∷◌, String, ◌===◌,
  if◌then◌else◌,
}
use trademart_b.Intelligence.Push.Types.{
  PreparedAnalysis, PushAsDraftInput, PushIntent, ProductCreateRequest, VariantCoverage,
  partial_coverage, ProductStatus, draft,
}
use trademart_b.Intelligence.Push.Ports.{
  Event, asked, wrote, claimed, claim_failed, looked_up, lookup_failed, prepared, froze, created,
  hid, costed, succeeded, incident, released,
}
use trademart_b.Intelligence.Push.Draft.{research_identity_tag}

pub data Phase (N : Type 0) : Type 0 where
  -- no claim was asked for, none was granted, or the call for it threw
  unclaimed refused unanswered : Phase N
  -- the claim on that candidate is held, and no product is known
  holding : String → Phase N
  judged frozen : String → PreparedAnalysis N → Phase N
  cleared : PreparedAnalysis N → Phase N
  unsure : Phase N
  -- a product is known, with whether it is visible
  known : String → Bool → Phase N
  done reported : String → Phase N
  -- the claim was given back, or the call that gives it back threw
  given_back release_failed : Phase N
  -- a call was made that its phase does not allow
  broken : Phase N

-- The decision is the one that was approved, if one was.
unfoldable pub hash_agrees : Option String → String → Bool
hash_agrees none actual = true
hash_agrees (some expected) actual = expected === actual

abbrev partly : VariantCoverage → Bool
partly partial_coverage = true
partly _ = false

unfoldable pub has_tag : String → List String → Bool
has_tag tag [] = false
has_tag tag (t ∷ ts) = (t === tag) || has_tag tag ts

abbrev is_draft_status : ProductStatus → Bool
is_draft_status draft = true
is_draft_status _ = false

hidden_or : Bool → Option Bool → Bool
hidden_or seen none = seen
hidden_or seen (some now_seen) = now_seen

module _ {N : Type 0} where
  -- The product can be sourced, in full or as acknowledged.
  unfoldable pub sourceable : PushAsDraftInput N → PreparedAnalysis N → Bool
  sourceable input p =
      is_null p.sourceability.block
      && (not (partly p.sourceability.variant_coverage) || input.acknowledge_partial_variants)

  unfoldable pub may_freeze : PushAsDraftInput N → PreparedAnalysis N → PushIntent N → Bool
  unfolding hash_agrees sourceable
  may_freeze input p intent =
      hash_agrees input.expected_decision_hash intent.actual_decision_hash
      && (intent.actual_decision_hash === p.decision_hash)
      && sourceable input p

  -- A hidden draft that can be found again by its candidate's tag.
  unfoldable pub is_hidden_draft : PreparedAnalysis N → ProductCreateRequest N → Bool
  unfolding has_tag
  is_hidden_draft p request =
      is_draft_status request.status
      && not request.publish
      && has_tag (research_identity_tag p.fresh_candidate.id) request.tags

  from_lookup : Phase N → Option (String × Bool) → Phase N
  from_lookup missing none = missing
  from_lookup missing (some (id, seen)) = known id seen

  abbrev pub from_released : Bool → Phase N
  from_released true = given_back
  from_released false = release_failed

  -- Before a claim is held nothing is written.
  from_unclaimed : Event N → Phase N
  from_unclaimed asked = unclaimed
  from_unclaimed (claimed (some id)) = holding id
  from_unclaimed (claimed none) = refused
  from_unclaimed claim_failed = unanswered
  from_unclaimed _ = broken

  from_holding : String → Event N → Phase N
  unfolding from_lookup
  from_holding id asked = holding id
  from_holding id (looked_up other found) =
      if other === id then from_lookup (holding id) found else broken
  from_holding id (lookup_failed other) = if other === id then holding id else broken
  from_holding id (prepared p) = judged id p
  from_holding id (released answered) = from_released answered
  from_holding id _ = broken

  from_judged : PushAsDraftInput N → String → PreparedAnalysis N → Event N → Phase N
  from_judged input id p asked = judged id p
  from_judged input id p (froze intent owned) =
      if may_freeze input p intent then (if owned then frozen id p else unsure) else broken
  from_judged input id p (released answered) = from_released answered
  from_judged input id p _ = broken

  from_frozen : String → PreparedAnalysis N → Event N → Phase N
  unfolding from_lookup
  from_frozen id p asked = frozen id p
  from_frozen id p (looked_up other found) =
      if other === id then from_lookup (cleared p) found else broken
  from_frozen id p (lookup_failed other) = if other === id then frozen id p else broken
  from_frozen id p (released answered) = from_released answered
  from_frozen id p _ = broken

  -- The creation follows the lookup at once, or the claim is given back.
  from_cleared : PreparedAnalysis N → Event N → Phase N
  unfolding from_lookup
  from_cleared p (created request product) =
      if is_hidden_draft p request then from_lookup unsure product else broken
  from_cleared p (released answered) = from_released answered
  from_cleared p _ = broken

  from_unsure : Event N → Phase N
  from_unsure (released answered) = from_released answered
  from_unsure _ = broken

  from_known : String → Bool → Event N → Phase N
  unfolding hidden_or
  from_known id seen asked = known id seen
  from_known id seen wrote = known id seen
  from_known id seen (hid other after) =
      if (other === id) && seen then known id (hidden_or seen after) else broken
  from_known id seen (costed cost) =
      if cost.shopify_product_id === id then known id seen else broken
  from_known id seen (succeeded other owned) =
      if (other === id) && not seen then (if owned then done id else known id seen) else broken
  from_known id seen (incident other) = if (other === id) && seen then reported id else broken
  from_known id seen _ = broken

  asked_only : Phase N → Event N → Phase N
  asked_only p asked = p
  asked_only p _ = broken

  -- What is left to do is to read and to record what happened.
  closing : Phase N → Event N → Phase N
  closing p asked = p
  closing p wrote = p
  closing p _ = broken

  unfoldable pub advance : PushAsDraftInput N → Phase N → Event N → Phase N
  unfolding from_unclaimed from_holding from_judged from_frozen from_cleared from_unsure from_known
      asked_only closing
  advance input unclaimed event = from_unclaimed event
  advance input (holding id) event = from_holding id event
  advance input (judged id p) event = from_judged input id p event
  advance input (frozen id p) event = from_frozen id p event
  advance input (cleared p) event = from_cleared p event
  advance input unsure event = from_unsure event
  advance input (known id seen) event = from_known id seen event
  advance input refused event = asked_only refused event
  advance input unanswered event = asked_only unanswered event
  advance input (done id) event = closing (done id) event
  advance input (reported id) event = closing (reported id) event
  advance input given_back event = closing given_back event
  advance input release_failed event = closing release_failed event
  advance input broken event = broken

  -- The phase that the calls have led to; the last call stands first.
  unfoldable pub phase_of : PushAsDraftInput N → List (Event N) → Phase N
  unfolding advance
  phase_of input [] = unclaimed
  phase_of input (event ∷ before) = advance input (phase_of input before) event
