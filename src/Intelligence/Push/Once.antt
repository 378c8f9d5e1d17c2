-- ===== src/Intelligence/Push/Once.antt =====
-- What the phases of a push, src/intelligence/push.orchestrator.ts, say of all its calls at once.
use trademart_b.Prelude.{
  ℕ, suc, ◌≤◌, true, false, none, some, List, [], ◌∷◌, String, ◌≡◌, ◌≢◌, refl, ◌⊎◌, inl, inr, arith,
  All,
}
use trademart_b.Intelligence.Push.Types.{PushAsDraftInput, draft}
use trademart_b.Intelligence.Push.Ports.{Event, looked_up, froze, created, released}
use trademart_b.Intelligence.Push.Protocol.{
  Phase, unclaimed, refused, holding, unsure, judged, frozen, cleared, known, done, reported,
  given_back, release_failed, unanswered, broken, advance, phase_of, is_hidden_draft, may_freeze,
  hash_agrees,
}
use trademart_b.Intelligence.Push.Types.{PushAsDraftResult}
use trademart_b.Intelligence.Push.Ports.{Answer, PushPorts, Collaborators, Run}
use trademart_b.Intelligence.Push.Sequence.{push_candidate_as_draft}
use trademart_b.Intelligence.Push.Follows.{
  Ends, returns, throws, Holds, known_id, done_id, reported_id, Finished,
}
use trademart_b.Intelligence.Push.Outcome.{
  Over, never_claimed, claim_refused, claim_unanswered, release_unanswered, claim_returned,
  product_remembered, push_candidate_as_draft-Follows,
}

module _ {N : Type 0} where
  -- The calls of `createProduct`.
  unfoldable pub creations : List (Event N) → ℕ
  creations [] = 0
  creations (created request product ∷ calls) = suc (creations calls)
  creations (_ ∷ calls) = creations calls

  -- The times that the claim was given back.
  unfoldable pub releases : List (Event N) → ℕ
  releases [] = 0
  releases (released answered ∷ calls) = suc (releases calls)
  releases (_ ∷ calls) = releases calls

  -- The times that a product became known, by a lookup or by its creation.
  unfoldable pub products : List (Event N) → ℕ
  products [] = 0
  products (looked_up id (some p) ∷ calls) = suc (products calls)
  products (created request (some p) ∷ calls) = suc (products calls)
  products (_ ∷ calls) = products calls

  -- A creation is of a hidden draft, and a frozen intent carries the decision that was approved.
  abbrev pub IsProper : PushAsDraftInput N → Event N → Type 0
  IsProper input (created request product) = (request.status ≡ draft) × (request.publish ≡ false)
  IsProper input (froze intent owned) =
      hash_agrees input.expected_decision_hash intent.actual_decision_hash ≡ true
  IsProper input _ = Unit {0}

  -- The counts that a phase can come after.
  abbrev Counts : Phase N → ℕ → ℕ → ℕ → Type 0
  Counts unsure made given found = (made ≤ 1) × (given ≡ 0) × (found ≡ 0)
  Counts (known id seen) made given found = (made ≤ 1) × (given ≡ 0)
  Counts (done id) made given found = (made ≤ 1) × (given ≡ 0)
  Counts (reported id) made given found = (made ≤ 1) × (given ≡ 0)
  Counts given_back made given found = (made ≤ 1) × (found ≡ 0)
  Counts release_failed made given found = (made ≤ 1) × (found ≡ 0)
  Counts broken made given found = Unit {0}
  Counts _ made given found = (made ≡ 0) × (given ≡ 0) × (found ≡ 0)

  abbrev Counted : Phase N → List (Event N) → Type 0
  Counted p calls = Counts p (creations calls) (releases calls) (products calls)

  advance-Counted :
      (input : PushAsDraftInput N) (p : Phase N) (event : Event N) (calls : List (Event N))
      → Counted p calls
      → Counted (advance input p event) (event ∷ calls)
  unfolding advance creations releases products
  advance-Counted input (holding id) (looked_up other none) calls h = ground arith
  advance-Counted input (holding id) (looked_up other (some p)) calls h = ground arith
  advance-Counted input (frozen id q) (looked_up other none) calls h = ground arith
  advance-Counted input (frozen id q) (looked_up other (some p)) calls h = ground arith
  advance-Counted input (cleared q) (created request none) calls h = ground arith
  advance-Counted input (cleared q) (created request (some p)) calls h = ground arith
  advance-Counted input p _ calls h = ground arith

  phase_of-Counted :
      (input : PushAsDraftInput N) (calls : List (Event N)) → Counted (phase_of input calls) calls
  unfolding phase_of creations releases products
  phase_of-Counted input [] = (refl, refl, refl)
  phase_of-Counted input (event ∷ calls) =
      advance-Counted input (phase_of input calls) event calls (phase_of-Counted input calls)

  -- A call that is not proper breaks the rules, and what is broken stays so.
  advance-IsProper :
      (input : PushAsDraftInput N) (p : Phase N) (event : Event N)
      → advance input p event ≢ broken
      → (p ≢ broken) × IsProper input event
  unfolding advance is_hidden_draft may_freeze
  advance-IsProper input p _ kept = ground arith

  phase_of-All :
      (input : PushAsDraftInput N) (calls : List (Event N))
      → phase_of input calls ≢ broken
      → All (IsProper input) calls
  unfolding phase_of
  phase_of-All input [] kept = tt
  phase_of-All input (event ∷ calls) kept =
      let now = advance-IsProper input (phase_of input calls) event kept in
      (now.1, phase_of-All input calls now.0)

  -- What holds of all calls of a push.
  pub record IsSafe (input : PushAsDraftInput N) (calls : List (Event N)) : Type 0 where
    pub created_once : creations calls ≤ 1
    pub kept_or_unknown : (releases calls ≡ 0) ⊎ (products calls ≡ 0)
    pub proper : All (IsProper input) calls

  Counts-safe :
      (p : Phase N) {made given found : ℕ}
      → p ≢ broken
      → Counts p made given found
      → (made ≤ 1) × ((given ≡ 0) ⊎ (found ≡ 0))
  Counts-safe unsure kept c = (c.0, inl c.1)
  Counts-safe (known id seen) kept c = (c.0, inl c.1)
  Counts-safe (done id) kept c = (c.0, inl c.1)
  Counts-safe (reported id) kept c = (c.0, inl c.1)
  Counts-safe given_back kept c = (c.0, inr c.1)
  Counts-safe release_failed kept c = (c.0, inr c.1)
  Counts-safe broken kept c = absurd (kept refl)
  Counts-safe unclaimed kept c = (omega (arith, c.0), inl c.1)
  Counts-safe refused kept c = (omega (arith, c.0), inl c.1)
  Counts-safe unanswered kept c = (omega (arith, c.0), inl c.1)
  Counts-safe (holding id) kept c = (omega (arith, c.0), inl c.1)
  Counts-safe (judged id p) kept c = (omega (arith, c.0), inl c.1)
  Counts-safe (frozen id p) kept c = (omega (arith, c.0), inl c.1)
  Counts-safe (cleared p) kept c = (omega (arith, c.0), inl c.1)

  phase_of-IsSafe :
      (input : PushAsDraftInput N) (calls : List (Event N))
      → phase_of input calls ≢ broken
      → IsSafe input calls
  phase_of-IsSafe input calls kept =
      let counts = Counts-safe (phase_of input calls) kept (phase_of-Counted input calls) in
      record {
        created_once = counts.0;
        kept_or_unknown = counts.1;
        proper = phase_of-All input calls kept;
      }

Holds-kept : {N : Type 0} {id : String} {p : Phase N} → Holds id p → p ≢ broken
Holds-kept (known_id seen) e = absurd (cc)
Holds-kept done_id e = absurd (cc)
Holds-kept reported_id e = absurd (cc)

module _ {N W : Type 0} (input : PushAsDraftInput N) where
  Over-kept : {s : Run N W} → Over input s → phase_of input s.calls ≢ broken
  Over-kept (never_claimed p) e = absurd (cc)
  Over-kept (claim_refused p) e = absurd (cc)
  Over-kept (claim_unanswered p) e = absurd (cc)
  Over-kept (release_unanswered p) e = absurd (cc)
  Over-kept (claim_returned p) e = absurd (cc)
  Over-kept (product_remembered holds named) e = Holds-kept holds e

  Ends-kept :
      {x : Run N W × Answer (PushAsDraftResult N)}
      → Ends (Finished input) (λ s e. Over input s) x
      → phase_of input (x.0).calls ≢ broken
  Ends-kept (returns s r finished) e = absurd (cc (finished.at_done.phase_eq))
  Ends-kept (throws s failure over) e = Over-kept over e

-- A push asks Shopify to create a product at most once, whatever the ports answer or throw, and only
-- a draft that is not published; its claim is given back only if no product has become known in it,
-- by a lookup or by the creation; and every intent that it freezes carries the decision hash that the
-- operator approved, where the request has one.
pub push_candidate_as_draft-IsSafe :
    {N W P C : Type 0} (ports : PushPorts N W P C) (uses : Collaborators N P C)
    (input : PushAsDraftInput N) (id : String) (s : Run N W)
    → s.calls ≡ []
    → IsSafe input (push_candidate_as_draft ports uses id input s).0.calls
push_candidate_as_draft-IsSafe ports uses input id s fresh =
    phase_of-IsSafe input _
      (Ends-kept input (push_candidate_as_draft-Follows ports uses input id s fresh))
