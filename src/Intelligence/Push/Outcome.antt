-- ===== src/Intelligence/Push/Outcome.antt =====
-- `pushCandidateAsDraft` of src/intelligence/push.orchestrator.ts as a whole: its calls follow the
-- phases of Protocol, and where it ends.
use trademart_b.Prelude.{ℕ, true, false, Option, none, some, [], String, ◌≡◌, refl, ap, sym, ◌∙◌}
use mathlib.Core.Path.{subst}
use trademart_b.Intelligence.Push.Types.{
  ProductCandidate, PushAsDraftInput, PushAsDraftResult, Failure,
}
use trademart_b.Intelligence.Push.Ports.{
  Answer, returned, PushPorts, Collaborators, Run, wrote, asked_for, written, claim_event,
  release_event,
}
use trademart_b.Intelligence.Push.Sequence.{
  push_candidate_as_draft, settle, clean_up, in_claim, after_claim,
}
use trademart_b.Intelligence.Push.Decided.{push_with_claim-Follows}
use trademart_b.Intelligence.Push.Protocol.{
  Phase, unclaimed, refused, unanswered, given_back, release_failed, advance, phase_of,
}
use trademart_b.Intelligence.Push.Follows.{
  Ends, returns, throws, At, At-eq, call-next, clock-next, answer-next, raise_if-next, Holds,
  known_id, done_id, reported_id, Stopped, with_product, without_product, Finished,
}

wrote-Holds :
    {N : Type 0} (input : PushAsDraftInput N) {id : String} {p : Phase N}
    → Holds id p
    → advance input p wrote ≡ p
unfolding advance
wrote-Holds input (known_id seen) = refl
wrote-Holds input done_id = refl
wrote-Holds input reported_id = refl

module _ {N W : Type 0} (input : PushAsDraftInput N) where
  -- Where a push that throws has come to: no claim was asked for, it was refused, the call for it
  -- threw, it was given back, the call that gives it back threw, or the product is known.
  pub data Over (s : Run N W) : Type 0 where
    never_claimed : phase_of input s.calls ≡ unclaimed → Over s
    claim_refused : phase_of input s.calls ≡ refused → Over s
    claim_unanswered : phase_of input s.calls ≡ unanswered → Over s
    release_unanswered : phase_of input s.calls ≡ release_failed → Over s
    claim_returned : phase_of input s.calls ≡ given_back → Over s
    product_remembered :
        {id : String} → Holds id (phase_of input s.calls) → s.product_id ≡ some id → Over s

  At-Over : {id : String} {p : Phase N} {s : Run N W} → Holds id p → At input p (some id) s → Over s
  At-Over {id} holds h = product_remembered (subst (Holds id) (sym h.phase_eq) holds) h.product_eq

module _ {N W P C : Type 0} (ports : PushPorts N W P C) (uses : Collaborators N P C)
    (input : PushAsDraftInput N) where
  abbrev Q : Run N W → PushAsDraftResult N → Type 0
  Q = Finished input

  abbrev E : Run N W → Failure → Type 0
  E s e = Over input s

  abbrev IsOver : Run N W × Answer (PushAsDraftResult N) → Type 0
  IsOver = Ends Q E

  clean_up-Over :
      (id : String) (error : Failure) (product : Option String) (s : Run N W)
      → s.product_id ≡ product
      → Stopped input s
      → IsOver (clean_up ports uses id input error product s)
  unfolding clean_up advance
  clean_up-Over id error none s e (without_product h free) =
      call-next input release_event Q E (ports.release id input.operation_id) _ s h
        (λ t x k. release_unanswered (k.phase_eq ∙ free false))
        (λ t x k.
          call-next input written Q E (ports.audit _) _ t (At-eq input (free true) k)
            (λ u y l. claim_returned l.phase_eq) (λ u y l. throws u _ (claim_returned l.phase_eq)))
  clean_up-Over id error (some product) s e (without_product h free) = absurd (cc (h.product_eq))
  clean_up-Over id error none s e (with_product h holds) = absurd (cc (h.product_eq))
  clean_up-Over id error (some product) s e (with_product h holds) =
      let same = wrote-Holds input holds in
      call-next input written Q E (ports.audit _) _ s h
        (λ t x k. At-Over input holds (At-eq input same k))
        (λ t x k. throws t _ (At-Over input holds (At-eq input same k)))

  settle-Over :
      (id : String) {x : Run N W × Answer (PushAsDraftResult N)}
      → Ends (Finished input) (λ s e. Stopped input s) x
      → IsOver (settle ports uses id input x)
  unfolding settle
  settle-Over id (returns s r finished) = returns s r finished
  settle-Over id (throws s e stopped) = clean_up-Over id e s.product_id s refl stopped

  after_claim-Over :
      (id : String) (now : ℕ) (found : Option (ProductCandidate N)) {product : Option String}
      (s : Run N W)
      → At input (advance input unclaimed (claim_event (returned found))) product s
      → IsOver (after_claim ports uses id input now found s)
  unfolding after_claim in_claim advance
  after_claim-Over id now none s h =
      call-next input asked_for Q E (ports.load id) _ s h (λ t e k. claim_refused k.phase_eq)
        (λ t current k. throws t _ (claim_refused k.phase_eq))
  after_claim-Over id now (some claimed) s h = settle-Over id (
      push_with_claim-Follows ports uses input claimed.id now _
        (record { phase_eq = h.phase_eq; product_eq = refl }))

  -- Whatever the ports answer or throw, every call of a push is one that its phase allows. Before a
  -- claim is held it only reads and asks for the claim: no write, no lookup, no creation. Every lookup
  -- by tag is of the claimed candidate's tag. Shopify's product is created at most once, as a hidden
  -- draft with that candidate's tag as prepared, after an intent that carries the approved decision of
  -- a product that can be sourced was frozen under the claim, and right after a lookup that found
  -- nothing. Once a product is known the claim is not given back, no other product's state or cost is
  -- written, success is recorded only while the product is hidden and an incident only while it is
  -- visible. A push that returns has recorded its product's success, and the product's state is
  -- hidden. A push that throws has asked for no claim, was refused it, had no answer to its call for
  -- it, has given it back, had no answer to its call to give it back, or remembers its product.
  pub push_candidate_as_draft-Follows :
      (id : String) (s : Run N W)
      → s.calls ≡ []
      → Ends (Finished input) (λ t e. Over input t) (push_candidate_as_draft ports uses id input s)
  unfolding push_candidate_as_draft advance phase_of
  push_candidate_as_draft-Follows id s fresh =
      clock-next input Q E ports.now _ s
        (record { phase_eq = ap (phase_of input) fresh; product_eq = refl })
        (λ t now h.
          call-next input asked_for Q E (ports.load id) _ t h (λ u e k. never_claimed k.phase_eq)
            (λ u existing k.
              raise_if-next input Q E _ _ _ u (λ x. never_claimed k.phase_eq)
                (λ x.
                  answer-next input Q E _ _ u (λ e y. never_claimed k.phase_eq)
                    (λ labelled y.
                      call-next input claim_event Q E (ports.claim id input.operation_id now) _ u k
                        (λ v e l. claim_unanswered l.phase_eq)
                        (λ v found l. after_claim-Over id now found v l)))))
