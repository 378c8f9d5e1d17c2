-- ===== src/Intelligence/Transitions/Laws.antt =====
-- What the rules of candidate.transitions.ts guarantee.
use trademart_b.Prelude.{
  ℕ, ◌+◌, ◌≤◌, ◌≡◌, ◌≢◌, ◌↔◌, refl, true, false, Option, none, some, String, arith,
}
use trademart_b.Intelligence.Transitions.{
  CandidateStatus, new, analyzed, watching, selected, pushed_to_shopify, rejected, in_progress,
  safety_incident, Candidate, ActionDecision, can_transition, can_push_candidate, is_terminal,
  allowed_actions, claim_is_recoverable,
}

-- A candidate's status moves by a research decision that the rules allow.
pub data Decides (product : Option String) : CandidateStatus → CandidateStatus → Type 0 where
  stay : {s : CandidateStatus} → Decides product s s
  decide :
      {s t u : CandidateStatus}
      → Decides product s t
      → (can_transition t u product).allowed ≡ true
      → Decides product s u

terminal_refuses :
    (from to : CandidateStatus) (product : Option String)
    → is_terminal from ≡ true
    → (can_transition from to product).allowed ≡ false
unfolding is_terminal can_transition
terminal_refuses pushed_to_shopify to product h = refl
terminal_refuses rejected to product h = refl
terminal_refuses new to product h = cc
terminal_refuses analyzed to product h = cc
terminal_refuses watching to product h = cc
terminal_refuses selected to product h = cc

-- No sequence of allowed research decisions leaves a terminal status.
pub Decides-is_terminal :
    {product : Option String} {s t : CandidateStatus}
    → Decides product s t
    → is_terminal s ≡ true
    → t ≡ s
Decides-is_terminal stay h = refl
Decides-is_terminal {product} (decide {t} {u} d e) h =
    let same = Decides-is_terminal d h in
    let refused = terminal_refuses t u product (rw same h) in absurd (cc)

never_pushed_by_decision :
    (from : CandidateStatus) (product : Option String)
    → (can_transition from pushed_to_shopify product).allowed ≡ false
unfolding can_transition
never_pushed_by_decision new product = refl
never_pushed_by_decision analyzed product = refl
never_pushed_by_decision watching product = refl
never_pushed_by_decision selected product = refl
never_pushed_by_decision pushed_to_shopify product = refl
never_pushed_by_decision rejected product = refl

-- No sequence of allowed research decisions reaches PUSHED_TO_SHOPIFY from another status.
pub Decides-ne-pushed :
    {product : Option String} {s t : CandidateStatus}
    → Decides product s t
    → s ≢ pushed_to_shopify
    → t ≢ pushed_to_shopify
Decides-ne-pushed stay h e = h e
Decides-ne-pushed {product} (decide {t} d a) h e =
    let refused = never_pushed_by_decision t product in cc

-- Each of the five actions is refused on a candidate whose status is terminal.
pub allowed_actions-is_terminal :
    (c : Candidate)
    → is_terminal c.status ≡ true
    → ((allowed_actions c).watch.allowed ≡ false)
      × ((allowed_actions c).select.allowed ≡ false)
      × ((allowed_actions c).reject.allowed ≡ false)
      × ((allowed_actions c).push.allowed ≡ false)
      × ((allowed_actions c).analyze.allowed ≡ false)
unfolding is_terminal allowed_actions
allowed_actions-is_terminal c h = ground arith

-- A push may begin exactly when no Shopify product is recorded, no push is running or left an
-- incident, and the status is not terminal.
can_push_candidate_iff :
    (c : Candidate)
    → ((can_push_candidate c).allowed ≡ true) ↔ (
        (c.pushed_shopify_product_id ≡ none)
        × (c.push_state ≢ in_progress)
        × (c.push_state ≢ safety_incident)
        × (is_terminal c.status ≡ false))
unfolding is_terminal can_push_candidate
can_push_candidate_iff c = ground arith

abbrev pub Explained : ActionDecision → Type 0
Explained d = (d.allowed ≡ true) ↔ (d.reason ≡ none)

-- Each of the five actions is allowed exactly when it carries no reason for a refusal.
pub allowed_actions-Explained :
    (c : Candidate)
    → Explained (allowed_actions c).watch
      × Explained (allowed_actions c).select
      × Explained (allowed_actions c).reject
      × Explained (allowed_actions c).push
      × Explained (allowed_actions c).analyze
unfolding allowed_actions
allowed_actions-Explained c = ground arith

-- A claim that names a readable time is recoverable exactly when a push is in progress and the lease
-- has run out.
pub claim_is_recoverable_iff :
    (time : String → Option ℕ) (c : Candidate) (now lease_ms claimed : ℕ) {text : String}
    → c.push_claimed_at ≡ some text
    → time text ≡ some claimed
    → (claim_is_recoverable time c now lease_ms ≡ true)
      ↔ ((c.push_state ≡ in_progress) × (claimed + lease_ms ≤ now))
unfolding claim_is_recoverable
claim_is_recoverable_iff time c now lease_ms claimed e f = ground arith
