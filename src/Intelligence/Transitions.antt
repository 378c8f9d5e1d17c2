-- ===== src/Intelligence/Transitions.antt =====
-- src/intelligence/candidate.transitions.ts: which research decisions and pushes a candidate allows.
-- The message of a refusal is a constructor that carries what the code interpolates.
pub mod Laws
use trademart_b.Prelude.{
  ℕ, ◌+◌, Bool, true, false, not, ◌||◌, ◌&&◌, Option, none, some, List, [], ◌∷◌, String, leb, ◌==◌,
  if◌then◌else◌, is_null,
}

pub data CandidateStatus : Type 0 where
  new analyzed watching selected pushed_to_shopify rejected : CandidateStatus

pub data PushState : Type 0 where
  idle in_progress succeeded safety_incident : PushState

-- The columns of a candidate that the rules read.
pub record Candidate : Type 0 where
  pub status : CandidateStatus
  pub push_state : PushState
  pub pushed_shopify_product_id : Option String
  pub push_operation_id : Option String
  pub push_claimed_at : Option String

pub data Reason : Type 0 where
  draft_exists : Option String → Reason
  was_rejected : Reason
  cannot_become : CandidateStatus → CandidateStatus → List CandidateStatus → Reason
  pushed_as : String → Reason
  push_running : Reason
  unverified_product : Reason
  already_product : Reason
  closed : Reason
  push_analyzes : Reason

pub record ActionDecision : Type 0 where
  pub allowed : Bool
  pub reason : Option Reason

abbrev pub allow : ActionDecision
allow = record { allowed = true; reason = none }

abbrev pub refuse : Reason → ActionDecision
refuse r = record { allowed = false; reason = some r }

abbrev ordinal : CandidateStatus → ℕ
ordinal new = 0
ordinal analyzed = 1
ordinal watching = 2
ordinal selected = 3
ordinal pushed_to_shopify = 4
ordinal rejected = 5

-- `statuses.includes(status)`
abbrev pub includes : List CandidateStatus → CandidateStatus → Bool
includes [] s = false
includes (x ∷ xs) s = ordinal x == ordinal s || includes xs s

abbrev pub terminal_statuses : List CandidateStatus
terminal_statuses = pushed_to_shopify ∷ rejected ∷ []

pub allowed_transitions : CandidateStatus → List CandidateStatus
allowed_transitions new = analyzed ∷ watching ∷ selected ∷ rejected ∷ []
allowed_transitions analyzed = watching ∷ selected ∷ rejected ∷ []
allowed_transitions watching = watching ∷ selected ∷ rejected ∷ []
allowed_transitions selected = watching ∷ rejected ∷ []
allowed_transitions pushed_to_shopify = []
allowed_transitions rejected = []

-- The last test of `canTransition`, reached from a status that is not terminal.
table_decision : CandidateStatus → CandidateStatus → ActionDecision
unfolding allowed_transitions
table_decision from to =
    if not (includes (allowed_transitions from) to)
    then refuse (cannot_become from to (allowed_transitions from))
    else allow

-- The third argument is `context.pushedShopifyProductId`.
unfoldable pub can_transition : CandidateStatus → CandidateStatus → Option String → ActionDecision
unfolding table_decision
can_transition pushed_to_shopify to product = refuse (draft_exists product)
can_transition rejected to product = refuse was_rejected
can_transition from to product = table_decision from to

abbrev pub pushable_statuses : List CandidateStatus
pushable_statuses = new ∷ analyzed ∷ watching ∷ selected ∷ []

abbrev is_in_progress : PushState → Bool
is_in_progress in_progress = true
is_in_progress _ = false

abbrev is_safety_incident : PushState → Bool
is_safety_incident safety_incident = true
is_safety_incident _ = false

unpushed_decision : Candidate → ActionDecision
unfolding can_transition
unpushed_decision c =
    if is_in_progress c.push_state
    then refuse push_running
    else (if is_safety_incident c.push_state
        then refuse unverified_product
        else (if not (includes pushable_statuses c.status)
            then can_transition c.status pushed_to_shopify c.pushed_shopify_product_id
            else allow))

unfoldable pub can_push_candidate : Candidate → ActionDecision
unfolding unpushed_decision
can_push_candidate c = elim c.pushed_shopify_product_id [
  | none ↦ unpushed_decision c
  | some product ↦ refuse (pushed_as product)
]

unfoldable pub is_terminal : CandidateStatus → Bool
is_terminal s = includes terminal_statuses s

abbrev is_pushed : CandidateStatus → Bool
is_pushed pushed_to_shopify = true
is_pushed _ = false

unfoldable pub analyze_decision : Candidate → ActionDecision
unfolding is_terminal
analyze_decision c =
    if is_pushed c.status
    then refuse already_product
    else (if is_terminal c.status
        then refuse closed
        else (if is_in_progress c.push_state then refuse push_analyzes else allow))

pub record AllowedActions : Type 0 where
  pub watch : ActionDecision
  pub select : ActionDecision
  pub reject : ActionDecision
  pub push : ActionDecision
  pub analyze : ActionDecision

unfoldable pub allowed_actions : Candidate → AllowedActions
unfolding can_transition can_push_candidate analyze_decision
allowed_actions c = record {
  watch = can_transition c.status watching c.pushed_shopify_product_id;
  select = can_transition c.status selected c.pushed_shopify_product_id;
  reject = can_transition c.status rejected c.pushed_shopify_product_id;
  push = can_push_candidate c;
  analyze = analyze_decision c;
}

-- `time` is `new Date(text).getTime()`, with none for NaN.
unfoldable pub claim_is_recoverable : (String → Option ℕ) → Candidate → ℕ → ℕ → Bool
claim_is_recoverable time c now lease_ms =
    if not (is_in_progress c.push_state) then false else elim c.push_claimed_at [
      | none ↦ true
      | some text ↦ elim (time text) [
        | none ↦ true
        -- `now - claimed >= lease`
        | some claimed ↦ leb (claimed + lease_ms) now
      ]
    ]

unfoldable pub push_state_allows_claim : PushState → Bool
push_state_allows_claim idle = true
push_state_allows_claim _ = false
