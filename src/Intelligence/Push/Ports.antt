-- ===== src/Intelligence/Push/Ports.antt =====
-- src/intelligence/push.ports.ts: the outside world of a push, and the calls that a push makes of it.
use trademart_b.Prelude.{ℕ, Bool, true, false, ◌||◌, Option, none, some, List, ◌∷◌, String}
use trademart_b.Intelligence.Push.Types.{
  Numbers, ProductCandidate, PreparedAnalysis, PushIntent, ShopifyProductState, SupplierVariant,
  SupplierVariantPlan, PlannedVariantSource, CreatedVariant, VariantMapping,
  ExistingResearchProduct, CreatedProduct, ProductCreateRequest, CostRequest, PushAuditFacts,
  Failure,
}

pub data Answer (A : Type 0) : Type 0 where
  returned : A → Answer A
  thrown : Failure → Answer A

-- `W` is the state of the world outside. A time is the clock's reading. `catalogue` and `drafts` are
-- what the duplicate check compares with.
pub record PushPorts (N W P C : Type 0) : Type 0 where
  pub now : W → W × ℕ
  pub load : String → W → W × Answer (ProductCandidate N)
  pub claim : String → String → ℕ → W → W × Answer (Option (ProductCandidate N))
  pub release : String → String → W → W × Answer (Unit {0})
  pub record_intent : String → String → ℕ → PushIntent N → W → W × Answer Bool
  pub load_intent : String → W → W × Answer (Option (PushIntent N))
  pub mark_succeeded : String → String → String → List VariantMapping → ℕ → W → W × Answer Bool
  pub mark_safety_incident :
      String → String → String → List VariantMapping → ℕ → W → W × Answer (Unit {0})
  pub list_for_duplicates : W → W × Answer (List C)
  pub prepare : String → Option String → ℕ → W → W × Answer (PreparedAnalysis N)
  pub persist : PreparedAnalysis N → W → W × Answer (Unit {0})
  pub find_by_research_tag : String → W → W × Answer (Option ExistingResearchProduct)
  pub list_catalogue : W → W × Answer (List P)
  pub create_product : ProductCreateRequest N → W → W × Answer CreatedProduct
  pub force_hidden : String → W → W × Answer ShopifyProductState
  pub record_cost : CostRequest N → W → W × Answer (Unit {0})
  pub audit : PushAuditFacts N → W → W × Answer (Unit {0})

-- The modules that the push calls: duplicate.detection.ts, of whose report the push reads the number
-- of blocking matches, variant.mapping.ts, `describeCandidate`, `isExplicitCurrencyCode` and
-- `new Date(text).getTime()`.
pub record Collaborators (N P C : Type 0) : Type 0 where
  pub numbers : Numbers N
  pub blocking_duplicates : ProductCandidate N → List P → List C → ℕ
  pub build_variant_plan : List SupplierVariant → N → Answer (SupplierVariantPlan N)
  pub map_created_variants :
      String → List PlannedVariantSource → List CreatedVariant → ℕ → Answer (List VariantMapping)
  pub describe : ProductCandidate N → String
  pub is_explicit_currency : String → Bool
  pub time_of : String → Option ℕ

-- What a call was and how it came back, as far as the rules on the order of calls read it.
pub data Event (N : Type 0) : Type 0 where
  -- a call that only reads, or that threw without a write
  asked : Event N
  -- an entry in the audit trail, or the candidate's figures
  wrote : Event N
  -- the id of the candidate claimed; none where the claim was refused
  claimed : Option String → Event N
  claim_failed : Event N
  -- the candidate whose tag was looked up, and the product found
  looked_up : String → Option (String × Bool) → Event N
  lookup_failed : String → Event N
  prepared : PreparedAnalysis N → Event N
  froze : PushIntent N → Bool → Event N
  -- none where the call threw
  created : ProductCreateRequest N → Option (String × Bool) → Event N
  hid : String → Option Bool → Event N
  costed : CostRequest N → Event N
  succeeded : String → Bool → Event N
  incident : String → Event N
  -- whether the claim was given back, or the call threw
  released : Bool → Event N

-- A push that is running: the world, `shopifyProductId`, and the calls so far, the last one first.
pub record Run (N W : Type 0) : Type 0 where
  pub world : W
  pub product_id : Option String
  pub calls : List (Event N)

-- Code over a state: what it returns or throws, and the state that it leaves.
abbrev pub M : Type 0 → Type 0 → Type 0
M S A = S → S × Answer A

module _ {S : Type 0} where
  unfoldable pub next : {A B : Type 0} → (A → M S B) → S × Answer A → S × Answer B
  next f (s, returned a) = f a s
  next f (s, thrown e) = (s, thrown e)

  infixl 5 ◌>>=◌ ◌>>◌
  abbrev pub ◌>>=◌ : {A B : Type 0} → M S A → (A → M S B) → M S B
  ◌>>=◌ m f s = next f (m s)

  abbrev pub ◌>>◌ : {B : Type 0} → M S (Unit {0}) → M S B → M S B
  m >> k = m >>= λ _. k

  abbrev pub give : {A : Type 0} → Answer A → M S A
  give a s = (s, a)

  abbrev pub raise : {A : Type 0} → Failure → M S A
  raise e s = (s, thrown e)

  abbrev pub raise_if : Bool → Failure → M S (Unit {0})
  raise_if true e = raise e
  raise_if false e = give (returned tt)

  -- `try { … } catch { … }`, with none for the catch
  unfoldable pub tried_answer : {A : Type 0} → S × Answer A → S × Answer (Option A)
  tried_answer (s, returned a) = (s, returned (some a))
  tried_answer (s, thrown e) = (s, returned none)

  abbrev pub tried : {A : Type 0} → M S A → M S (Option A)
  tried m s = tried_answer (m s)

module _ {N W : Type 0} where
  -- `recordProductId(id)`
  abbrev pub record_product_id : String → M (Run N W) (Unit {0})
  record_product_id id s = (record s { product_id = some id }, returned tt)

  -- One call of a port.
  abbrev pub noted :
      {A : Type 0} → (Answer A → Event N) → Run N W → W × Answer A → Run N W × Answer A
  noted event s (w, a) = (record s { world = w; calls = event a ∷ s.calls }, a)

  unfoldable pub call : {A : Type 0} → (Answer A → Event N) → (W → W × Answer A) → M (Run N W) A
  call event op s = noted event s (op s.world)

abbrev pub visible : ShopifyProductState → Bool
visible state = state.published || state.visible_to_customers

module _ {N : Type 0} where
  abbrev pub asked_for : {A : Type 0} → Answer A → Event N
  asked_for a = asked

  abbrev pub written : {A : Type 0} → Answer A → Event N
  written a = wrote

  abbrev pub release_event : {A : Type 0} → Answer A → Event N
  release_event (returned a) = released true
  release_event (thrown e) = released false

  abbrev pub claim_event : Answer (Option (ProductCandidate N)) → Event N
  claim_event (returned (some c)) = claimed (some c.id)
  claim_event (returned none) = claimed none
  claim_event (thrown e) = claim_failed

  abbrev pub lookup_event : String → Answer (Option ExistingResearchProduct) → Event N
  lookup_event id (returned (some p)) = looked_up id (some (p.shopify_product_id, visible p.state))
  lookup_event id (returned none) = looked_up id none
  lookup_event id (thrown e) = lookup_failed id

  abbrev pub prepare_event : Answer (PreparedAnalysis N) → Event N
  prepare_event (returned p) = prepared p
  prepare_event (thrown e) = asked

  abbrev pub intent_event : PushIntent N → Answer Bool → Event N
  intent_event intent (returned owned) = froze intent owned
  intent_event intent (thrown e) = froze intent false

  abbrev pub create_event : ProductCreateRequest N → Answer CreatedProduct → Event N
  create_event r (returned p) = created r (some (p.shopify_product_id, visible p.state))
  create_event r (thrown e) = created r none

  abbrev pub hide_event : String → Answer ShopifyProductState → Event N
  hide_event id (returned state) = hid id (some (visible state))
  hide_event id (thrown e) = hid id none

  abbrev pub success_event : String → Answer Bool → Event N
  success_event id (returned owned) = succeeded id owned
  success_event id (thrown e) = succeeded id false

-- The clock, which the rules do not read.
abbrev pub clock : {N W : Type 0} → (W → W × ℕ) → M (Run N W) ℕ
clock now s = let (w, t) = now s.world in (record s { world = w }, returned t)
