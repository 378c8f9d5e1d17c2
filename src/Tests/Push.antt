-- ===== src/Tests/Push.antt =====
-- A push that creates a draft, and one that finds the draft of an earlier push.
use trademart_b.Prelude.{
  ℕ, ◌+◌, Bool, true, false, Option, none, some, [], ◌∷◌, String, ◌≡◌, refl, ltb, ◌==◌, is_blank,
  ◌===◌,
}
use trademart_b.Intelligence.Transitions.{Candidate, selected, idle}
use trademart_b.Intelligence.Push.Types.{
  Numbers, ProductCandidate, Commercials, tradelle, good_candidate, full_coverage, PreparedAnalysis,
  PushAsDraftInput, ShopifyProductState, CreatedProduct, ExistingResearchProduct, PushAsDraftResult,
}
use trademart_b.Intelligence.Push.Ports.{
  Answer, returned, thrown, next, call, tried_answer, PushPorts, Collaborators, Run,
}
use trademart_b.Intelligence.Push.Sequence.{push_candidate_as_draft}
use trademart_b.Intelligence.Push.Follows.{Ends, Finished}
use trademart_b.Intelligence.Push.Outcome.{Over, push_candidate_as_draft-Follows}
use trademart_b.Intelligence.Push.Once.{IsSafe, push_candidate_as_draft-IsSafe}

abbrev numbers : Numbers ℕ
numbers = record { equal = λ a b. a == b; less = λ a b. ltb a b; zero = 0; is_finite = λ a. true }

abbrev columns : Candidate
columns = record {
  status = selected;
  push_state = idle;
  pushed_shopify_product_id = none;
  push_operation_id = none;
  push_claimed_at = none;
}

abbrev commercials : Commercials ℕ
commercials = record {
  supplier_cost = some 100;
  supplier_currency = some "USD";
  shipping_cost = none;
  shipping_currency = none;
  expected_selling_price = some 300;
  expected_selling_currency = some "INR";
}

abbrev candidate : ProductCandidate ℕ
candidate = record {
  id = "c1";
  columns = columns;
  title = "Neck fan";
  category = none;
  image_url = none;
  source = tradelle;
  commercials = commercials;
  recommendation = some good_candidate;
  supplier_variants = [];
}

abbrev pub prepared_analysis : PreparedAnalysis ℕ
prepared_analysis = record {
  fresh_candidate = candidate;
  pricing = record { currency_code = some "INR"; recommended = none; scenarios = [] };
  minimum_margin_percentage = 20;
  minimum_profit_amount = 0;
  sourceability = record { block = none; variant_coverage = full_coverage; variants = [] };
  decision_hash = "h1";
  evaluate_price = λ _. none;
}

abbrev pub request : PushAsDraftInput ℕ
request = record {
  scenario = none;
  price = none;
  expected_decision_hash = some "h1";
  allow_duplicate = false;
  acknowledge_guard_breach = false;
  acknowledge_partial_variants = false;
  operation_id = "op1";
}

abbrev state_seen : Bool → ShopifyProductState
state_seen seen = record { status = some "DRAFT"; published = seen; visible_to_customers = false }

abbrev created_product : CreatedProduct
created_product = record { shopify_product_id = "p1"; variants = []; state = state_seen true }

-- The world is the clock; `earlier` is the product that the tag finds.
abbrev ports : Option ExistingResearchProduct → PushPorts ℕ ℕ ℕ ℕ
ports earlier = record {
  now = λ w. (w + 1, w);
  load = λ id w. (w, returned candidate);
  claim = λ id operation now w. (w, returned (some candidate));
  release = λ id operation w. (w, returned tt);
  record_intent = λ id operation now intent w. (w, returned true);
  load_intent = λ id w. (w, returned none);
  mark_succeeded = λ id operation product mappings now w. (w, returned true);
  mark_safety_incident = λ id operation product mappings now w. (w, returned tt);
  list_for_duplicates = λ w. (w, returned []);
  prepare = λ id scenario now w. (w, returned prepared_analysis);
  persist = λ p w. (w, returned tt);
  find_by_research_tag = λ id w. (w, returned earlier);
  list_catalogue = λ w. (w, returned []);
  create_product = λ r w. (w, returned created_product);
  force_hidden = λ id w. (w, returned (state_seen false));
  record_cost = λ r w. (w, returned tt);
  audit = λ facts w. (w, returned tt);
}

abbrev uses : Collaborators ℕ ℕ ℕ
uses = record {
  numbers = numbers;
  blocking_duplicates = λ c products candidates. 0;
  build_variant_plan = λ variants price.
      returned (record { options = []; variants = (price, none, []) ∷ []; sources = [] });
  map_created_variants = λ id sources made now. returned [];
  describe = λ c. "Draft";
  is_explicit_currency = λ code. true;
  time_of = λ text. none;
}

abbrev start : Run ℕ ℕ
start = record { world = 10; product_id = none; calls = [] }

abbrev earlier_product : ExistingResearchProduct
earlier_product = record {
  shopify_product_id = "p0";
  shopify_variant_id = none;
  variants = [];
  state = state_seen false;
}

-- The product of the push, if it returns.
abbrev product_of : Run ℕ ℕ × Answer (PushAsDraftResult ℕ) → Option String
product_of (s, returned r) = some r.shopify_product_id
product_of (s, thrown e) = none

creates_test : product_of (push_candidate_as_draft (ports none) uses "c1" request start) ≡ some "p1"
unfolding push_candidate_as_draft next call tried_answer is_blank ◌===◌
creates_test = refl

push_candidate_as_draft-Follows_example :
    Ends
      (Finished request)
      (λ t e. Over request t)
      (push_candidate_as_draft (ports none) uses "c1" request start)
push_candidate_as_draft-Follows_example =
    push_candidate_as_draft-Follows (ports none) uses request "c1" start refl

push_candidate_as_draft-IsSafe_example :
    IsSafe request
      (push_candidate_as_draft (ports (some earlier_product)) uses "c1" request start).0.calls
push_candidate_as_draft-IsSafe_example =
    push_candidate_as_draft-IsSafe (ports (some earlier_product)) uses request "c1" start refl
