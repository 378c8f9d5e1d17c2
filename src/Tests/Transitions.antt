-- ===== src/Tests/Transitions.antt =====
-- Candidates and the decisions on them.
use trademart_b.Prelude.{◌≢◌, refl, none, some}
use trademart_b.Intelligence.Transitions.{
  new, watching, pushed_to_shopify, rejected, in_progress, Candidate, can_transition,
}
use trademart_b.Intelligence.Transitions.Laws.{stay, decide, Decides-ne-pushed}

abbrev candidate : Candidate
candidate = record {
  status = rejected;
  push_state = in_progress;
  pushed_shopify_product_id = none;
  push_operation_id = some "op1";
  push_claimed_at = some "1970-01-01T00:00:01Z";
}

Decides-ne-pushed_example : watching ≢ pushed_to_shopify
unfolding can_transition
Decides-ne-pushed_example =
    Decides-ne-pushed {product = none} {s = new} {t = watching} (decide stay refl) (λ e. cc)
