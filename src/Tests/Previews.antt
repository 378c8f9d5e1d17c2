-- ===== src/Tests/Previews.antt =====
-- A preview and its application.
use trademart_b.Prelude.{
  ℕ, ◌≡◌, ◌≢◌, ◌<◌, refl, true, false, none, some, List, [], ◌∷◌, String, ◌===◌, is_blank, trim,
  trim_start, trim_end, before_end, is_space,
}
use trademart_b.Automation.Previews.{
  PreviewRecord, PreviewInput, returned, get, set, prune, new_record, record_preview, find_given,
  find_applicable_preview, consume_found, consume_preview,
}
use trademart_b.Automation.Previews.Single.{
  Op, find, consume, record_, apply, apply_all, consume_preview-once, consume_preview-IsReviewed,
}
use trademart_b.Automation.Previews.Replay.{replies, all_promised, all_left, replies-promised}

abbrev input : PreviewInput ℕ
input = record {
  rules_hash = "r";
  plan_hash = "p";
  store_domain = "shop";
  query = none;
  max_products = none;
  overrides = none;
}

abbrev preview : PreviewRecord ℕ
preview = record {
  preview_id = "id1";
  rules_hash = "r";
  plan_hash = "p";
  store_domain = "shop";
  query = none;
  max_products = none;
  overrides = none;
  generated_at = 1000;
  expires_at = 601000;
  applied = false;
}

abbrev recorded : List (Op ℕ)
recorded = record_ "id1" 1000 input ∷ []

consume_preview-once_example :
    (consume_preview "id1" "r" "p"
      (apply_all [] (consume_preview "id1" "r" "p" (apply_all recorded [])).0)).1
    ≢ returned preview
unfolding consume_preview consume_found apply_all apply record_preview new_record set prune get
    ◌===◌
consume_preview-once_example =
    consume_preview-once recorded [] "id1" "r" "p" {r = record preview { applied = true }} refl tt
      "r" "p" preview

consume_preview-IsReviewed_example :
    (some "id1" ≡ some preview.preview_id)
    × (is_blank preview.preview_id ≡ false)
    × (get preview.preview_id (preview ∷ []) ≡ some preview)
    × (preview.applied ≡ false)
    × (5000 < preview.expires_at)
    × (preview.store_domain ≡ "shop")
    × (preview.rules_hash ≡ "r")
    × (preview.plan_hash ≡ "p")
unfolding find_applicable_preview find_given consume_preview consume_found get set ◌===◌ is_blank
    trim trim_start trim_end before_end is_space
consume_preview-IsReviewed_example =
    consume_preview-IsReviewed 5000 (some "id1") "shop" "r" "p" (preview ∷ []) {x = preview}
      {used = record preview { applied = true }} refl refl

-- A preview is recorded, found, consumed, refused a second time, and one that expired is forgotten.
abbrev calls : List (Op ℕ)
calls =
    record_ "id1" 1000 input
    ∷ find 2000 (some "id1") "shop"
    ∷ consume "id1" "r" "p"
    ∷ consume "id1" "r" "p"
    ∷ record_ "id2" 3000 input
    ∷ find 700000 (some "id2") "shop"
    ∷ find 700000 (some "id2") "shop"
    ∷ []

replies-promised_example :
    (replies calls [] ≡ all_promised calls (λ _. none))
    × ((j : String) → get j (apply_all calls []) ≡ all_left calls (λ _. none) j)
replies-promised_example = replies-promised calls
