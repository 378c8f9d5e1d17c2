-- ===== src/Automation/Previews/Replay.antt =====
-- src/automation/preview.store.ts: a whole sequence of calls, against a function from ids to previews.
use mathlib.Core.Path.{subst}
use trademart_b.Prelude.{
  ◌+◌, ◌≡◌, refl, ◌∙◌, ap, none, some, List, [], ◌∷◌, String, arith, if◌then◌else◌, is_blank,
  Bool-cases, inl, inr,
}
use trademart_b.Automation.Previews.{
  PreviewRecord, PreviewToken, preview_required, Answer, thrown, get, preview_ttl_ms, new_record,
  record_preview, find_applicable_preview, consume_preview,
}
use trademart_b.Automation.Previews.Kept.{IsMap}
use trademart_b.Automation.Previews.Single.{
  Op, find, consume, record_, apply, apply_all, apply-IsMap,
}
use trademart_b.Automation.Previews.Views.{
  View, put, live, found_reply, after_search, used_reply, after_use, find_given-view,
  find_given-reply, consume_found-view, consume_found-reply, record_preview-view,
}

-- What a call gives its caller.
pub data Reply (O : Type 0) : Type 0 where
  token : PreviewToken → Reply O
  answer : Answer (PreviewRecord O) → Reply O

module _ {O : Type 0} where
  unfoldable pub reply : Op O → List (PreviewRecord O) → Reply O
  reply (find now id domain) rows = answer (find_applicable_preview now id domain rows).1
  reply (consume id rules_hash plan_hash) rows =
      answer (consume_preview id rules_hash plan_hash rows).1
  reply (record_ id now input) rows = token (record_preview id now input rows).1

  unfoldable pub replies : List (Op O) → List (PreviewRecord O) → List (Reply O)
  unfolding reply apply
  replies [] rows = []
  replies (op ∷ ops) rows = reply op rows ∷ replies ops (apply op rows)

  -- The reply that a function from ids to previews gives.
  abbrev pub promised : Op O → View O → Reply O
  promised (find now none domain) v = answer (thrown preview_required)
  promised (find now (some id) domain) v =
      answer (if is_blank id then thrown preview_required else found_reply now domain (v id))
  promised (consume id rules_hash plan_hash) v = answer (used_reply rules_hash plan_hash (v id))
  promised (record_ id now input) v = token (record {
    preview_id = id;
    rules_hash = input.rules_hash;
    plan_hash = input.plan_hash;
    store_domain = input.store_domain;
    generated_at = now;
    expires_at = now + preview_ttl_ms;
  })

  -- What the call makes of such a function: a search forgets the preview when it has expired before
  -- it was applied, a consumption marks it applied, and a recording forgets all that expired or were
  -- applied.
  abbrev pub left : Op O → View O → View O
  left (find now none domain) v = v
  left (find now (some id) domain) v = if is_blank id then v else put id (after_search now (v id)) v
  left (consume id rules_hash plan_hash) v = put id (after_use rules_hash plan_hash (v id)) v
  left (record_ id now input) v = put id (some (new_record id now input)) (λ k. live now (v k))

  unfoldable pub all_promised : List (Op O) → View O → List (Reply O)
  all_promised [] v = []
  all_promised (op ∷ ops) v = promised op v ∷ all_promised ops (left op v)

  unfoldable pub all_left : List (Op O) → View O → View O
  all_left [] v = v
  all_left (op ∷ ops) v = all_left ops (left op v)

  reply-promised :
      (op : Op O) (rows : List (PreviewRecord O)) → reply op rows ≡ promised op (λ k. get k rows)
  unfolding reply find_applicable_preview consume_preview record_preview new_record
  reply-promised (find now none domain) rows = refl
  reply-promised (find now (some id) domain) rows = elim (Bool-cases (is_blank id)) [
    | inl blank ↦ ground arith
    | inr given ↦ ground (arith, find_given-reply now id domain rows (get id rows))
  ]
  reply-promised (consume id rules_hash plan_hash) rows =
      ap answer (consume_found-reply rules_hash plan_hash id rows (get id rows))
  reply-promised (record_ id now input) rows = refl

  apply-left :
      (op : Op O) (rows : List (PreviewRecord O)) (j : String)
      → IsMap rows
      → get j (apply op rows) ≡ left op (λ k. get k rows) j
  unfolding apply find_applicable_preview consume_preview
  apply-left (find now none domain) rows j m = refl
  apply-left (find now (some id) domain) rows j m = elim (Bool-cases (is_blank id)) [
    | inl blank ↦ ground arith
    | inr given ↦ ground (arith, find_given-view now id domain rows (get id rows) j refl)
  ]
  apply-left (consume id rules_hash plan_hash) rows j m =
      consume_found-view rules_hash plan_hash id rows (get id rows) j refl
  apply-left (record_ id now input) rows j m = record_preview-view id now input rows j m

  Refined : List (Op O) → List (PreviewRecord O) → View O → Type 0
  Refined ops rows v =
      (replies ops rows ≡ all_promised ops v)
      × ((j : String) → get j (apply_all ops rows) ≡ all_left ops v j)

  all-Refined :
      (ops : List (Op O)) (rows : List (PreviewRecord O))
      → IsMap rows
      → Refined ops rows (λ k. get k rows)
  unfolding replies apply_all all_promised all_left Refined
  all-Refined [] rows m = (refl, λ j. refl)
  all-Refined (op ∷ ops) rows m =
      let same : (λ k. get k (apply op rows)) ≡ left op (λ k. get k rows) =
        λ i k. apply-left op rows k m i in
      let rest =
        subst (Refined ops (apply op rows)) same
          (all-Refined ops (apply op rows) (apply-IsMap op rows m)) in
      (
        ap (λ x. x ∷ replies ops (apply op rows)) (reply-promised op rows)
            ∙ ap (λ xs. promised op (λ k. get k rows) ∷ xs) rest.0,
        rest.1,
      )

  -- The store is a function from ids to previews: whatever calls are made from the empty store, in
  -- any order and at any times, each call replies as that function says, errors included, and for
  -- every id the store then has the preview that the function has. The order in which the previews
  -- are kept shows in no reply.
  pub replies-promised :
      (ops : List (Op O))
      → (replies ops [] ≡ all_promised ops (λ _. none))
        × ((j : String) → get j (apply_all ops []) ≡ all_left ops (λ _. none) j)
  unfolding Refined get
  replies-promised ops = all-Refined ops [] tt
