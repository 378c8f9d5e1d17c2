-- ===== src/Automation/Previews/Single.antt =====
-- A preview is applied at most once, and only as it was reviewed.
use mathlib.Core.Path.{subst}
use trademart_b.Prelude.{
  ℕ, ◌<◌, ◌≡◌, ◌≢◌, refl, sym, ◌∙◌, ap, true, false, not, ◌||◌, Option, none, some, List, [], ◌∷◌,
  String, arith, ◌===◌, ===_iff, is_blank, All, Bool-cases, ◌⊎◌, inl, inr,
}
use trademart_b.Automation.Previews.{
  PreviewRecord, PreviewInput, returned, get, set, delete, prune, record_preview, new_record,
  find_given, find_applicable_preview, consume_preview, consume_found,
}
use trademart_b.Automation.Previews.Kept.{
  IsMap, IsSpent, All-set, All-delete, All-prune, set-IsSpent, set-IsMap, delete-IsMap, prune-IsMap,
  get-key, get-applied,
}

-- Any call of the store.
pub data Op (O : Type 0) : Type 0 where
  find : ℕ → Option String → String → Op O
  consume : String → String → String → Op O
  record_ : String → ℕ → PreviewInput O → Op O

module _ {O : Type 0} where
  unfoldable pub apply : Op O → List (PreviewRecord O) → List (PreviewRecord O)
  apply (find now id domain) rows = (find_applicable_preview now id domain rows).0
  apply (consume id rules_hash plan_hash) rows = (consume_preview id rules_hash plan_hash rows).0
  apply (record_ id now input) rows = (record_preview id now input rows).0

  unfoldable pub apply_all : List (Op O) → List (PreviewRecord O) → List (PreviewRecord O)
  unfolding apply
  apply_all [] rows = rows
  apply_all (op ∷ ops) rows = apply_all ops (apply op rows)

  -- `randomUUID()` does not answer `id` again.
  abbrev pub IsFresh : String → Op O → Type 0
  IsFresh id (record_ new now input) = new ≢ id
  IsFresh id (find now given domain) = Unit
  IsFresh id (consume given rules_hash plan_hash) = Unit

  find-cases :
      (now : ℕ) (id domain : String) (rows : List (PreviewRecord O))
      → ((find_applicable_preview now (some id) domain rows).0 ≡ rows)
        ⊎ ((find_applicable_preview now (some id) domain rows).0 ≡ delete id rows)
  unfolding find_applicable_preview find_given
  find-cases now id domain rows = ground arith

  consume_found-cases :
      (rules_hash plan_hash : String) (rows : List (PreviewRecord O))
      (found : Option (PreviewRecord O))
      → ((consume_found rules_hash plan_hash rows found).0 ≡ rows)
        ⊎ ((r : PreviewRecord O) × (found ≡ some r)
            × ((consume_found rules_hash plan_hash rows found).0
                ≡ set (record r { applied = true }) rows))
  unfolding consume_found
  consume_found-cases rules_hash plan_hash rows none = inl refl
  consume_found-cases rules_hash plan_hash rows (some r) =
      elim (Bool-cases
        (r.applied || not (r.rules_hash === rules_hash) || not (r.plan_hash === plan_hash))) [
          | inl refused ↦ inl (ground arith)
          | inr used ↦ inr (r, refl, ground arith)
        ]

  -- What holds of the store, of what is left after a deletion and of what a write gives, is kept.
  apply-kept :
      (P : List (PreviewRecord O) → Type 0) (op : Op O) (rows : List (PreviewRecord O))
      → P rows
      → ((id : String) → P (delete id rows))
      → ((r : PreviewRecord O) → r.applied ≡ true → P (set r rows))
      → ((id : String) (now : ℕ) (input : PreviewInput O)
          → op ≡ record_ id now input
          → P (set (new_record id now input) (prune now rows)))
      → P (apply op rows)
  unfolding apply record_preview find_applicable_preview consume_preview
  apply-kept P (find now none domain) rows h d u n = h
  apply-kept P (find now (some id) domain) rows h d u n = elim (find-cases now id domain rows) [
    | inl same ↦ subst P (sym same) h
    | inr less ↦ subst P (sym less) (d id)
  ]
  apply-kept P (consume id rules_hash plan_hash) rows h d u n =
      elim (consume_found-cases rules_hash plan_hash rows (get id rows)) [
        | inl same ↦ subst P (sym same) h
        | inr (r, there, e) ↦ subst P (sym e) (u (record r { applied = true }) refl)
      ]
  apply-kept P (record_ id now input) rows h d u n = n id now input refl

  pub apply-IsMap : (op : Op O) (rows : List (PreviewRecord O)) → IsMap rows → IsMap (apply op rows)
  apply-IsMap op rows m =
      apply-kept IsMap op rows m (λ id. delete-IsMap id rows m) (λ r a. set-IsMap r rows m)
        (λ id now input e.
          set-IsMap (new_record id now input) (prune now rows) (prune-IsMap now rows m))

  apply-IsSpent :
      (id : String) (op : Op O) (rows : List (PreviewRecord O))
      → IsFresh id op
      → IsSpent id rows
      → IsSpent id (apply op rows)
  unfolding new_record
  apply-IsSpent id op rows fresh h =
      apply-kept (IsSpent id) op rows h
        (λ other. All-delete (λ r. r.preview_id ≡ id → r.applied ≡ true) other rows h)
        (λ r a. All-set (λ d. d.preview_id ≡ id → d.applied ≡ true) r rows h (λ _. a))
        (λ new now input e.
          All-set (λ r. r.preview_id ≡ id → r.applied ≡ true) (new_record new now input)
            (prune now rows) (All-prune (λ r. r.preview_id ≡ id → r.applied ≡ true) now rows h)
            (λ same. absurd (subst (IsFresh id) e fresh same)))

  all-IsSpent :
      (id : String) (ops : List (Op O)) (rows : List (PreviewRecord O))
      → All (IsFresh id) ops
      → IsSpent id rows
      → IsSpent id (apply_all ops rows)
  unfolding apply_all
  all-IsSpent id [] rows fresh h = h
  all-IsSpent id (op ∷ ops) rows fresh h =
      all-IsSpent id ops (apply op rows) fresh.1 (apply-IsSpent id op rows fresh.0 h)

  all-IsMap :
      (ops : List (Op O)) (rows : List (PreviewRecord O)) → IsMap rows → IsMap (apply_all ops rows)
  unfolding apply_all
  all-IsMap [] rows m = m
  all-IsMap (op ∷ ops) rows m = all-IsMap ops (apply op rows) (apply-IsMap op rows m)

  found-returned :
      (rules_hash plan_hash : String) (rows : List (PreviewRecord O))
      (found : Option (PreviewRecord O)) {r : PreviewRecord O}
      → (consume_found rules_hash plan_hash rows found).1 ≡ returned r
      → (x : PreviewRecord O) × (found ≡ some x)
        × (x.applied ≡ false)
        × (x.rules_hash ≡ rules_hash)
        × (x.plan_hash ≡ plan_hash)
        × ((consume_found rules_hash plan_hash rows found).0
            ≡ set (record x { applied = true }) rows)
  unfolding consume_found
  found-returned rules_hash plan_hash rows none h = absurd (cc)
  found-returned rules_hash plan_hash rows (some x) h = (
    x,
    refl,
    ground arith,
    (===_iff x.rules_hash rules_hash).0 (ground arith),
    (===_iff x.plan_hash plan_hash).0 (ground arith),
    ground arith,
  )

  consume-IsSpent :
      (id rules_hash plan_hash : String) (rows : List (PreviewRecord O)) {r : PreviewRecord O}
      → IsMap rows
      → (consume_preview id rules_hash plan_hash rows).1 ≡ returned r
      → IsSpent id (consume_preview id rules_hash plan_hash rows).0
  unfolding consume_preview
  consume-IsSpent id rules_hash plan_hash rows m h =
      let (x, there, fresh, rules, plan, e) =
        found-returned rules_hash plan_hash rows (get id rows) h in
      subst (λ after. IsSpent id after) (sym e)
        (subst (λ k. IsSpent k (set (record x { applied = true }) rows))
          (get-key id rows {r = x} there) (set-IsSpent (record x { applied = true }) rows m refl))

  spent-ne-returned :
      (id rules_hash plan_hash : String) (rows : List (PreviewRecord O)) (r : PreviewRecord O)
      → IsSpent id rows
      → (consume_preview id rules_hash plan_hash rows).1 ≢ returned r
  unfolding consume_preview
  spent-ne-returned id rules_hash plan_hash rows r h e =
      let (x, there, fresh, rules, plan, e₂) =
        found-returned rules_hash plan_hash rows (get id rows) {r = r} e in
      let used = get-applied id rows {r = x} h there in cc

  -- In a store reached from the empty one by any calls, a preview that was consumed is not consumed
  -- again, whatever calls come between, in any order and at any times, as long as no later preview is
  -- given its id.
  pub consume_preview-once :
      (before between : List (Op O)) (id rules_hash plan_hash : String) {r : PreviewRecord O}
      → (consume_preview id rules_hash plan_hash (apply_all before [])).1 ≡ returned r
      → All (IsFresh id) between
      → (rules_again plan_again : String) (again : PreviewRecord O)
      → (consume_preview id rules_again plan_again
          (apply_all between (consume_preview id rules_hash plan_hash (apply_all before [])).0)).1
        ≢ returned again
  consume_preview-once before between id rules_hash plan_hash {r} h fresh rules_again plan_again
        again =
      spent-ne-returned id rules_again plan_again _ again (
        all-IsSpent id between _ fresh (
          consume-IsSpent id rules_hash plan_hash (apply_all before []) {r = r}
            (all-IsMap before [] tt) h))

  given-returned :
      (now : ℕ) (id domain : String) (rows : List (PreviewRecord O))
      (found : Option (PreviewRecord O)) {x : PreviewRecord O}
      → (find_given now id domain rows found).1 ≡ returned x
      → (found ≡ some x)
        × (x.applied ≡ false)
        × (now < x.expires_at)
        × (x.store_domain ≡ domain)
        × ((find_given now id domain rows found).0 ≡ rows)
  unfolding find_given
  given-returned now id domain rows none h = absurd (cc)
  given-returned now id domain rows (some r) {x} h =
      let same : r ≡ x = ground arith in
      (
        ap some same,
        ap (λ y. y.applied) (sym same) ∙ ground arith,
        subst (λ y. now < y.expires_at) same (ground arith),
        ap (λ y. y.store_domain) (sym same) ∙ (===_iff r.store_domain domain).0 (ground arith),
        ground arith,
      )

  -- A run that is let through, by a search for the preview and then its consumption, was reviewed: the
  -- id is not blank, and the store has a preview of it that was not applied, had not expired, was
  -- made for the connected store, and has the hash of the rules and the hash of the plan that the run
  -- has computed again.
  pub consume_preview-IsReviewed :
      (now : ℕ) (id : Option String) (domain rules_hash plan_hash : String)
      (rows : List (PreviewRecord O)) {x used : PreviewRecord O}
      → (find_applicable_preview now id domain rows).1 ≡ returned x
      → (consume_preview x.preview_id rules_hash plan_hash
          (find_applicable_preview now id domain rows).0).1
        ≡ returned used
      → (id ≡ some x.preview_id)
        × (is_blank x.preview_id ≡ false)
        × (get x.preview_id rows ≡ some x)
        × (x.applied ≡ false)
        × (now < x.expires_at)
        × (x.store_domain ≡ domain)
        × (x.rules_hash ≡ rules_hash)
        × (x.plan_hash ≡ plan_hash)
  unfolding find_applicable_preview find_given consume_preview
  consume_preview-IsReviewed now none domain rules_hash plan_hash rows {x} {used} f c = absurd (cc)
  consume_preview-IsReviewed now (some id) domain rules_hash plan_hash rows {x} {used} f c =
      elim (Bool-cases (is_blank id)) [
        | inl blank ↦ absurd (let k = rw blank at f in cc)
        | inr given ↦
            let g = rw given at f in
            let (there, fresh, current, here, same) =
              given-returned now id domain rows (get id rows) {x = x} g in
            let kept : (find_applicable_preview now (some id) domain rows).0 ≡ rows =
              rw given same in
            let key_eq = get-key id rows {r = x} there in
            let stored = subst (λ k. get k rows ≡ some x) (sym key_eq) there in
            let (y, found, unused, rules, plan, e) =
              found-returned rules_hash plan_hash
                (find_applicable_preview now (some id) domain rows).0
                (get x.preview_id (find_applicable_preview now (some id) domain rows).0) {r = used}
                c in
            let same_found = sym (subst (λ s. get x.preview_id s ≡ some y) kept found) ∙ stored in
            (
              ap some (sym key_eq),
              subst (λ k. is_blank k ≡ false) (sym key_eq) given,
              stored,
              fresh,
              current,
              here,
              cc,
              cc,
            )
      ]
