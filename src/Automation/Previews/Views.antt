-- ===== src/Automation/Previews/Views.antt =====
-- src/automation/preview.store.ts against what it promises: a function from ids to previews.
use trademart_b.Prelude.{
  ℕ, ◌≡◌, refl, ◌∙◌, true, not, ◌||◌, Option, none, some, List, [], ◌∷◌, String, arith, leb, ◌===◌,
  ===_iff, if◌then◌else◌, Bool-cases, inl, inr, All, All-map, ◌&&◌, ◌≢◌,
}
use trademart_b.Automation.Previews.{
  PreviewRecord, PreviewInput, preview_not_found, preview_already_applied, preview_expired,
  preview_stale, Answer, returned, thrown, get, set, delete, prune, new_record, record_preview,
  find_given, consume_found,
}
use trademart_b.Automation.Previews.Kept.{IsMap, All-prune, get-key}

-- What the store promises: a function from ids to previews.
abbrev pub View : Type 0 → Type 0
View O = String → Option (PreviewRecord O)

module _ {O : Type 0} where
  -- A preview that a pruning keeps.
  abbrev pub live : ℕ → Option (PreviewRecord O) → Option (PreviewRecord O)
  live now none = none
  live now (some r) = if leb r.expires_at now || r.applied then none else some r

  get-set :
      (j : String) (new : PreviewRecord O) (rows : List (PreviewRecord O))
      → get j (set new rows) ≡ (if new.preview_id === j then some new else get j rows)
  unfolding get set
  get-set j new [] = ground arith
  get-set j new (r ∷ rs) = ground (
    arith,
    get-set j new rs,
    ===_iff r.preview_id new.preview_id,
    ===_iff r.preview_id j,
    ===_iff new.preview_id j,
  )

  get-delete :
      (j id : String) (rows : List (PreviewRecord O))
      → get j (delete id rows) ≡ (if id === j then none else get j rows)
  unfolding get delete
  get-delete j id [] = ground arith
  get-delete j id (r ∷ rs) =
      ground
        (arith, get-delete j id rs, ===_iff r.preview_id id, ===_iff r.preview_id j, ===_iff id j)

  get-absent :
      (j : String) (rows : List (PreviewRecord O))
      → All (λ r. j ≢ r.preview_id) rows
      → get j rows ≡ none
  unfolding get
  get-absent j [] h = refl
  get-absent j (r ∷ rs) h = ground (arith, get-absent j rs h.1, h.0, ===_iff r.preview_id j)

  get-prune :
      (now : ℕ) (j : String) (rows : List (PreviewRecord O))
      → IsMap rows
      → get j (prune now rows) ≡ live now (get j rows)
  unfolding get prune
  get-prune now j [] m = refl
  get-prune now j (r ∷ rs) m = elim (Bool-cases (r.preview_id === j)) [
    | inr other ↦ ground (arith, get-prune now j rs m.1)
    | inl same ↦
        let e = (===_iff r.preview_id j).0 same in
        let gone = get-absent j (prune now rs) (
          All-prune (λ d. j ≢ d.preview_id) now rs
            (All-map (λ d. r.preview_id ≢ d.preview_id) (λ d. j ≢ d.preview_id) (λ d n f. n (e ∙ f))
              rs m.0)) in
        ground (arith, gone)
  ]

  abbrev pub put : String → Option (PreviewRecord O) → View O → View O
  put id entry v j = if id === j then entry else v j

  -- The answer of a search that finds nothing, or an entry.
  abbrev pub found_reply : ℕ → String → Option (PreviewRecord O) → Answer (PreviewRecord O)
  found_reply now domain none = thrown preview_not_found
  found_reply now domain (some r) =
      if r.applied
      then thrown preview_already_applied
      else (if leb r.expires_at now
          then thrown preview_expired
          else (if r.store_domain === domain then returned r else thrown preview_stale))

  -- A search forgets an entry that has expired before it was applied.
  abbrev pub after_search : ℕ → Option (PreviewRecord O) → Option (PreviewRecord O)
  after_search now none = none
  after_search now (some r) = if not r.applied && leb r.expires_at now then none else some r

  abbrev pub spend : PreviewRecord O → PreviewRecord O
  spend r = record r { applied = true }

  abbrev pub used_reply : String → String → Option (PreviewRecord O) → Answer (PreviewRecord O)
  used_reply rules_hash plan_hash none = thrown preview_not_found
  used_reply rules_hash plan_hash (some r) =
      if r.applied
      then thrown preview_not_found
      else (if (r.rules_hash === rules_hash) && (r.plan_hash === plan_hash)
          then returned (spend r)
          else thrown preview_stale)

  abbrev pub after_use : String → String → Option (PreviewRecord O) → Option (PreviewRecord O)
  after_use rules_hash plan_hash none = none
  after_use rules_hash plan_hash (some r) =
      if not r.applied && (r.rules_hash === rules_hash) && (r.plan_hash === plan_hash)
      then some (spend r)
      else some r

  module _ (now : ℕ) (id domain : String) (rows : List (PreviewRecord O)) where
    pub find_given-view :
        (found : Option (PreviewRecord O)) (j : String)
        → get id rows ≡ found
        → get j (find_given now id domain rows found).0
          ≡ put id (after_search now found) (λ k. get k rows) j
    unfolding find_given
    find_given-view none j e = ground (arith, ===_iff id j)
    find_given-view (some r) j e = ground (arith, ===_iff id j, get-delete j id rows)

    pub find_given-reply :
        (found : Option (PreviewRecord O))
        → (find_given now id domain rows found).1 ≡ found_reply now domain found
    unfolding find_given
    find_given-reply none = refl
    find_given-reply (some r) = ground arith

  module _ (rules_hash plan_hash id : String) (rows : List (PreviewRecord O)) where
    pub consume_found-view :
        (found : Option (PreviewRecord O)) (j : String)
        → get id rows ≡ found
        → get j (consume_found rules_hash plan_hash rows found).0
          ≡ put id (after_use rules_hash plan_hash found) (λ k. get k rows) j
    unfolding consume_found
    consume_found-view none j e = ground (arith, ===_iff id j)
    consume_found-view (some r) j e =
        ground (arith, ===_iff id j, get-set j (spend r) rows, get-key id rows {r = r} e)

    pub consume_found-reply :
        (found : Option (PreviewRecord O))
        → (consume_found rules_hash plan_hash rows found).1 ≡ used_reply rules_hash plan_hash found
    unfolding consume_found
    consume_found-reply none = refl
    consume_found-reply (some r) = ground arith

  module _ (id : String) (now : ℕ) (input : PreviewInput O) (rows : List (PreviewRecord O)) where
    pub record_preview-view :
        (j : String)
        → IsMap rows
        → get j (record_preview id now input rows).0
          ≡ put id (some (new_record id now input)) (λ k. live now (get k rows)) j
    unfolding record_preview new_record
    record_preview-view j m =
        ground (arith, get-set j (new_record id now input) (prune now rows), get-prune now j rows m)
