-- ===== src/Automation/Previews/Kept.antt =====
-- What the operations on the Map of previews keep.
use trademart_b.Prelude.{
  ℕ, ◌≡◌, ◌≢◌, sym, ◌∙◌, true, ◌||◌, some, List, [], ◌∷◌, String, arith, leb, ◌===◌, ===_iff, All,
  All-map, Bool-cases, inl, inr,
}
use trademart_b.Mongo.Keys.{Distinct}
use trademart_b.Automation.Previews.{PreviewRecord, get, set, delete, prune}

module _ {O : Type 0} where
  abbrev pub key : PreviewRecord O → String
  key r = r.preview_id

  -- No two previews in the store have one id.
  abbrev pub IsMap : List (PreviewRecord O) → Type 0
  IsMap = Distinct key

  -- The preview of an id, if it is in the store, has been applied.
  abbrev pub IsSpent : String → List (PreviewRecord O) → Type 0
  IsSpent id = All (λ r. r.preview_id ≡ id → r.applied ≡ true)

  module _ (P : PreviewRecord O → Type 0) where
    pub All-set :
        (new : PreviewRecord O) (rows : List (PreviewRecord O))
        → All P rows
        → P new
        → All P (set new rows)
    unfolding set
    All-set new [] h p = (p, tt)
    All-set new (r ∷ rs) h p = elim (Bool-cases (r.preview_id === new.preview_id)) [
      | inl same ↦ rw same (p, h.1)
      | inr other ↦ rw other (h.0, All-set new rs h.1 p)
    ]

    pub All-delete :
        (id : String) (rows : List (PreviewRecord O)) → All P rows → All P (delete id rows)
    unfolding delete
    All-delete id [] h = tt
    All-delete id (r ∷ rs) h = elim (Bool-cases (r.preview_id === id)) [
      | inl same ↦ rw same (All-delete id rs h.1)
      | inr other ↦ rw other (h.0, All-delete id rs h.1)
    ]

    pub All-prune : (now : ℕ) (rows : List (PreviewRecord O)) → All P rows → All P (prune now rows)
    unfolding prune
    All-prune now [] h = tt
    All-prune now (r ∷ rs) h = elim (Bool-cases (leb r.expires_at now || r.applied)) [
      | inl gone ↦ rw gone (All-prune now rs h.1)
      | inr kept ↦ rw kept (h.0, All-prune now rs h.1)
    ]

  pub set-IsSpent :
      (new : PreviewRecord O) (rows : List (PreviewRecord O))
      → IsMap rows
      → new.applied ≡ true
      → IsSpent new.preview_id (set new rows)
  unfolding set
  set-IsSpent new [] m a = ((λ _. a), tt)
  set-IsSpent new (r ∷ rs) m a = elim (Bool-cases (r.preview_id === new.preview_id)) [
    | inl same ↦
        let e = (===_iff r.preview_id new.preview_id).0 same in
        rw same (
          (λ _. a),
          All-map (λ d. r.preview_id ≢ d.preview_id)
              (λ d. d.preview_id ≡ new.preview_id → d.applied ≡ true)
              (λ d n f. absurd (n (e ∙ sym f))) rs m.0,
        )
    | inr other ↦
        rw other
          ((λ e. ground (arith, ===_iff r.preview_id new.preview_id)), set-IsSpent new rs m.1 a)
  ]

  pub set-IsMap :
      (new : PreviewRecord O) (rows : List (PreviewRecord O)) → IsMap rows → IsMap (set new rows)
  unfolding set
  set-IsMap new [] m = (tt, tt)
  set-IsMap new (r ∷ rs) m = elim (Bool-cases (r.preview_id === new.preview_id)) [
    | inl same ↦
        let e = (===_iff r.preview_id new.preview_id).0 same in
        rw same (
          All-map (λ d. r.preview_id ≢ d.preview_id) (λ d. new.preview_id ≢ d.preview_id)
              (λ d n f. n (e ∙ f)) rs m.0,
          m.1,
        )
    | inr other ↦ rw other (
      All-set (λ d. r.preview_id ≢ d.preview_id) new rs m.0
          (λ e. ground (arith, ===_iff r.preview_id new.preview_id)),
      set-IsMap new rs m.1,
    )
  ]

  pub delete-IsMap :
      (id : String) (rows : List (PreviewRecord O)) → IsMap rows → IsMap (delete id rows)
  unfolding delete
  delete-IsMap id [] m = tt
  delete-IsMap id (r ∷ rs) m = elim (Bool-cases (r.preview_id === id)) [
    | inl same ↦ rw same (delete-IsMap id rs m.1)
    | inr other ↦
        rw other (All-delete (λ d. r.preview_id ≢ d.preview_id) id rs m.0, delete-IsMap id rs m.1)
  ]

  pub prune-IsMap : (now : ℕ) (rows : List (PreviewRecord O)) → IsMap rows → IsMap (prune now rows)
  unfolding prune
  prune-IsMap now [] m = tt
  prune-IsMap now (r ∷ rs) m = elim (Bool-cases (leb r.expires_at now || r.applied)) [
    | inl gone ↦ rw gone (prune-IsMap now rs m.1)
    | inr kept ↦
        rw kept (All-prune (λ d. r.preview_id ≢ d.preview_id) now rs m.0, prune-IsMap now rs m.1)
  ]

  pub get-key :
      (id : String) (rows : List (PreviewRecord O)) {r : PreviewRecord O}
      → get id rows ≡ some r
      → r.preview_id ≡ id
  unfolding get
  get-key id [] h = absurd (cc)
  get-key id (x ∷ rs) {r} h = elim (Bool-cases (x.preview_id === id)) [
    | inl same ↦ ground (arith, ===_iff x.preview_id id)
    | inr other ↦ get-key id rs {r = r} (ground arith)
  ]

  pub get-applied :
      (id : String) (rows : List (PreviewRecord O)) {r : PreviewRecord O}
      → IsSpent id rows
      → get id rows ≡ some r
      → r.applied ≡ true
  unfolding get
  get-applied id [] h g = absurd (cc)
  get-applied id (x ∷ rs) {r} h g = elim (Bool-cases (x.preview_id === id)) [
    | inl same ↦ let a = h.0 ((===_iff x.preview_id id).0 same) in ground arith
    | inr other ↦ get-applied id rs {r = r} h.1 (ground arith)
  ]
