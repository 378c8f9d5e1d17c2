-- ===== src/Mongo/Keys.antt =====
-- Collections in which no two documents share a key.
use mathlib.Core.Path.{subst}
use trademart_b.Prelude.{
  ℕ, ◌≡◌, ◌≢◌, sym, refl, ◌∙◌, Bool, some, inl, inr, List, [], ◌∷◌, ◌++◌, All, All-map, All-zip,
  All-append, All-append_left, All-append_right, Option-cases, true, false, ap,
}
use trademart_b.Mongo.{Collection}

module _ {D K : Type 0} (key : D → K) where
  abbrev pub Distinct : List D → Type 0
  Distinct [] = Unit
  Distinct (x ∷ xs) = All (λ y. key x ≢ key y) xs × Distinct xs

  All-replace :
      (k : K) (a b : List D) (y z : D)
      → key z ≡ key y
      → All (λ d. k ≢ key d) (a ++ y ∷ b)
      → All (λ d. k ≢ key d) (a ++ z ∷ b)
  All-replace k [] b y z e h = ((λ f. h.0 (f ∙ e)), h.1)
  All-replace k (x ∷ a) b y z e h = (h.0, All-replace k a b y z e h.1)

  -- A document may be replaced by one with its key.
  pub Distinct-replace :
      (a b : List D) (y z : D) → key z ≡ key y → Distinct (a ++ y ∷ b) → Distinct (a ++ z ∷ b)
  Distinct-replace [] b y z e h =
      (All-map (λ d. key y ≢ key d) (λ d. key z ≢ key d) (λ d n f. n (sym e ∙ f)) b h.0, h.1)
  Distinct-replace (x ∷ a) b y z e h =
      (All-replace (key x) a b y z e h.0, Distinct-replace a b y z e h.1)

  middle-ne : (k : K) (a b : List D) (y : D) → All (λ d. k ≢ key d) (a ++ y ∷ b) → k ≢ key y
  middle-ne k [] b y h = h.0
  middle-ne k (x ∷ a) b y h = middle-ne k a b y h.1

  -- A document is the only one with its key.
  pub Distinct-only :
      (a b : List D) (y : D) → Distinct (a ++ y ∷ b) → All (λ d. key d ≡ key y → d ≡ y) (a ++ y ∷ b)
  Distinct-only [] b y h = (
    (λ _. refl),
    All-map (λ d. key y ≢ key d) (λ d. key d ≡ key y → d ≡ y) (λ d n e. absurd (n (sym e))) b h.0,
  )
  Distinct-only (x ∷ a) b y h =
      ((λ e. absurd (middle-ne (key x) a b y h.0 e)), Distinct-only a b y h.1)

  apart_left : (a b : List D) (y : D) → Distinct (a ++ y ∷ b) → All (λ d. key d ≢ key y) a
  apart_left [] b y h = tt
  apart_left (x ∷ a) b y h = (middle-ne (key x) a b y h.0, apart_left a b y h.1)

  apart_right : (a b : List D) (y : D) → Distinct (a ++ y ∷ b) → All (λ d. key d ≢ key y) b
  apart_right [] b y h =
      All-map (λ d. key y ≢ key d) (λ d. key d ≢ key y) (λ d n e. n (sym e)) b h.0
  apart_right (x ∷ a) b y h = apart_right a b y h.1

  -- The documents round one have other keys.
  Distinct-apart :
      (a b : List D) (y : D)
      → Distinct (a ++ y ∷ b)
      → All (λ d. key d ≢ key y) a × All (λ d. key d ≢ key y) b
  Distinct-apart a b y h = (apart_left a b y h, apart_right a b y h)

  module _ (db : Collection D) where
    open db use {find_one_and_update, modified, unmodified}

    -- An update that keeps the key keeps the keys distinct.
    pub Distinct-find_one_and_update :
        (filter : D → Bool) (rank : D → ℕ) (update : D → D) (rows : List D)
        → ((d : D) → key (update d) ≡ key d)
        → Distinct rows
        → Distinct (find_one_and_update filter rank update rows).0
    Distinct-find_one_and_update filter rank update rows keep h =
        elim (Option-cases (find_one_and_update filter rank update rows).1) [
          | inl missed ↦ subst Distinct (sym (unmodified filter rank update rows missed).0) h
          | inr (new, hit) ↦
              let m = modified filter rank update rows hit in
              subst Distinct (sym m.after_eq) (
                Distinct-replace m.ahead m.behind m.old (update m.old) (keep m.old)
                  (subst Distinct m.before_eq h))
        ]

    -- The updated document is the only one with its key.
    pub find_one_and_update-only :
        (filter : D → Bool) (rank : D → ℕ) (update : D → D) (rows : List D) {new : D}
        → ((d : D) → key (update d) ≡ key d)
        → Distinct rows
        → (find_one_and_update filter rank update rows).1 ≡ some new
        → All (λ d. key d ≡ key new → d ≡ new) (find_one_and_update filter rank update rows).0
    find_one_and_update-only filter rank update rows {new} keep h hit =
        let m = modified filter rank update rows hit in
        let h' =
          subst Distinct m.after_eq (Distinct-find_one_and_update filter rank update rows keep h) in
        subst
          (λ n. All (λ d. key d ≡ key n → d ≡ n) (find_one_and_update filter rank update rows).0)
          (sym m.new_eq)
          (subst (All (λ d. key d ≡ key (update m.old) → d ≡ update m.old)) (sym m.after_eq)
            (Distinct-only m.ahead m.behind (update m.old) h'))

    -- Across an update, the documents under other keys keep what all documents had.
    pub find_one_and_update-others :
        (P : D → Type 0) (filter : D → Bool) (rank : D → ℕ) (update : D → D) (rows : List D)
        {new : D}
        → (find_one_and_update filter rank update rows).1 ≡ some new
        → All P rows
        → All (λ d. key d ≢ key new → P d) (find_one_and_update filter rank update rows).0
    find_one_and_update-others P filter rank update rows {new} hit h =
        let m = modified filter rank update rows hit in
        let h' = subst (All P) m.before_eq h in
        let loosen = All-map P (λ d. key d ≢ key new → P d) (λ d p _. p) in
        let tail = All-append_right P m.ahead (m.old ∷ m.behind) h' in
        subst (All (λ d. key d ≢ key new → P d)) (sym m.after_eq) (
          All-append (λ d. key d ≢ key new → P d) m.ahead (update m.old ∷ m.behind)
            (loosen m.ahead (All-append_left P m.ahead (m.old ∷ m.behind) h'))
            ((λ n. absurd (n (ap key (sym m.new_eq)))), loosen m.behind tail.1))

    module _ (P Q : D → Type 0) (k : K) (filter : D → Bool) (rank : D → ℕ) (update : D → D) where
      -- An update that hit the document under a key `k`: the others have `P`, and the update gives `P`
      -- to that document from what is known of it.
      pub hit_key-All :
          (rows : List D) {new : D}
          → ((d : D) → filter d ≡ true → key d ≡ k)
          → ((d : D) → filter d ≡ true → Q d → P (update d))
          → Distinct rows
          → All (λ d. key d ≢ k → P d) rows
          → All (λ d. key d ≡ k → Q d) rows
          → (find_one_and_update filter rank update rows).1 ≡ some new
          → All P (find_one_and_update filter rank update rows).0
      hit_key-All rows tests gives distinct others known hit =
          let m = modified filter rank update rows hit in
          let e = tests m.old m.matched in
          let others' = subst (All (λ d. key d ≢ k → P d)) m.before_eq others in
          let apart = Distinct-apart m.ahead m.behind m.old (subst Distinct m.before_eq distinct) in
          let keep =
            All-zip (λ d. key d ≢ key m.old) (λ d. key d ≢ k → P d) P
              (λ d n p. p (λ f. n (f ∙ sym e))) in
          let known' = subst (All (λ d. key d ≡ k → Q d)) m.before_eq known in
          subst (All P) (sym m.after_eq) (
            All-append P m.ahead (update m.old ∷ m.behind)
              (keep m.ahead apart.0
                (All-append_left (λ d. key d ≢ k → P d) m.ahead (m.old ∷ m.behind) others'))
              (
                gives m.old m.matched (
                    (All-append_right (λ d. key d ≡ k → Q d) m.ahead (m.old ∷ m.behind) known').0
                      e),
                keep m.behind apart.1
                    (All-append_right (λ d. key d ≢ k → P d) m.ahead (m.old ∷ m.behind) others').1,
              ))

      -- The same for an update that may miss, where a document under `k` that is missed has `P`.
      pub update_key-All :
          (rows : List D)
          → ((d : D) → filter d ≡ true → key d ≡ k)
          → ((d : D) → filter d ≡ true → Q d → P (update d))
          → ((d : D) → filter d ≡ false → (key d ≢ k → P d) → P d)
          → Distinct rows
          → All (λ d. key d ≢ k → P d) rows
          → All (λ d. key d ≡ k → Q d) rows
          → All P (find_one_and_update filter rank update rows).0
      update_key-All rows tests gives misses distinct others known =
          elim (Option-cases (find_one_and_update filter rank update rows).1) [
            | inl missed ↦
                let (same, none_match) = unmodified filter rank update rows missed in
                subst (All P) (sym same) (
                  All-zip (λ d. filter d ≡ false) (λ d. key d ≢ k → P d) P misses rows none_match
                    others)
            | inr (new, hit) ↦ hit_key-All rows tests gives distinct others known hit
          ]
