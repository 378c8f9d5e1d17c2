-- ===== src/Mongo/Listed.antt =====
-- A collection over lists that meets the documented behaviour, for the examples.
use trademart_b.Prelude.{
  ℕ, ◌≤◌, ◌≡◌, refl, Bool, true, false, ◌||◌, ◌&&◌, Option, none, some, List, [], ◌∷◌, ◌++◌, All,
  All-map, leb, if◌then◌else◌, Bool-cases, inl, inr, arith,
}
use trademart_b.Mongo.{
  Picked, Modified, Deleted, none_matched, one_removed, Created, stored, duplicate_key, Changed,
  changed, not_matched, key_taken, Collection,
}

module _ {D : Type 0} (filter : D → Bool) where
  find : List D → Option D
  find [] = none
  find (x ∷ xs) = if filter x then some x else find xs

  Picked-cons : (x : D) {xs : List D} {row : D} → Picked filter xs row → Picked filter (x ∷ xs) row
  Picked-cons x p = record {
    ahead = x ∷ p.ahead;
    behind = p.behind;
    split = λ i. x ∷ p.split i;
    matched = p.matched;
  }

  find_found : (rows : List D) {row : D} → find rows ≡ some row → Picked filter rows row
  unfolding find
  find_found [] h = absurd (cc)
  find_found (x ∷ xs) {row} h = elim (Bool-cases (filter x)) [
    | inl hit ↦
        let same : x ≡ row = ground arith in
        record { ahead = []; behind = xs; split = λ i. same i ∷ xs; matched = ground arith }
    | inr miss ↦ Picked-cons x (find_found xs (ground arith))
  ]

  find_not_found : (rows : List D) → find rows ≡ none → All (λ d. filter d ≡ false) rows
  unfolding find
  find_not_found [] h = tt
  find_not_found (x ∷ xs) h = elim (Bool-cases (filter x)) [
    | inl hit ↦ absurd (ground arith)
    | inr miss ↦ (miss, find_not_found xs (ground arith))
  ]

  delete_one : List D → List D
  delete_one [] = []
  delete_one (x ∷ xs) = if filter x then xs else x ∷ delete_one xs

  Deleted-cons :
      (x : D) {xs after : List D}
      → filter x ≡ false
      → Deleted filter xs after
      → Deleted filter (x ∷ xs) (x ∷ after)
  Deleted-cons x miss (none_matched e h) = none_matched (λ i. x ∷ e i) (miss, h)
  Deleted-cons x miss (one_removed ahead old behind e f m) =
      one_removed (x ∷ ahead) old behind (λ i. x ∷ e i) (λ i. x ∷ f i) m

  delete_one-Deleted : (rows : List D) → Deleted filter rows (delete_one rows)
  unfolding delete_one
  delete_one-Deleted [] = none_matched refl tt
  delete_one-Deleted (x ∷ xs) =
      elim (filter x)
          as (λ b. filter x ≡ b → Deleted filter (x ∷ xs) (if b then xs else x ∷ delete_one xs)) [
            | true ↦ λ hit. one_removed [] x xs refl refl hit
            | false ↦ λ miss. Deleted-cons x miss (delete_one-Deleted xs)
          ]
        refl

module _ {D : Type 0} (filter : D → Bool) (rank : D → ℕ) where
  join : D → List D → Option (List D × D × List D) → Option (List D × D × List D)
  join x xs none = if filter x then some ([], x, xs) else none
  join x xs (some (a, y, b)) =
      if filter x && leb (rank x) (rank y) then some ([], x, xs) else some (x ∷ a, y, b)

  -- The first document of least rank, between those before and behind it.
  least : List D → Option (List D × D × List D)
  unfolding join
  least [] = none
  least (x ∷ xs) = join x xs (least xs)

  abbrev IsLeast : List D → Option (List D × D × List D) → Type 0
  IsLeast rows none = All (λ d. filter d ≡ false) rows
  IsLeast rows (some (a, y, b)) =
      (rows ≡ a ++ y ∷ b) × (filter y ≡ true) × All (λ d. filter d ≡ true → rank y ≤ rank d) rows

  join-IsLeast :
      (x : D) (xs : List D) (o : Option (List D × D × List D))
      → IsLeast xs o
      → IsLeast (x ∷ xs) (join x xs o)
  unfolding join
  join-IsLeast x xs none h = elim (Bool-cases (filter x)) [
    | inl hit ↦ rw hit (
      refl,
      hit,
      (
        (λ _. omega arith),
        All-map (λ d. filter d ≡ false) (λ d. filter d ≡ true → rank x ≤ rank d)
            (λ d miss yet. absurd (cc)) xs h,
      ),
    )
    | inr miss ↦ rw miss (miss, h)
  ]
  join-IsLeast x xs (some (a, y, b)) (split, matched, low) =
      elim (Bool-cases (filter x && leb (rank x) (rank y))) [
        | inl first ↦ rw first (
          refl,
          ground arith,
          (
            (λ _. omega arith),
            All-map (λ d. filter d ≡ true → rank y ≤ rank d)
                (λ d. filter d ≡ true → rank x ≤ rank d) (λ d h hit. let h' = h hit in ground arith)
                xs low,
          ),
        )
        | inr later ↦ rw later ((λ i. x ∷ split i), matched, ((λ hit. ground arith), low))
      ]

  least-IsLeast : (rows : List D) → IsLeast rows (least rows)
  unfolding least
  least-IsLeast [] = tt
  least-IsLeast (x ∷ xs) = join-IsLeast x xs (least xs) (least-IsLeast xs)

  module _ (update : D → D) where
    write : List D → Option (List D × D × List D) → List D × Option D
    write rows none = (rows, none)
    write rows (some (a, y, b)) = (a ++ update y ∷ b, some (update y))

    find_one_and_update : List D → List D × Option D
    unfolding write least
    find_one_and_update rows = write rows (least rows)

    write-Modified :
        (rows : List D) (o : Option (List D × D × List D)) {new : D}
        → IsLeast rows o
        → (write rows o).1 ≡ some new
        → Modified filter rank update rows (write rows o).0 new
    unfolding write
    write-Modified rows none h e = absurd (cc)
    write-Modified rows (some (a, y, b)) (split, matched, low) e = record {
      old = y;
      ahead = a;
      behind = b;
      before_eq = split;
      after_eq = refl;
      new_eq = ground arith;
      matched = matched;
      least = low;
    }

    write-unmodified :
        (rows : List D) (o : Option (List D × D × List D))
        → IsLeast rows o
        → (write rows o).1 ≡ none
        → ((write rows o).0 ≡ rows) × All (λ d. filter d ≡ false) rows
    unfolding write
    write-unmodified rows none h e = (refl, h)
    write-unmodified rows (some (a, y, b)) h e = absurd (cc)

module _ {D : Type 0} (clash : D → D → Bool) (new : D) where
  any_clash : List D → Bool
  any_clash [] = false
  any_clash (x ∷ xs) = clash new x || any_clash xs

  create : List D → Created D
  unfolding any_clash
  create rows = if any_clash rows then duplicate_key else stored (rows ++ new ∷ [])

  any_clash-false : (rows : List D) → any_clash rows ≡ false → All (λ d. clash new d ≡ false) rows
  unfolding any_clash
  any_clash-false [] h = tt
  any_clash-false (x ∷ xs) h = (ground arith, any_clash-false xs (ground arith))

  any_clash-true : (rows : List D) → any_clash rows ≡ true → ¬ All (λ d. clash new d ≡ false) rows
  unfolding any_clash
  any_clash-true [] h a = cc
  any_clash-true (x ∷ xs) h a = any_clash-true xs (ground arith) a.1

  create_created :
      (rows : List D) {after : List D}
      → create rows ≡ stored after
      → (after ≡ rows ++ new ∷ []) × All (λ d. clash new d ≡ false) rows
  unfolding create
  create_created rows h = elim (Bool-cases (any_clash rows)) [
    | inl taken ↦ absurd (ground arith)
    | inr free ↦ (ground arith, any_clash-false rows free)
  ]

  create_clashed :
      (rows : List D) → create rows ≡ duplicate_key → ¬ All (λ d. clash new d ≡ false) rows
  unfolding create
  create_clashed rows h = elim (Bool-cases (any_clash rows)) [
    | inl taken ↦ any_clash-true rows taken
    | inr free ↦ absurd (ground arith)
  ]

module _ {D : Type 0} (clash : D → D → Bool) (filter : D → Bool) (update : D → D) where
  write_unique : Option (List D × D × List D) → Changed D
  unfolding any_clash
  write_unique none = not_matched
  write_unique (some (a, y, b)) =
      if any_clash clash (update y) (a ++ b)
      then key_taken
      else changed (a ++ update y ∷ b) (update y)

  update_unique : List D → Changed D
  unfolding write_unique least
  update_unique rows = write_unique (least filter (λ _. 0) rows)

  write_unique-changed :
      (rows : List D) (o : Option (List D × D × List D)) {after : List D} {new : D}
      → IsLeast filter (λ _. 0) rows o
      → write_unique o ≡ changed after new
      → Modified filter (λ _. 0) update rows after new
  unfolding write_unique
  write_unique-changed rows none h e = absurd (cc)
  write_unique-changed rows (some (a, y, b)) (split, matched, low) e =
      elim (Bool-cases (any_clash clash (update y) (a ++ b))) [
        | inl taken ↦ absurd (ground arith)
        | inr free ↦ record {
          old = y;
          ahead = a;
          behind = b;
          before_eq = split;
          after_eq = ground arith;
          new_eq = ground arith;
          matched = matched;
          least = low;
        }
      ]

  write_unique-not_matched :
      (rows : List D) (o : Option (List D × D × List D))
      → IsLeast filter (λ _. 0) rows o
      → write_unique o ≡ not_matched
      → All (λ d. filter d ≡ false) rows
  unfolding write_unique
  write_unique-not_matched rows none h e = h
  write_unique-not_matched rows (some (a, y, b)) h e =
      elim (Bool-cases (any_clash clash (update y) (a ++ b))) [
        | inl taken ↦ absurd (ground arith)
        | inr free ↦ absurd (ground arith)
      ]

unfoldable pub listed : (D : Type 0) → Collection D
unfolding find find_one_and_update delete_one create find_found find_not_found write-Modified
    write-unmodified least least-IsLeast delete_one-Deleted create_created create_clashed
    Picked-cons update_unique write_unique-changed write_unique-not_matched join-IsLeast
    Deleted-cons any_clash-false any_clash-true
listed D = record {
  find_one = find;
  find_one_and_update = find_one_and_update;
  delete_one = delete_one;
  create = create;
  update_unique = update_unique;
  found = find_found;
  not_found = find_not_found;
  modified = λ filter rank update rows h.
      write-Modified filter rank update rows (least filter rank rows)
        (least-IsLeast filter rank rows) h;
  unmodified = λ filter rank update rows h.
      write-unmodified filter rank update rows (least filter rank rows)
        (least-IsLeast filter rank rows) h;
  deleted = delete_one-Deleted;
  created = create_created;
  clashed = create_clashed;
  update_unique_changed = λ clash filter update rows h.
      write_unique-changed clash filter update rows (least filter (λ _. 0) rows)
        (least-IsLeast filter (λ _. 0) rows) h;
  update_unique_not_matched = λ clash filter update rows h.
      write_unique-not_matched clash filter update rows (least filter (λ _. 0) rows)
        (least-IsLeast filter (λ _. 0) rows) h;
}
