-- ===== src/Mongo.antt =====
-- MongoDB as the code uses it: a collection is the list of its documents, and the operations of the
-- driver, which is not part of the repository, are the parameter `Collection` with their documented
-- behaviour. A lost connection is outside the model, except where `create` reports it.
pub mod Laws
pub mod Keys
pub mod Listed
use trademart_b.Prelude.{
  ℕ, ◌≤◌, ◌≡◌, Bool, true, false, Option, none, some, List, [], ◌∷◌, ◌++◌, All,
}

-- One document of `rows` that meets the filter.
pub record Picked {D : Type 0} (filter : D → Bool) (rows : List D) (row : D) : Type 0 where
  pub ahead : List D
  pub behind : List D
  pub split : rows ≡ ahead ++ row ∷ behind
  pub matched : filter row ≡ true

-- One document, first in the order of `rank` among those that meet the filter, has been updated.
pub record Modified {D : Type 0} (filter : D → Bool) (rank : D → ℕ) (update : D → D)
    (before after : List D) (new : D) : Type 0 where
  pub old : D
  pub ahead : List D
  pub behind : List D
  pub before_eq : before ≡ ahead ++ old ∷ behind
  pub after_eq : after ≡ ahead ++ update old ∷ behind
  pub new_eq : new ≡ update old
  pub matched : filter old ≡ true
  pub least : All (λ d. filter d ≡ true → rank old ≤ rank d) before

-- `after` is `rows` less one document that meets the filter, if there is one.
pub data Deleted {D : Type 0} (filter : D → Bool) (rows after : List D) : Type 0 where
  none_matched : after ≡ rows → All (λ d. filter d ≡ false) rows → Deleted filter rows after
  one_removed :
      (ahead : List D) (old : D) (behind : List D)
      → rows ≡ ahead ++ old ∷ behind
      → after ≡ ahead ++ behind
      → filter old ≡ true
      → Deleted filter rows after

-- What `create` can come back with.
pub data Created (D : Type 0) : Type 0 where
  stored : List D → Created D
  -- error 11000 or 11001: a unique index holds the key already
  duplicate_key : Created D
  -- any other error
  errored : Created D

-- What `findOneAndUpdate` can come back with where the update writes a key of a unique index.
pub data Changed (D : Type 0) : Type 0 where
  changed : List D → D → Changed D
  not_matched : Changed D
  -- error 11000 or 11001: another document holds the key
  key_taken : Changed D

-- The operations. `create` is given the collection's unique indexes as a test for a clash.
pub record Collection (D : Type 0) : Type 0 where
  pub find_one : (D → Bool) → List D → Option D
  pub find_one_and_update : (D → Bool) → (D → ℕ) → (D → D) → List D → List D × Option D
  pub delete_one : (D → Bool) → List D → List D
  pub create : (D → D → Bool) → D → List D → Created D
  pub update_unique : (D → D → Bool) → (D → Bool) → (D → D) → List D → Changed D
  pub found :
      (filter : D → Bool) (rows : List D) {row : D}
      → find_one filter rows ≡ some row
      → Picked filter rows row
  pub not_found :
      (filter : D → Bool) (rows : List D)
      → find_one filter rows ≡ none
      → All (λ d. filter d ≡ false) rows
  pub modified :
      (filter : D → Bool) (rank : D → ℕ) (update : D → D) (rows : List D) {new : D}
      → (find_one_and_update filter rank update rows).1 ≡ some new
      → Modified filter rank update rows (find_one_and_update filter rank update rows).0 new
  pub unmodified :
      (filter : D → Bool) (rank : D → ℕ) (update : D → D) (rows : List D)
      → (find_one_and_update filter rank update rows).1 ≡ none
      → ((find_one_and_update filter rank update rows).0 ≡ rows) × All (λ d. filter d ≡ false) rows
  pub deleted : (filter : D → Bool) (rows : List D) → Deleted filter rows (delete_one filter rows)
  pub created :
      (clash : D → D → Bool) (new : D) (rows : List D) {after : List D}
      → create clash new rows ≡ stored after
      → (after ≡ rows ++ new ∷ []) × All (λ d. clash new d ≡ false) rows
  pub clashed :
      (clash : D → D → Bool) (new : D) (rows : List D)
      → create clash new rows ≡ duplicate_key
      → ¬ All (λ d. clash new d ≡ false) rows
  pub update_unique_changed :
      (clash : D → D → Bool) (filter : D → Bool) (update : D → D) (rows : List D) {after : List D}
      {new : D}
      → update_unique clash filter update rows ≡ changed after new
      → Modified filter (λ _. 0) update rows after new
  pub update_unique_not_matched :
      (clash : D → D → Bool) (filter : D → Bool) (update : D → D) (rows : List D)
      → update_unique clash filter update rows ≡ not_matched
      → All (λ d. filter d ≡ false) rows
