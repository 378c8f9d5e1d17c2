-- ===== src/Mongo/Laws.antt =====
-- What every client of a collection uses: predicates on all documents across an operation.
use trademart_b.Prelude.{
  ℕ, ◌≡◌, sym, Bool, true, List, ◌∷◌, All, All-append, All-append_left, All-append_right,
  Option-cases, inl, inr,
}
use mathlib.Core.Path.{subst}
use trademart_b.Mongo.{Picked, Modified, Collection}

-- The picked document has what all documents have.
pub All-picked :
    {D : Type 0} (P : D → Type 0) {filter : D → Bool} {rows : List D} {row : D}
    → Picked filter rows row
    → All P rows
    → P row
All-picked P {row} p h = (All-append_right P p.ahead (row ∷ p.behind) (subst (All P) p.split h)).0

-- A predicate that the update keeps on every matching document survives an update that happened.
pub All-Modified :
    {D : Type 0} (P : D → Type 0) {filter : D → Bool} {rank : D → ℕ} {update : D → D}
    {before after : List D} {new : D}
    → ((d : D) → P d → filter d ≡ true → P (update d))
    → Modified filter rank update before after new
    → All P before
    → All P after
All-Modified P {update} keep m h =
    let h' = subst (All P) m.before_eq h in
    let tail = All-append_right P m.ahead (m.old ∷ m.behind) h' in
    subst (All P) (sym m.after_eq) (
      All-append P m.ahead (update m.old ∷ m.behind)
        (All-append_left P m.ahead (m.old ∷ m.behind) h') (keep m.old tail.0 m.matched, tail.1))

module _ {D : Type 0} (db : Collection D) where
  open db use {find_one_and_update, modified, unmodified}

  -- A predicate that the update keeps on every matching document holds on all of them after it.
  pub All-find_one_and_update :
      (P : D → Type 0) (filter : D → Bool) (rank : D → ℕ) (update : D → D) (rows : List D)
      → ((d : D) → P d → filter d ≡ true → P (update d))
      → All P rows
      → All P (find_one_and_update filter rank update rows).0
  All-find_one_and_update P filter rank update rows keep h =
      elim (Option-cases (find_one_and_update filter rank update rows).1) [
        | inl missed ↦ subst (All P) (sym (unmodified filter rank update rows missed).0) h
        | inr (new, hit) ↦ All-Modified P keep (modified filter rank update rows hit) h
      ]

  -- The document before the update, with what holds of all documents.
  pub All-old :
      (P : D → Type 0) {filter : D → Bool} {rank : D → ℕ} {update : D → D} {before after : List D}
      {new : D}
      → (m : Modified filter rank update before after new) → All P before
      → P m.old
  All-old P m h = (All-append_right P m.ahead (m.old ∷ m.behind) (subst (All P) m.before_eq h)).0
