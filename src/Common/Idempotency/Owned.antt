-- ===== src/Common/Idempotency/Owned.antt =====
-- What keeps the one record of a key.
use mathlib.Core.Path.{subst}
use trademart_b.Prelude.{
  ℕ, ◌+◌, ◌≡◌, refl, sym, ap, Bool, true, false, not, ◌&&◌, Option, none, some, List, [], ◌∷◌, ◌++◌,
  String, arith, ◌===◌, ===_iff, if◌then◌else◌, if-kept, All, All-append, All-append_left,
  All-append_right, All-map, Bool-cases, Option-cases, inl, inr, trim, is_blank,
}
use trademart_b.Mongo.{
  Collection, Created, stored, duplicate_key, errored, none_matched, one_removed,
}
use trademart_b.Common.Idempotency.{
  IdempotencyKey, Answer, has_key, clash, new_key, claim_key, claim_result, handle, finalise,
  release_key, complete_key, should_release, completed_update, is_valid_key, durable_safety_gate,
  is_in_progress,
}

-- What may happen to the store while a handler runs or after it: requests of any key, and the end of
-- the handler of any other key than the given one.
pub data Op (B : Type 0) (key operation : String) : Type 0 where
  handled :
      Bool
      → ℕ
      → Option String
      → String
      → String
      → Option String
      → Option String
      → Op B key operation
  finalised :
      (now : ℕ) (k o : String) (status : ℕ) (body : Option B)
      → ((k === key) && (o === operation)) ≡ false
      → Op B key operation

module _ {B : Type 0} (key operation : String) where
  pub weight : IdempotencyKey B → ℕ
  weight d = if has_key key operation d then 1 else 0

  pub weight-true : (d : IdempotencyKey B) → has_key key operation d ≡ true → weight d ≡ 1
  unfolding weight
  weight-true d h = ground arith

  pub weight-false : (d : IdempotencyKey B) → has_key key operation d ≡ false → weight d ≡ 0
  unfolding weight
  weight-false d h = ground arith

  -- The number of records of the key.
  abbrev pub count : List (IdempotencyKey B) → ℕ
  count [] = 0
  count (d ∷ ds) = weight d + count ds

  pub count-append : (a b : List (IdempotencyKey B)) → count (a ++ b) ≡ count a + count b
  count-append [] b = omega arith
  count-append (x ∷ a) b = omega (arith, count-append a b)

  pub free-count :
      (rows : List (IdempotencyKey B))
      → All (λ d. has_key key operation d ≡ false) rows
      → count rows ≡ 0
  free-count [] h = refl
  free-count (d ∷ ds) h = omega (arith, weight-false d h.0, free-count ds h.1)

  pub count-free :
      (rows : List (IdempotencyKey B))
      → count rows ≡ 0
      → All (λ d. has_key key operation d ≡ false) rows
  count-free [] h = tt
  count-free (d ∷ ds) h = (
    (elim (Bool-cases (has_key key operation d)) [
      | inl t ↦ absurd (omega (arith, weight-true d t))
      | inr f ↦ f
    ]),
    count-free ds (omega arith),
  )

  -- Just one record of the key is stored, and it has the property.
  abbrev pub IsOwned : (IdempotencyKey B → Type 0) → List (IdempotencyKey B) → Type 0
  IsOwned P rows = (count rows ≡ 1) × All (λ d. has_key key operation d ≡ true → P d) rows

  -- A new record of the key needs the key to be free.
  pub clash-free :
      (new : IdempotencyKey B) (rows : List (IdempotencyKey B))
      → has_key key operation new ≡ true
      → All (λ d. clash new d ≡ false) rows
      → All (λ d. has_key key operation d ≡ false) rows
  clash-free new rows same free =
      All-map (λ d. clash new d ≡ false) (λ d. has_key key operation d ≡ false)
        (λ d f. ground (arith, ===_iff new.key key, ===_iff new.operation operation)) rows free

  -- A new record beside one of the key is of another key.
  pub taken-other :
      (new : IdempotencyKey B) (rows : List (IdempotencyKey B))
      → All (λ d. clash new d ≡ false) rows
      → count rows ≡ 1
      → has_key key operation new ≡ false
  taken-other new rows free one = elim (Bool-cases (has_key key operation new)) [
    | inl same ↦ absurd (omega (arith, free-count rows (clash-free new rows same free)))
    | inr other ↦ other
  ]

  -- A record of another key, replaced by one that is of another key too, or removed.
  pub replaced-IsOwned :
      (P : IdempotencyKey B → Type 0) (a b : List (IdempotencyKey B)) (y z : IdempotencyKey B)
      → has_key key operation y ≡ false
      → has_key key operation z ≡ false
      → IsOwned P (a ++ y ∷ b)
      → IsOwned P (a ++ z ∷ b)
  replaced-IsOwned P a b y z ny nz (one, all) = (
    omega (
      arith,
      count-append a (y ∷ b),
      count-append a (z ∷ b),
      weight-false y ny,
      weight-false z nz,
    ),
    All-append (λ d. has_key key operation d ≡ true → P d) a (z ∷ b)
        (All-append_left (λ d. has_key key operation d ≡ true → P d) a (y ∷ b) all)
        (
          (λ same. absurd (ground arith)),
          (All-append_right (λ d. has_key key operation d ≡ true → P d) a (y ∷ b) all).1,
        ),
  )

  pub removed-IsOwned :
      (P : IdempotencyKey B → Type 0) (a b : List (IdempotencyKey B)) (y : IdempotencyKey B)
      → has_key key operation y ≡ false
      → IsOwned P (a ++ y ∷ b)
      → IsOwned P (a ++ b)
  removed-IsOwned P a b y ny (one, all) = (
    omega (arith, count-append a (y ∷ b), count-append a b, weight-false y ny),
    All-append (λ d. has_key key operation d ≡ true → P d) a b
        (All-append_left (λ d. has_key key operation d ≡ true → P d) a (y ∷ b) all)
        (All-append_right (λ d. has_key key operation d ≡ true → P d) a (y ∷ b) all).1,
  )

  -- The one record of the key, replaced by one of the key.
  pub own-IsOwned :
      (P Q : IdempotencyKey B → Type 0) (a b : List (IdempotencyKey B)) (y z : IdempotencyKey B)
      → has_key key operation y ≡ true
      → has_key key operation z ≡ true
      → IsOwned P (a ++ y ∷ b)
      → (P y → Q z)
      → IsOwned Q (a ++ z ∷ b)
  own-IsOwned P Q a b y z hy hz (one, all) next =
      let total = count-append a (y ∷ b) in
      let w = weight-true y hy in
      let left = count-free a (omega arith) in
      let right = count-free b (omega arith) in
      (
        omega (arith, count-append a (z ∷ b), weight-true z hz),
        All-append (λ d. has_key key operation d ≡ true → Q d) a (z ∷ b)
            (All-map (λ d. has_key key operation d ≡ false)
              (λ d. has_key key operation d ≡ true → Q d) (λ d f same. absurd (ground arith)) a
              left)
            (
              (λ same. next (
                  (All-append_right (λ d. has_key key operation d ≡ true → P d) a (y ∷ b) all).0
                    hy)),
              All-map (λ d. has_key key operation d ≡ false)
                  (λ d. has_key key operation d ≡ true → Q d) (λ d f same. absurd (ground arith)) b
                  right,
            ),
      )

  -- A record of `k` and `o` is not of the key.
  pub other-has_key :
      (k o : String) (d : IdempotencyKey B)
      → ((k === key) && (o === operation)) ≡ false
      → has_key k o d ≡ true
      → has_key key operation d ≡ false
  other-has_key k o d other h =
      ground (arith, ===_iff d.key k, ===_iff d.operation o, ===_iff k key, ===_iff o operation)

  module _ (db : Collection (IdempotencyKey B)) (hours : ℕ) where
    unfoldable pub apply : Op B key operation → List (IdempotencyKey B) → List (IdempotencyKey B)
    apply (handled connected now supplied o hash request_id actor) rows =
        (handle db hours connected now supplied o hash request_id actor rows).0
    apply (finalised now k o status body other) rows = finalise db hours now k o status body rows

    unfoldable pub apply_all :
        List (Op B key operation) → List (IdempotencyKey B) → List (IdempotencyKey B)
    unfolding apply
    apply_all [] rows = rows
    apply_all (op ∷ ops) rows = apply_all ops (apply op rows)

    module _ (P : IdempotencyKey B → Type 0) where
      pub create-IsOwned :
          (new : IdempotencyKey B) (rows : List (IdempotencyKey B))
          {after : List (IdempotencyKey B)}
          → db.create clash new rows ≡ stored after
          → IsOwned P rows
          → IsOwned P after
      create-IsOwned new rows {after} c (one, all) =
          let (split, free) = db.created clash new rows c in
          let other = taken-other new rows free one in
          (
            omega (arith, ap count split, count-append rows (new ∷ []), weight-false new other),
            subst (All (λ d. has_key key operation d ≡ true → P d)) (sym split) (
                All-append (λ d. has_key key operation d ≡ true → P d) rows (new ∷ []) all
                  ((λ same. absurd (ground arith)), tt)),
          )

      pub release_key-IsOwned :
          (k o : String) (rows : List (IdempotencyKey B))
          → ((k === key) && (o === operation)) ≡ false
          → IsOwned P rows
          → IsOwned P (release_key db hours k o rows)
      unfolding release_key
      release_key-IsOwned k o rows other h =
          elim (db.deleted (λ d. has_key k o d && is_in_progress d.status) rows) [
            | none_matched same none_left ↦ subst (IsOwned P) (sym same) h
            | one_removed a old b split cut hit ↦ subst (IsOwned P) (sym cut) (
                removed-IsOwned P a b old (other-has_key k o old other (ground arith))
                  (subst (IsOwned P) split h))
          ]

      pub complete_key-IsOwned :
          (now : ℕ) (k o : String) (status : ℕ) (body : Option B) (rows : List (IdempotencyKey B))
          → ((k === key) && (o === operation)) ≡ false
          → IsOwned P rows
          → IsOwned P (complete_key db hours now k o status body rows)
      unfolding complete_key
      complete_key-IsOwned now k o status body rows other h =
          elim (Option-cases
            (db.find_one_and_update (has_key k o) (λ _. 0) (completed_update now status body)
              rows).1) [
                | inl missed ↦
                    subst (IsOwned P)
                      (sym
                        (db.unmodified (has_key k o) (λ _. 0) (completed_update now status body)
                          rows missed).0)
                      h
                | inr (new, hit) ↦
                    let m =
                      db.modified (has_key k o) (λ _. 0) (completed_update now status body) rows
                        hit in
                    subst (IsOwned P) (sym m.after_eq) (
                      replaced-IsOwned P m.ahead m.behind m.old
                        (completed_update now status body m.old)
                        (other-has_key k o m.old other m.matched)
                        (other-has_key k o m.old other m.matched) (subst (IsOwned P) m.before_eq h))
              ]

      pub claim_key-IsOwned :
          (now : ℕ) (k o hash : String) (request_id actor : Option String)
          (rows : List (IdempotencyKey B))
          → IsOwned P rows
          → IsOwned P (claim_key db hours now k o hash request_id actor rows).0
      unfolding claim_key claim_result
      claim_key-IsOwned now k o hash request_id actor rows h =
          go (db.create clash (new_key k o hash request_id actor now hours) rows) refl
        where
          go :
              (c : Created (IdempotencyKey B))
              → db.create clash (new_key k o hash request_id actor now hours) rows ≡ c
              → IsOwned P (claim_result db hours k o hash rows c).0
          go (stored after) e =
              create-IsOwned (new_key k o hash request_id actor now hours) rows {after = after} e h
          go errored e = h
          go duplicate_key e = h

      pub apply-IsOwned :
          (op : Op B key operation) (rows : List (IdempotencyKey B))
          → IsOwned P rows
          → IsOwned P (apply op rows)
      unfolding apply handle finalise
      apply-IsOwned (handled connected now none o hash request_id actor) rows h =
          if-kept (λ (r : List (IdempotencyKey B) × Answer B). IsOwned P r.0)
            (durable_safety_gate connected) h h
      apply-IsOwned (handled connected now (some header) o hash request_id actor) rows h =
          if-kept (λ (r : List (IdempotencyKey B) × Answer B). IsOwned P r.0)
            (durable_safety_gate connected) h
            (if-kept (λ (r : List (IdempotencyKey B) × Answer B). IsOwned P r.0) (is_blank header) h
              (if-kept (λ (r : List (IdempotencyKey B) × Answer B). IsOwned P r.0)
                (not (is_valid_key (trim header))) h
                (claim_key-IsOwned now (trim header) o hash request_id actor rows h)))
      apply-IsOwned (finalised now k o status body other) rows h =
          if-kept (IsOwned P) (should_release status) (release_key-IsOwned k o rows other h)
            (complete_key-IsOwned now k o status body rows other h)

      pub apply_all-IsOwned :
          (ops : List (Op B key operation)) (rows : List (IdempotencyKey B))
          → IsOwned P rows
          → IsOwned P (apply_all ops rows)
      unfolding apply_all
      apply_all-IsOwned [] rows h = h
      apply_all-IsOwned (op ∷ ops) rows h =
          apply_all-IsOwned ops (apply op rows) (apply-IsOwned op rows h)
