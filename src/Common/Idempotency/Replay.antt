-- ===== src/Common/Idempotency/Replay.antt =====
-- A key runs its handler once, and a completed key answers what was stored.
use mathlib.Core.Path.{subst}
use trademart_b.Prelude.{
  ℕ, ◌≡◌, ◌≢◌, refl, sym, ◌∙◌, ap, true, false, Option, none, some, List, [], ◌∷◌, String, arith,
  ◌===◌, ===_iff, if◌then◌else◌, All, All-append, All-append_right, All-map, Option-cases, ◌⊎◌, inl,
  inr,
}
use trademart_b.Mongo.{Collection, Created, stored, duplicate_key, errored}
use trademart_b.Common.Idempotency.{
  IdempotencyKey, in_progress, completed, run_claimed, run_unclaimed, replayed,
  idempotency_conflict, rethrown, has_key, clash, new_key, existing_answer, claim_key, claim_result,
  finalise, release_key, complete_key, should_release, completed_update,
}
use trademart_b.Common.Idempotency.Owned.{
  Op, apply_all, weight-true, count-append, free-count, IsOwned, taken-other, own-IsOwned,
  apply_all-IsOwned,
}

module _ {B : Type 0} (key operation : String) where
  module _ (db : Collection (IdempotencyKey B)) (hours : ℕ) where
    own-has_key :
        (hash : String) (request_id actor : Option String) (now : ℕ)
        → has_key key operation (new_key {B = B} key operation hash request_id actor now hours)
          ≡ true
    own-has_key hash request_id actor now =
        ground (arith, ===_iff key key, ===_iff operation operation)

    existing-ne-unclaimed :
        (hash : String) (d : IdempotencyKey B) → existing_answer hash (some d) ≢ run_unclaimed
    unfolding existing_answer
    existing-ne-unclaimed hash d e = ground arith

    existing-done :
        (hash hash₂ : String) (status : ℕ) (body : Option B) (d : IdempotencyKey B)
        → (d.request_hash ≡ hash)
          × (d.status ≡ completed)
          × (d.response_status ≡ some status)
          × (d.response_body ≡ body)
        → existing_answer hash₂ (some d)
          ≡ (if hash === hash₂ then replayed status body else idempotency_conflict)
    unfolding existing_answer
    existing-done hash hash₂ status body d (h, s, rs, rb) = ground arith

    existing-ne-claimed :
        (hash : String) (found : Option (IdempotencyKey B))
        → existing_answer hash found ≢ run_claimed
    unfolding existing_answer
    existing-ne-claimed hash none e = cc
    existing-ne-claimed hash (some d) e = ground arith

    abbrev IsClaimed : String → IdempotencyKey B → Type 0
    IsClaimed hash d = (d.request_hash ≡ hash) × (d.status ≡ in_progress)

    abbrev IsDone : String → ℕ → Option B → IdempotencyKey B → Type 0
    IsDone hash status body d =
        (d.request_hash ≡ hash)
        × (d.status ≡ completed)
        × (d.response_status ≡ some status)
        × (d.response_body ≡ body)

    -- The request that runs the handler with a claim owns the key.
    claim_key-IsClaimed :
        (now : ℕ) (hash : String) (request_id actor : Option String)
        (rows : List (IdempotencyKey B))
        → (claim_key db hours now key operation hash request_id actor rows).1 ≡ run_claimed
        → IsOwned key operation
            (IsClaimed hash)
            (claim_key db hours now key operation hash request_id actor rows).0
    unfolding claim_key claim_result existing_answer
    claim_key-IsClaimed now hash request_id actor rows h =
        go (db.create clash (new_key key operation hash request_id actor now hours) rows) refl h
      where
        go :
            (c : Created (IdempotencyKey B))
            → db.create clash (new_key key operation hash request_id actor now hours) rows ≡ c
            → (claim_result db hours key operation hash rows c).1 ≡ run_claimed
            → IsOwned key operation
                (IsClaimed hash)
                (claim_result db hours key operation hash rows c).0
        go (stored after) e k =
            let (split, free) =
              db.created clash (new_key key operation hash request_id actor now hours) rows e in
            let own = own-has_key hash request_id actor now in
            subst (IsOwned key operation (IsClaimed hash)) (sym split) (
              omega (
                arith,
                count-append key operation rows
                    (new_key key operation hash request_id actor now hours ∷ []),
                free-count key operation rows free,
                weight-true key operation (new_key key operation hash request_id actor now hours)
                    own,
              ),
              All-append (λ d. has_key key operation d ≡ true → IsClaimed hash d) rows
                  (new_key key operation hash request_id actor now hours ∷ [])
                  (All-map (λ d. has_key key operation d ≡ false)
                    (λ d. has_key key operation d ≡ true → IsClaimed hash d)
                    (λ d f same. absurd (ground arith)) rows free)
                  ((λ same. (refl, refl)), tt),
            )
        go errored e k = absurd (cc)
        go duplicate_key e k =
            absurd (existing-ne-claimed hash (db.find_one (has_key key operation) rows) k)

    -- What the end of the claimed handler leaves, where its response is kept.
    complete_key-IsDone :
        (now : ℕ) (hash : String) (status : ℕ) (body : Option B) (rows : List (IdempotencyKey B))
        → IsOwned key operation (IsClaimed hash) rows
        → IsOwned key operation
            (IsDone hash status body)
            (complete_key db hours now key operation status body rows)
    unfolding complete_key
    complete_key-IsDone now hash status body rows (one, all) =
        elim (Option-cases
          (db.find_one_and_update (has_key key operation) (λ _. 0)
            (completed_update now status body) rows).1) [
              | inl missed ↦ absurd (
                  let free =
                    (db.unmodified (has_key key operation) (λ _. 0)
                      (completed_update now status body) rows missed).1 in
                  omega (arith, free-count key operation rows free))
              | inr (new, hit) ↦
                  let m =
                    db.modified (has_key key operation) (λ _. 0) (completed_update now status body)
                      rows hit in
                  subst (IsOwned key operation (IsDone hash status body)) (sym m.after_eq) (
                    own-IsOwned key operation (IsClaimed hash) (IsDone hash status body) m.ahead
                      m.behind m.old (completed_update now status body m.old) m.matched m.matched
                      (subst (IsOwned key operation (IsClaimed hash)) m.before_eq (one, all))
                      (λ c. (c.0, refl, refl, refl)))
            ]

    finalise-IsDone :
        (now : ℕ) (hash : String) (status : ℕ) (body : Option B) (rows : List (IdempotencyKey B))
        → should_release status ≡ false
        → IsOwned key operation (IsClaimed hash) rows
        → IsOwned key operation
            (IsDone hash status body)
            (finalise db hours now key operation status body rows)
    unfolding finalise
    finalise-IsDone now hash status body rows keep h =
        subst
          (λ b. IsOwned key operation (IsDone hash status body) (
            if b
            then release_key db hours key operation rows
            else complete_key db hours now key operation status body rows))
          (sym keep) (complete_key-IsDone now hash status body rows h)

    -- A request with a key that is owned is answered by what its record says.
    owned-answer :
        (P : IdempotencyKey B → Type 0) (now : ℕ) (hash : String) (request_id actor : Option String)
        (rows : List (IdempotencyKey B))
        → IsOwned key operation P rows
        → ((claim_key db hours now key operation hash request_id actor rows).1 ≡ rethrown)
          ⊎ ((d : IdempotencyKey B) × P d
              × ((claim_key db hours now key operation hash request_id actor rows).1
                  ≡ existing_answer hash (some d)))
    unfolding claim_key claim_result
    owned-answer P now hash request_id actor rows (one, all) =
        go (db.create clash (new_key key operation hash request_id actor now hours) rows) refl
          (db.find_one (has_key key operation) rows) refl
      where
        go :
            (c : Created (IdempotencyKey B))
            → db.create clash (new_key key operation hash request_id actor now hours) rows ≡ c
            → (o : Option (IdempotencyKey B)) → db.find_one (has_key key operation) rows ≡ o
            → ((claim_result db hours key operation hash rows c).1 ≡ rethrown)
              ⊎ ((d : IdempotencyKey B) × P d
                  × ((claim_result db hours key operation hash rows c).1
                      ≡ existing_answer hash (some d)))
        go (stored after) e o f =
            let own = own-has_key hash request_id actor now in
            absurd (
              let other =
                taken-other key operation (new_key key operation hash request_id actor now hours)
                  rows
                  (db.created clash (new_key key operation hash request_id actor now hours) rows
                    e).1
                  one in
              cc)
        go errored e o f = inl refl
        go duplicate_key e none f = absurd (
            omega
              (arith, free-count key operation rows (db.not_found (has_key key operation) rows f)))
        go duplicate_key e (some d) f =
            let p = db.found (has_key key operation) rows f in
            let held = subst (All (λ x. has_key key operation x ≡ true → P x)) p.split all in
            inr (
              d,
              (All-append_right (λ x. has_key key operation x ≡ true → P x) p.ahead (d ∷ p.behind)
                    held).0
                  p.matched,
              ap (existing_answer hash) f,
            )

    -- Once a request has run the handler under a key, no other request with the key runs a handler,
    -- with or without a claim, until that handler's own response has been sent: whatever requests of
    -- any key and ends of other keys' handlers come between, in any order, at any times.
    pub claim_key-exclusive :
        (now : ℕ) (hash : String) (request_id actor : Option String)
        (rows : List (IdempotencyKey B))
        → (claim_key db hours now key operation hash request_id actor rows).1 ≡ run_claimed
        → (ops : List (Op B key operation)) (then_ : ℕ) (hash₂ : String)
          (request_id₂ actor₂ : Option String)
        → ((claim_key db hours then_ key operation hash₂ request_id₂ actor₂ (
              apply_all key operation db hours ops
                (claim_key db hours now key operation hash request_id actor rows).0)).1
            ≢ run_claimed)
          × ((claim_key db hours then_ key operation hash₂ request_id₂ actor₂ (
                apply_all key operation db hours ops
                  (claim_key db hours now key operation hash request_id actor rows).0)).1
              ≢ run_unclaimed)
    claim_key-exclusive now hash request_id actor rows h ops then_ hash₂ request_id₂ actor₂ =
        elim (owned-answer (IsClaimed hash) then_ hash₂ request_id₂ actor₂ _ (
          apply_all-IsOwned key operation db hours (IsClaimed hash) ops _
            (claim_key-IsClaimed now hash request_id actor rows h))) [
              | inl e ↦ ((λ k. cc), (λ k. cc))
              | inr (d, claimed, e) ↦ (
                (λ k. existing-ne-claimed hash₂ (some d) (sym e ∙ k)),
                (λ k. existing-ne-unclaimed hash₂ d (sym e ∙ k)),
              )
            ]

    -- Once the handler that ran under a key has sent a response that is not a 429 or a 5xx, a request
    -- with the key and the same content is answered with that status and body, and one with other
    -- content is refused as a conflict, whatever requests of any key and ends of other keys' handlers
    -- come between; the one other outcome is an error of the database.
    pub finalise-replays :
        (now : ℕ) (hash : String) (request_id actor : Option String)
        (rows : List (IdempotencyKey B))
        → (claim_key db hours now key operation hash request_id actor rows).1 ≡ run_claimed
        → (before after : List (Op B key operation)) (end then_ : ℕ) (status : ℕ) (body : Option B)
        → should_release status ≡ false
        → (hash₂ : String) (request_id₂ actor₂ : Option String)
        → ((claim_key db hours then_ key operation hash₂ request_id₂ actor₂ (
              apply_all key operation db hours after (
                finalise db hours end key operation status body (
                  apply_all key operation db hours before
                    (claim_key db hours now key operation hash request_id actor rows).0)))).1
            ≡ (if hash === hash₂ then replayed status body else idempotency_conflict))
          ⊎ ((claim_key db hours then_ key operation hash₂ request_id₂ actor₂ (
                apply_all key operation db hours after (
                  finalise db hours end key operation status body (
                    apply_all key operation db hours before
                      (claim_key db hours now key operation hash request_id actor rows).0)))).1
              ≡ rethrown)
    finalise-replays now hash request_id actor rows h before after end then_ status body keep hash₂
          request_id₂ actor₂ =
        let owned =
          apply_all-IsOwned key operation db hours (IsClaimed hash) before _
            (claim_key-IsClaimed now hash request_id actor rows h) in
        let done = finalise-IsDone end hash status body _ keep owned in
        elim (owned-answer (IsDone hash status body) then_ hash₂ request_id₂ actor₂ _
          (apply_all-IsOwned key operation db hours (IsDone hash status body) after _ done)) [
            | inl e ↦ inr e
            | inr (d, kept, e) ↦ inl (e ∙ existing-done hash hash₂ status body d kept)
          ]
