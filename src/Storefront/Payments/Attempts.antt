-- ===== src/Storefront/Payments/Attempts.antt =====
-- src/storefront/payments/payment.repository.ts: the record of what was observed of each payment. The
-- upsert is an update of the payment's row, or its insertion where there is none. Between the search of
-- `observe` and its upsert the others make of the rows what `between` says.
use trademart_b.Prelude.{
  ℕ, Bool, true, false, Option, none, some, List, [], ◌∷◌, String, ltb, not, ◌===◌, ◌≡◌, ◌≢◌, ◌≤◌,
  All, All-map, All-concat, ◌∙◌, arith, if◌then◌else◌, Bool-cases, Option-cases, inl, inr, ===_iff,
  refl, sym,
}
use trademart_b.Mongo.{Collection, Created, stored, duplicate_key, errored}
use mathlib.Core.Path.{subst}
use trademart_b.Mongo.Laws.{All-find_one_and_update, All-picked}
use trademart_b.Storefront.Result.{Result, ok, err, throw, payment_mismatch, internal_error}

pub data AttemptStatus : Type 0 where
  failed authorized captured paid refunded : AttemptStatus

pub data Source : Type 0 where
  browser_verify webhook : Source

pub record Attempt : Type 0 where
  pub checkout_public_id : String
  pub razorpay_order_id : String
  pub razorpay_payment_id : String
  pub status : AttemptStatus
  pub amount_paise : ℕ
  pub captured : Bool
  pub source : Source
  pub provider_observed_at : ℕ
  pub failure_code : Option String

abbrev pub rank : AttemptStatus → ℕ
rank failed = 0
rank authorized = 1
rank captured = 2
rank paid = 3
rank refunded = 4

abbrev same_payment : String → Attempt → Bool
same_payment payment a = a.razorpay_payment_id === payment

module _ (db : Collection Attempt) where
  inserted : List Attempt → Created Attempt → List Attempt × Result (Unit {0})
  inserted rows (stored after) = (after, ok tt)
  inserted rows duplicate_key =
      (rows, err (record { code = internal_error; status = 500; retryable = true }))
  inserted rows errored =
      (rows, err (record { code = internal_error; status = 500; retryable = true }))

  upserted :
      Attempt → List Attempt → List Attempt × Option Attempt → List Attempt × Result (Unit {0})
  unfolding inserted
  upserted input rows (after, some _) = (after, ok tt)
  upserted input rows (after, none) =
      inserted rows (db.create (λ new old. same_payment new.razorpay_payment_id old) input rows)

  unfoldable pub upsert : Attempt → List Attempt → List Attempt × Result (Unit {0})
  unfolding upserted
  upsert input rows =
      upserted input rows
        (db.find_one_and_update (same_payment input.razorpay_payment_id) (λ _. 0) (λ _. input) rows)

  module _ (between : List Attempt → List Attempt) where
    observed : Attempt → List Attempt → Option Attempt → List Attempt × Result (Unit {0})
    unfolding upsert
    observed input rows none = upsert input (between rows)
    observed input rows (some existing) =
        if not (existing.checkout_public_id === input.checkout_public_id)
        then (rows, throw payment_mismatch 409)
        else (if ltb (rank input.status) (rank existing.status)
            then (rows, ok tt)
            else upsert input (between rows))

    unfoldable pub observe : Attempt → List Attempt → List Attempt × Result (Unit {0})
    unfolding observed
    observe input rows =
        observed input rows (db.find_one (same_payment input.razorpay_payment_id) rows)

  -- The upserts of others, one after the other.
  unfoldable pub upsert_all : List Attempt → List Attempt → List Attempt
  unfolding upsert
  upsert_all [] rows = rows
  upsert_all (input ∷ inputs) rows = upsert_all inputs (upsert input rows).0

  module _ (p : String) (n : ℕ) where
    -- Every row of the payment has been observed at that rank or a higher one.
    abbrev pub Reached : Attempt → Type 0
    Reached a = a.razorpay_payment_id ≡ p → n ≤ rank a.status

    inserted-Reached :
        (input : Attempt) (rows : List Attempt) (c : Created Attempt)
        → db.create (λ new old. same_payment new.razorpay_payment_id old) input rows ≡ c
        → Reached input
        → All Reached rows
        → All Reached (inserted rows c).0
    unfolding inserted
    inserted-Reached input rows (stored after) e r h =
        subst (All Reached) (sym (db.created _ input rows e).0) (All-concat Reached rows h r)
    inserted-Reached input rows duplicate_key e r h = h
    inserted-Reached input rows errored e r h = h

    upsert-Reached :
        (input : Attempt) (rows : List Attempt)
        → Reached input
        → All Reached rows
        → All Reached (upsert input rows).0
    unfolding upsert
    upsert-Reached input rows r h =
        elim (Option-cases
          (db.find_one_and_update (same_payment input.razorpay_payment_id) (λ _. 0) (λ _. input)
            rows).1) [
              | inl missed ↦ rw (missed, upserted) (inserted-Reached input rows _ refl r h)
              | inr (new, hit) ↦
                  rw (hit, upserted)
                    (All-find_one_and_update db Reached (same_payment input.razorpay_payment_id)
                      (λ _. 0) (λ _. input) rows (λ d _ _. r) h)
            ]

    upsert_all-Reached :
        (inputs rows : List Attempt)
        → All Reached inputs
        → All Reached rows
        → All Reached (upsert_all inputs rows)
    unfolding upsert_all
    upsert_all-Reached [] rows r h = h
    upsert_all-Reached (input ∷ inputs) rows r h =
        upsert_all-Reached inputs (upsert input rows).0 r.1 (upsert-Reached input rows r.0 h)

    -- Where a payment has been observed, each of its rows at a rank of at least `n`, another observation
    -- of any payment leaves each of its rows at such a rank, with the upserts of other observations
    -- between its search and its own upsert, provided that none of those writes the payment below that
    -- rank. Two observations of one payment that overlap may: the later upsert does not look again.
    pub observe-Reached :
        (input : Attempt) (others rows : List Attempt)
        → ¬ All (λ a. a.razorpay_payment_id ≢ p) rows
        → All Reached rows
        → All Reached others
        → All Reached (observe (upsert_all others) input rows).0
    unfolding observe
    observe-Reached input others rows seen h quiet =
        let later = upsert_all-Reached others rows quiet h in
        elim (Option-cases (db.find_one (same_payment input.razorpay_payment_id) rows)) [
          | inl absent ↦
              rw (absent, observed)
                (upsert-Reached input (upsert_all others rows)
                  (λ e. absurd (
                    seen (
                      All-map (λ d. same_payment input.razorpay_payment_id d ≡ false)
                        (λ a. a.razorpay_payment_id ≢ p)
                        (λ a miss same.
                          let t =
                            (===_iff a.razorpay_payment_id input.razorpay_payment_id).1
                              (same ∙ sym e) in
                          absurd (cc))
                        rows (db.not_found (same_payment input.razorpay_payment_id) rows absent))))
                  later)
          | inr (existing, found) ↦
              let pick = db.found (same_payment input.razorpay_payment_id) rows found in
              let same =
                (===_iff existing.razorpay_payment_id input.razorpay_payment_id).0 pick.matched in
              let old : Reached existing = All-picked Reached pick h in
              elim (Bool-cases (existing.checkout_public_id === input.checkout_public_id)) [
                | inr other ↦ rw (found, observed) (rw other h)
                | inl mine ↦ elim (Bool-cases (ltb (rank input.status) (rank existing.status))) [
                  | inl lower ↦ rw (found, observed) (rw mine (rw lower h))
                  | inr higher ↦
                      rw (found, observed)
                        (rw mine (
                          rw higher (
                            upsert-Reached input (upsert_all others rows)
                              (λ e. let reached = old (same ∙ e) in ground arith) later)))
                ]
              ]
        ]
