-- ===== src/Storefront/Checkout/Repository/Ids.antt =====
-- No write of the repository makes two checkouts share a public id.
use mathlib.Core.Path.{subst}
use trademart_b.Prelude.{
  ℕ, ◌≡◌, ◌≢◌, refl, sym, Bool, false, List, [], ◌∷◌, ◌++◌, All, All-concat, arith, ===_iff,
  Bool-cases, inl, inr,
}
use trademart_b.Mongo.{
  Collection, Created, stored, duplicate_key, errored, Changed, changed, not_matched, key_taken,
}
use trademart_b.Mongo.Keys.{Distinct, Distinct-replace, Distinct-find_one_and_update}
use trademart_b.Storefront.Result.{Result}
use trademart_b.Storefront.Checkout.Types.{CheckoutSessionRecord, NewCheckoutSession}
use trademart_b.Storefront.Checkout.Repository.{
  new_session, attach_filter, attach_update, paid_filter, paid_update, refunded_filter,
  refunded_update, claimable, claim_update, paid_rank, created_filter, created_update,
  release_filter, release_update, created_result, changed_result, create, attach_razorpay_order,
  mark_paid, mark_refunded, claim_order, mark_order_created, release_order_for_retry,
}
use trademart_b.Storefront.Checkout.Schema.{schema_accepts, clash}
use trademart_b.Storefront.Checkout.Repository.Steps.{
  Op, open_session, attach, pay, refund, claim, link, release, apply, apply_all,
}

-- No two checkouts share a public id.
abbrev pub Apart : List CheckoutSessionRecord → Type 0
Apart rows = Distinct (λ (s : CheckoutSessionRecord). s.public_id) rows

Apart-concat :
    (rows : List CheckoutSessionRecord) (new : CheckoutSessionRecord)
    → Apart rows
    → All (λ s. clash new s ≡ false) rows
    → Apart (rows ++ new ∷ [])
unfolding clash
Apart-concat [] new h c = (tt, tt)
Apart-concat (s ∷ rows) new h c = (
  All-concat (λ (d : CheckoutSessionRecord). s.public_id ≢ d.public_id) rows h.0
      (λ same.
        let t = (===_iff new.public_id s.public_id).1 (sym same) in
        absurd (let k = c.0 in ground arith)),
  Apart-concat rows new h.1 c.1,
)

module _ (db : Collection CheckoutSessionRecord) where
  created_result-Apart :
      (input : NewCheckoutSession) (rows : List CheckoutSessionRecord)
      (c : Created CheckoutSessionRecord)
      → db.create clash (new_session input) rows ≡ c
      → Apart rows
      → Apart (created_result db input rows c).0
  unfolding created_result
  created_result-Apart input rows (stored after) e h =
      let made = db.created clash (new_session input) rows e in
      subst Apart (sym made.0) (Apart-concat rows (new_session input) h made.1)
  created_result-Apart input rows errored e h = h
  created_result-Apart input rows duplicate_key e h = h

  changed_result-Apart :
      (filter : CheckoutSessionRecord → Bool)
      (update : CheckoutSessionRecord → CheckoutSessionRecord) (rows : List CheckoutSessionRecord)
      (missed : Result CheckoutSessionRecord) (c : Changed CheckoutSessionRecord)
      → db.update_unique clash filter update rows ≡ c
      → ((s : CheckoutSessionRecord) → (update s).public_id ≡ s.public_id)
      → Apart rows
      → Apart (changed_result db rows missed c).0
  unfolding changed_result
  changed_result-Apart filter update rows missed (changed after s) e keeps h =
      let m = db.update_unique_changed clash filter update rows e in
      subst Apart (sym m.after_eq) (
        Distinct-replace (λ (d : CheckoutSessionRecord). d.public_id) m.ahead m.behind m.old
          (update m.old) (keeps m.old) (subst Apart m.before_eq h))
  changed_result-Apart filter update rows missed not_matched e keeps h = h
  changed_result-Apart filter update rows missed key_taken e keeps h = h

  create-Apart :
      (input : NewCheckoutSession) (rows : List CheckoutSessionRecord)
      → Apart rows
      → Apart (create db input rows).0
  unfolding create
  create-Apart input rows h = elim (Bool-cases (schema_accepts (new_session input))) [
    | inl fits ↦ rw fits (created_result-Apart input rows _ refl h)
    | inr not_fit ↦ rw not_fit h
  ]

  updated-Apart :
      (filter : CheckoutSessionRecord → Bool) (rank : CheckoutSessionRecord → ℕ)
      (update : CheckoutSessionRecord → CheckoutSessionRecord) (rows : List CheckoutSessionRecord)
      → ((s : CheckoutSessionRecord) → (update s).public_id ≡ s.public_id)
      → Apart rows
      → Apart (db.find_one_and_update filter rank update rows).0
  updated-Apart filter rank update rows keeps h =
      Distinct-find_one_and_update (λ (d : CheckoutSessionRecord). d.public_id) db filter rank
        update rows keeps h

  pub apply-Apart :
      (op : Op) (rows : List CheckoutSessionRecord) → Apart rows → Apart (apply db op rows)
  unfolding apply attach_razorpay_order mark_paid mark_refunded claim_order mark_order_created
      release_order_for_retry attach_update paid_update refunded_update claim_update created_update
      release_update
  apply-Apart (open_session input) rows h = create-Apart input rows h
  apply-Apart (attach id order status) rows h =
      changed_result-Apart (attach_filter id order) (attach_update order status) rows _ _ refl
        (λ s. refl) h
  apply-Apart (pay id order payment paid_at now) rows h =
      changed_result-Apart (paid_filter id order payment) (paid_update payment paid_at now) rows _ _
        refl (λ s. refl) h
  apply-Apart (refund id payment at) rows h =
      updated-Apart (refunded_filter id payment) (λ _. 0) (refunded_update at) rows (λ s. refl) h
  apply-Apart (claim id now) rows h =
      updated-Apart (claimable id now) paid_rank (claim_update now) rows (λ s. refl) h
  apply-Apart (link id order name at) rows h =
      updated-Apart (created_filter id order) (λ _. 0) (created_update order name at) rows
        (λ s. refl) h
  apply-Apart (release id next code message) rows h =
      updated-Apart (release_filter id) (λ _. 0) (release_update next code message) rows (λ s. refl)
        h

  pub apply_all-Apart :
      (ops : List Op) (rows : List CheckoutSessionRecord)
      → Apart rows
      → Apart (apply_all db ops rows)
  unfolding apply_all
  apply_all-Apart [] rows h = h
  apply_all-Apart (op ∷ ops) rows h = apply_all-Apart ops (apply db op rows) (apply-Apart op rows h)
