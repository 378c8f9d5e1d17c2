-- ===== src/Storefront/Checkout/Repository/Steps.antt =====
-- The repository as a state machine: what its operations keep, in any order.
use mathlib.Core.Path.{subst}
use trademart_b.Prelude.{
  ℕ, ◌≡◌, refl, sym, Bool, true, Option, List, [], ◌∷◌, String, All, All-concat, Bool-cases, inl,
  inr,
}
use trademart_b.Mongo.{
  Collection, Created, stored, duplicate_key, errored, Changed, changed, not_matched, key_taken,
}
use trademart_b.Mongo.Laws.{All-Modified, All-find_one_and_update}
use trademart_b.Storefront.Result.{Result}
use trademart_b.Storefront.Checkout.Types.{CheckoutSessionRecord, NewCheckoutSession}
use trademart_b.Storefront.Checkout.Repository.{
  new_session, attach_filter, attach_update, paid_filter, paid_update, refunded_filter,
  refunded_update, claimable, claim_update, paid_rank, created_filter, created_update,
  release_filter, release_update, created_result, changed_result, create, attach_razorpay_order,
  mark_paid, mark_refunded, claim_order, mark_order_created, release_order_for_retry,
}
use trademart_b.Storefront.Checkout.Schema.{schema_accepts, clash}

-- A write of the repository, by whichever request, webhook or worker makes it.
pub data Op : Type 0 where
  open_session : NewCheckoutSession → Op
  attach : String → String → String → Op
  pay : String → String → String → ℕ → ℕ → Op
  refund : String → String → ℕ → Op
  claim : Option String → ℕ → Op
  link : String → String → String → ℕ → Op
  release : String → ℕ → String → String → Op

-- The write keeps `P`: on a new session, or on each session that it may update.
abbrev pub Keeps : (CheckoutSessionRecord → Type 0) → Op → Type 0
Keeps P (open_session input) = P (new_session input)
Keeps P (attach id order status) =
    (s : CheckoutSessionRecord)
    → P s
    → attach_filter id order s ≡ true
    → P (attach_update order status s)
Keeps P (pay id order payment paid_at now) =
    (s : CheckoutSessionRecord)
    → P s
    → paid_filter id order payment s ≡ true
    → P (paid_update payment paid_at now s)
Keeps P (refund id payment at) =
    (s : CheckoutSessionRecord)
    → P s
    → refunded_filter id payment s ≡ true
    → P (refunded_update at s)
Keeps P (claim id now) =
    (s : CheckoutSessionRecord) → P s → claimable id now s ≡ true → P (claim_update now s)
Keeps P (link id order name at) =
    (s : CheckoutSessionRecord)
    → P s
    → created_filter id order s ≡ true
    → P (created_update order name at s)
Keeps P (release id next code message) =
    (s : CheckoutSessionRecord)
    → P s
    → release_filter id s ≡ true
    → P (release_update next code message s)

module _ (db : Collection CheckoutSessionRecord) where
  unfoldable pub apply : Op → List CheckoutSessionRecord → List CheckoutSessionRecord
  apply (open_session input) rows = (create db input rows).0
  apply (attach id order status) rows = (attach_razorpay_order db id order status rows).0
  apply (pay id order payment paid_at now) rows = (mark_paid db id order payment paid_at now rows).0
  apply (refund id payment at) rows = (mark_refunded db id payment at rows).0
  apply (claim id now) rows = (claim_order db id now rows).0
  apply (link id order name at) rows = (mark_order_created db id order name at rows).0
  apply (release id next code message) rows = release_order_for_retry db id next code message rows

  unfoldable pub apply_all : List Op → List CheckoutSessionRecord → List CheckoutSessionRecord
  unfolding apply
  apply_all [] rows = rows
  apply_all (op ∷ ops) rows = apply_all ops (apply op rows)

  module _ (P : CheckoutSessionRecord → Type 0) where
    created_result-All :
        (input : NewCheckoutSession) (rows : List CheckoutSessionRecord)
        (c : Created CheckoutSessionRecord)
        → db.create clash (new_session input) rows ≡ c
        → P (new_session input)
        → All P rows
        → All P (created_result db input rows c).0
    unfolding created_result
    created_result-All input rows (stored after) e p h =
        subst (All P) (sym (db.created clash (new_session input) rows e).0) (All-concat P rows h p)
    created_result-All input rows errored e p h = h
    created_result-All input rows duplicate_key e p h = h

    changed_result-All :
        (filter : CheckoutSessionRecord → Bool)
        (update : CheckoutSessionRecord → CheckoutSessionRecord) (rows : List CheckoutSessionRecord)
        (missed : Result CheckoutSessionRecord) (c : Changed CheckoutSessionRecord)
        → db.update_unique clash filter update rows ≡ c
        → ((s : CheckoutSessionRecord) → P s → filter s ≡ true → P (update s))
        → All P rows
        → All P (changed_result db rows missed c).0
    unfolding changed_result
    changed_result-All filter update rows missed (changed after s) e keep h =
        All-Modified P keep (db.update_unique_changed clash filter update rows e) h
    changed_result-All filter update rows missed not_matched e keep h = h
    changed_result-All filter update rows missed key_taken e keep h = h

    -- Either the write is refused before the database is asked, or the database decides.
    create-All :
        (input : NewCheckoutSession) (rows : List CheckoutSessionRecord)
        → P (new_session input)
        → All P rows
        → All P (create db input rows).0
    unfolding create
    create-All input rows p h = elim (Bool-cases (schema_accepts (new_session input))) [
      | inl fits ↦ rw fits (created_result-All input rows _ refl p h)
      | inr not_fit ↦ rw not_fit h
    ]

    pub apply-All :
        (op : Op) (rows : List CheckoutSessionRecord)
        → Keeps P op
        → All P rows
        → All P (apply op rows)
    unfolding apply attach_razorpay_order mark_paid mark_refunded claim_order mark_order_created
        release_order_for_retry
    apply-All (open_session input) rows k h = create-All input rows k h
    apply-All (attach id order status) rows k h =
        changed_result-All (attach_filter id order) (attach_update order status) rows _ _ refl k h
    apply-All (pay id order payment paid_at now) rows k h =
        changed_result-All (paid_filter id order payment) (paid_update payment paid_at now) rows _ _
          refl k h
    apply-All (refund id payment at) rows k h =
        All-find_one_and_update db P (refunded_filter id payment) (λ _. 0) (refunded_update at) rows
          k h
    apply-All (claim id now) rows k h =
        All-find_one_and_update db P (claimable id now) paid_rank (claim_update now) rows k h
    apply-All (link id order name at) rows k h =
        All-find_one_and_update db P (created_filter id order) (λ _. 0)
          (created_update order name at) rows k h
    apply-All (release id next code message) rows k h =
        All-find_one_and_update db P (release_filter id) (λ _. 0) (release_update next code message)
          rows k h

    -- What every write of a sequence keeps holds after the sequence.
    pub apply_all-All :
        (ops : List Op) (rows : List CheckoutSessionRecord)
        → All (Keeps P) ops
        → All P rows
        → All P (apply_all ops rows)
    unfolding apply_all
    apply_all-All [] rows k h = h
    apply_all-All (op ∷ ops) rows k h =
        apply_all-All ops (apply op rows) k.1 (apply-All op rows k.0 h)
