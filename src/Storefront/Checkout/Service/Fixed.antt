-- ===== src/Storefront/Checkout/Service/Fixed.antt =====
-- What the writes of src/storefront/checkout/checkout.repository.ts leave of a session.
use trademart_b.Prelude.{false, String, ◌≡◌, ◌≢◌, refl, ap, ◌∙◌, arith, ===_iff}
use trademart_b.Storefront.Checkout.Types.{CheckoutSessionRecord}
use trademart_b.Storefront.Checkout.Repository.{
  new_session, attach_update, paid_update, refunded_update, claim_update, created_update,
  release_update,
}
use trademart_b.Storefront.Checkout.Schema.{clash}
use trademart_b.Storefront.Checkout.Repository.Steps.{
  Op, open_session, attach, pay, refund, claim, link, release, Keeps,
}

-- A session under the id of `s` has the key, the request and the snapshot of `s`.
pub record Agrees (s d : CheckoutSessionRecord) : Type 0 where
  pub key_eq : d.idempotency_key ≡ s.idempotency_key
  pub hash_eq : d.request_hash ≡ s.request_hash
  pub snapshot_eq : d.snapshot ≡ s.snapshot

abbrev pub Fixed : CheckoutSessionRecord → CheckoutSessionRecord → Type 0
Fixed s d = d.public_id ≡ s.public_id → Agrees s d

-- The write opens no session under the id.
abbrev pub Quiet : String → Op → Type 0
Quiet id (open_session input) = input.public_id ≢ id
Quiet id _ = Unit {0}

same :
    (s d d' : CheckoutSessionRecord)
    → d'.idempotency_key ≡ d.idempotency_key
    → d'.request_hash ≡ d.request_hash
    → d'.snapshot ≡ d.snapshot
    → Agrees s d
    → Agrees s d'
same s d d' k h n a = record {
  key_eq = k ∙ a.key_eq;
  hash_eq = h ∙ a.hash_eq;
  snapshot_eq = n ∙ a.snapshot_eq;
}

pub itself : (s d : CheckoutSessionRecord) → d ≡ s → Agrees s d
itself s d e = record {
  key_eq = ap (λ (x : CheckoutSessionRecord). x.idempotency_key) e;
  hash_eq = ap (λ (x : CheckoutSessionRecord). x.request_hash) e;
  snapshot_eq = ap (λ (x : CheckoutSessionRecord). x.snapshot) e;
}

-- Two sessions that do not clash have different ids.
pub apart : (s d : CheckoutSessionRecord) → clash s d ≡ false → d.public_id ≡ s.public_id → ⊥
unfolding clash
apart s d c same_id = ground (arith, ===_iff s.public_id d.public_id)

pub first : {A B : Type 0} {x y : A × B} → x ≡ y → x.0 ≡ y.0
first e = ap (λ x. x.0) e

pub second : {A B : Type 0} {x y : A × B} → x ≡ y → x.1 ≡ y.1
second e = ap (λ x. x.1) e

pub Quiet-Keeps : (s : CheckoutSessionRecord) (op : Op) → Quiet s.public_id op → Keeps (Fixed s) op
unfolding new_session attach_update paid_update refunded_update claim_update created_update
    release_update
Quiet-Keeps s (open_session input) q = λ e. absurd (q e)
Quiet-Keeps s (attach id order status) q = λ d f m e. same s d _ refl refl refl (f e)
Quiet-Keeps s (pay id order payment paid_at now) q = λ d f m e. same s d _ refl refl refl (f e)
Quiet-Keeps s (refund id payment at) q = λ d f m e. same s d _ refl refl refl (f e)
Quiet-Keeps s (claim id now) q = λ d f m e. same s d _ refl refl refl (f e)
Quiet-Keeps s (link id order name at) q = λ d f m e. same s d _ refl refl refl (f e)
Quiet-Keeps s (release id next code message) q = λ d f m e. same s d _ refl refl refl (f e)
