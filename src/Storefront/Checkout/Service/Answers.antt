-- ===== src/Storefront/Checkout/Service/Answers.antt =====
-- What src/storefront/checkout/checkout.service.ts answers, whatever other requests write while it
-- waits.
use mathlib.Core.Path.{subst}
use trademart_b.Prelude.{
  Bool, false, Option, none, some, List, [], ◌∷◌, ◌++◌, String, ◌≡◌, refl, sym, All, All-map,
  All-append_right, All-concat, ◌===◌, ===_iff, Bool-cases, inl, inr,
}
use trademart_b.Mongo.{Collection, Picked, Created, stored, duplicate_key, errored}
use trademart_b.Mongo.Keys.{Distinct, Distinct-only}
use trademart_b.Storefront.Result.{Result, ok, err}
use trademart_b.Storefront.Checkout.Types.{
  CreateCheckoutRequest, CheckoutSnapshot, CheckoutSessionRecord, NewCheckoutSession,
}
use trademart_b.Storefront.Checkout.Repository.{
  new_session, find_by_idempotency_key, create, created_result, or_throw, database_error,
}
use trademart_b.Storefront.Checkout.Schema.{clash, schema_accepts}
use trademart_b.Storefront.Checkout.Repository.Steps.{apply_all}
use trademart_b.Storefront.Checkout.Service.{
  Surroundings, CreateCheckoutResponse, new_checkout, approved_snapshot, answer_session, opened,
  open_checkout, create_found, create_checkout,
}
use trademart_b.Storefront.Checkout.Service.Fixed.{Fixed, Quiet, itself, apart}
use trademart_b.Storefront.Checkout.Service.Resumed.{IsAnswered, IsOnly, answer_session-IsAnswered}

module _ (around : Surroundings) (db : Collection CheckoutSessionRecord) where
  -- A session that a search has found is the only one with its id.
  Picked-IsOnly :
      (filter : CheckoutSessionRecord → Bool) (rows : List CheckoutSessionRecord)
      {s : CheckoutSessionRecord}
      → Distinct (λ (d : CheckoutSessionRecord). d.public_id) rows
      → Picked filter rows s
      → IsOnly s rows
  Picked-IsOnly filter rows {s} distinct p =
      let only =
        Distinct-only (λ (d : CheckoutSessionRecord). d.public_id) p.ahead p.behind s
          (subst (Distinct (λ (d : CheckoutSessionRecord). d.public_id)) p.split distinct) in
      record {
        ahead = p.ahead;
        behind = p.behind;
        split = p.split;
        fixed =
            subst (All (Fixed s)) (sym p.split)
              (All-map _ (Fixed s) (λ d f e. itself s d (f e)) (p.ahead ++ s ∷ p.behind) only);
      }

  -- No two sessions share an id, and while Razorpay is waited for no other request opens a session
  -- under an id that is in use, or under the new one.
  pub record IsUndisturbed (rows : List CheckoutSessionRecord) : Type 0 where
    pub distinct : Distinct (λ (d : CheckoutSessionRecord). d.public_id) rows
    pub others_quiet : All (λ d. All (Quiet d.public_id) around.before_attach) rows
    pub new_quiet : All (Quiet around.random_uuid) around.before_attach

  Picked-IsAnswered :
      (key hash : String) (rows : List CheckoutSessionRecord) {s : CheckoutSessionRecord}
      {after : List CheckoutSessionRecord} {r : CreateCheckoutResponse}
      → IsUndisturbed rows
      → Picked (λ d. d.idempotency_key === key) rows s
      → answer_session around db hash s rows ≡ (after, ok r)
      → IsAnswered key hash after r
  Picked-IsAnswered key hash rows {s} {after} {r} calm p h =
      let quiet =
        (All-append_right
          (λ (d : CheckoutSessionRecord). All (Quiet d.public_id) around.before_attach) p.ahead
          (s ∷ p.behind)
          (subst (All (λ (d : CheckoutSessionRecord). All (Quiet d.public_id) around.before_attach))
            p.split calm.others_quiet)).0 in
      subst (λ (x : String). IsAnswered x hash after r)
        ((===_iff s.idempotency_key key).0 p.matched)
        (answer_session-IsAnswered around db hash s rows (Picked-IsOnly _ rows calm.distinct p)
          quiet h)

  -- A session that has been stored is the only one with its id.
  created-IsOnly :
      (input : NewCheckoutSession) (rows : List CheckoutSessionRecord)
      {after : List CheckoutSessionRecord}
      → db.create clash (new_session input) rows ≡ stored after
      → IsOnly (new_session input) after
  created-IsOnly input rows e =
      let s = new_session input in
      let made = db.created clash s rows e in
      record {
        ahead = rows;
        behind = [];
        split = made.0;
        fixed = subst (All (Fixed s)) (sym made.0) (
            All-concat (Fixed s) rows
              (All-map (λ d. clash s d ≡ false) (Fixed s)
                (λ d c same_id. absurd (apart s d c same_id)) rows made.1)
              (λ same_id. itself s s refl));
      }

  module _ (request : CreateCheckoutRequest) (key : String) (rows : List CheckoutSessionRecord)
      (calm : IsUndisturbed rows) where
    reused-IsAnswered :
        (found : Option CheckoutSessionRecord) {after : List CheckoutSessionRecord}
        {r : CreateCheckoutResponse}
        → find_by_idempotency_key db key rows ≡ found
        → opened around db (around.request_hash request) (rows, or_throw db database_error found)
          ≡ (after, ok r)
        → IsAnswered key (around.request_hash request) after r
    unfolding opened or_throw find_by_idempotency_key
    reused-IsAnswered none e h = absurd (cc)
    reused-IsAnswered (some s) e h =
        Picked-IsAnswered key _ rows calm (db.found (λ d. d.idempotency_key === key) rows e) h

    stored-IsAnswered :
        (snapshot : CheckoutSnapshot) (c : Created CheckoutSessionRecord)
        {after : List CheckoutSessionRecord} {r : CreateCheckoutResponse}
        → db.create clash (new_session (new_checkout around request key snapshot)) rows ≡ c
        → opened around db
            (around.request_hash request)
            (created_result db (new_checkout around request key snapshot) rows c)
          ≡ (after, ok r)
        → IsAnswered key (around.request_hash request) after r
    unfolding opened created_result new_checkout new_session
    stored-IsAnswered snapshot errored e h = absurd (cc)
    stored-IsAnswered snapshot duplicate_key e h =
        reused-IsAnswered (find_by_idempotency_key db key rows) refl h
    stored-IsAnswered snapshot (stored rows') e h =
        answer_session-IsAnswered around db _ _ rows'
          (created-IsOnly (new_checkout around request key snapshot) rows e) calm.new_quiet h

    unstored_answer :
        {after : List CheckoutSessionRecord} {r : CreateCheckoutResponse}
        → opened around db (around.request_hash request) (rows, database_error) ≡ (after, ok r)
        → ⊥
    unfolding opened
    unstored_answer h = cc

    opened-IsAnswered :
        (x : Result CheckoutSnapshot) {after : List CheckoutSessionRecord}
        {r : CreateCheckoutResponse}
        → open_checkout around db request key rows x ≡ (after, ok r)
        → IsAnswered key (around.request_hash request) after r
    unfolding open_checkout create opened new_checkout
    opened-IsAnswered (err e) h = absurd (cc)
    opened-IsAnswered (ok snapshot) {after} {r} h =
        elim (Bool-cases
          (schema_accepts (new_session (new_checkout around request key snapshot)))) [
            | inl fits ↦ stored-IsAnswered snapshot _ refl (rw fits at h)
            | inr refused ↦ absurd (unstored_answer (rw refused at h))
          ]

  found-IsAnswered :
      (request : CreateCheckoutRequest) (key : String) (rows : List CheckoutSessionRecord)
      (found : Option CheckoutSessionRecord) {after : List CheckoutSessionRecord}
      {r : CreateCheckoutResponse}
      → find_by_idempotency_key db key rows ≡ found
      → IsUndisturbed rows
      → IsUndisturbed (apply_all db around.before_create rows)
      → create_found around db request key rows found ≡ (after, ok r)
      → IsAnswered key (around.request_hash request) after r
  unfolding create_found find_by_idempotency_key
  found-IsAnswered request key rows none e calm later h =
      opened-IsAnswered request key _ later (approved_snapshot around request) h
  found-IsAnswered request key rows (some s) e calm later h =
      Picked-IsAnswered key _ rows calm (db.found (λ d. d.idempotency_key === key) rows e) h

  -- Whatever other requests write while this one waits, a checkout is answered only with a session
  -- that is stored under the request's idempotency key and for a request with its hash: the Razorpay
  -- order is the session's, the amount is its snapshot's total, and the checkout's id is its id. So a
  -- key that was used for another cart is never answered. The conditions: session ids are distinct,
  -- and no other request opens a session under an id that is in use or under this request's new id.
  pub create_checkout-IsAnswered :
      (request : CreateCheckoutRequest) (key : String) (rows : List CheckoutSessionRecord)
      {after : List CheckoutSessionRecord} {r : CreateCheckoutResponse}
      → IsUndisturbed rows
      → IsUndisturbed (apply_all db around.before_create rows)
      → create_checkout around db request key rows ≡ (after, ok r)
      → IsAnswered key (around.request_hash request) after r
  unfolding create_checkout
  create_checkout-IsAnswered request key rows calm later h =
      found-IsAnswered request key rows (find_by_idempotency_key db key rows) refl calm later h
