-- ===== src/Storefront/Checkout/Service/Resumed.antt =====
-- src/storefront/checkout/checkout.service.ts: the answer to a request whose session is there.
use mathlib.Core.Path.{subst}
use trademart_b.Prelude.{
  true, Option, none, some, List, ◌∷◌, ◌++◌, String, ◌≡◌, refl, sym, ap, ◌∙◌, arith, All, All-map,
  All-append_right, ◌===◌, ===_iff, Bool-cases, inl, inr,
}
use trademart_b.Mongo.{Collection, Changed, changed, not_matched, key_taken}
use trademart_b.Storefront.Result.{Result, ok, err, throw, idempotency_conflict, ok-injective}
use trademart_b.Storefront.Checkout.Types.{CheckoutSessionRecord}
use trademart_b.Storefront.Checkout.Repository.{
  attach_filter, attach_update, changed_result, attach_razorpay_order, database_error,
}
use trademart_b.Storefront.Checkout.Schema.{clash}
use trademart_b.Storefront.Checkout.Repository.Steps.{Keeps, apply_all-All}
use trademart_b.Storefront.Checkout.Service.{
  Surroundings, RazorpayOrder, CreateCheckoutResponse, response, response_of, attached,
  attach_order, order_payment, resume, answer_session,
}
use trademart_b.Storefront.Checkout.Service.Fixed.{Agrees, Fixed, Quiet, first, second, Quiet-Keeps}

-- The answer is that of a session which is stored, under this key and for this request: its Razorpay
-- order and its total.
pub record IsAnswered (key hash : String) (rows : List CheckoutSessionRecord)
    (r : CreateCheckoutResponse) : Type 0 where
  pub session : CheckoutSessionRecord
  pub ahead : List CheckoutSessionRecord
  pub behind : List CheckoutSessionRecord
  pub is_stored : rows ≡ ahead ++ session ∷ behind
  pub key_eq : session.idempotency_key ≡ key
  pub hash_eq : session.request_hash ≡ hash
  pub id_eq : r.checkout_session_id ≡ session.public_id
  pub order_eq : session.razorpay_order_id ≡ some r.razorpay_order_id
  pub amount_eq : r.amount_paise ≡ session.snapshot.total_paise

-- A session that stands among the rows, alone with its id.
pub record IsOnly (s : CheckoutSessionRecord) (rows : List CheckoutSessionRecord) : Type 0 where
  pub ahead : List CheckoutSessionRecord
  pub behind : List CheckoutSessionRecord
  pub split : rows ≡ ahead ++ s ∷ behind
  pub fixed : All (Fixed s) rows

module _ (around : Surroundings) (db : Collection CheckoutSessionRecord) where
  -- The response to a session with an order.
  record IsAbout (s : CheckoutSessionRecord) (r : CreateCheckoutResponse) : Type 0 where
    id_is : r.checkout_session_id ≡ s.public_id
    order_is : s.razorpay_order_id ≡ some r.razorpay_order_id
    amount_is : r.amount_paise ≡ s.snapshot.total_paise

  response_of-IsAbout :
      (s : CheckoutSessionRecord) (order : Option String) {r : CreateCheckoutResponse}
      → s.razorpay_order_id ≡ order
      → response_of around s order ≡ ok r
      → IsAbout s r
  unfolding response_of
  response_of-IsAbout s none e h = absurd (cc)
  response_of-IsAbout s (some order) e h = record {
    id_is = ap (λ (x : CreateCheckoutResponse). x.checkout_session_id) (sym (ok-injective h));
    order_is = e ∙ ap (λ (x : CreateCheckoutResponse). some x.razorpay_order_id) (ok-injective h);
    amount_is = ap (λ (x : CreateCheckoutResponse). x.amount_paise) (sym (ok-injective h));
  }

  attached_old :
      (s : CheckoutSessionRecord) (order : String) (ahead behind : List CheckoutSessionRecord)
      (old : CheckoutSessionRecord)
      → All (Fixed s) (ahead ++ old ∷ behind)
      → attach_filter s.public_id order old ≡ true
      → Agrees s old
  unfolding attach_filter
  attached_old s order ahead behind old all matched =
      (All-append_right (Fixed s) ahead (old ∷ behind) all).0
        (ground (arith, ===_iff old.public_id s.public_id))

  attached-IsAnswered :
      (s : CheckoutSessionRecord) (order status : String) (rows : List CheckoutSessionRecord)
      (c : Changed CheckoutSessionRecord) {after : List CheckoutSessionRecord}
      {r : CreateCheckoutResponse}
      → db.update_unique clash (attach_filter s.public_id order) (attach_update order status) rows
        ≡ c
      → All (Fixed s) rows
      → attached around db (changed_result db rows database_error c) ≡ (after, ok r)
      → IsAnswered s.idempotency_key s.request_hash after r
  unfolding attached changed_result response attach_update
  attached-IsAnswered s order status rows not_matched e fixed h = absurd (cc)
  attached-IsAnswered s order status rows key_taken e fixed h = absurd (cc)
  attached-IsAnswered s order status rows (changed rows' new) {after} {r} e fixed h =
      let m =
        db.update_unique_changed clash (attach_filter s.public_id order)
          (attach_update order status) rows e in
      let a =
        attached_old s order m.ahead m.behind m.old (subst (All (Fixed s)) m.before_eq fixed)
          m.matched in
      let answer = response_of-IsAbout new new.razorpay_order_id {r = r} refl (second h) in
      record {
        session = new;
        ahead = m.ahead;
        behind = m.behind;
        is_stored =
            sym (first h)
            ∙ m.after_eq
            ∙ ap (λ (d : CheckoutSessionRecord). m.ahead ++ d ∷ m.behind) (sym m.new_eq);
        key_eq = ap (λ (d : CheckoutSessionRecord). d.idempotency_key) m.new_eq ∙ a.key_eq;
        hash_eq = ap (λ (d : CheckoutSessionRecord). d.request_hash) m.new_eq ∙ a.hash_eq;
        id_eq = answer.id_is;
        order_eq = answer.order_is;
        amount_eq = answer.amount_is;
      }

  attach_order-IsAnswered :
      (s : CheckoutSessionRecord) (rows : List CheckoutSessionRecord) (x : Result RazorpayOrder)
      {after : List CheckoutSessionRecord} {r : CreateCheckoutResponse}
      → All (Fixed s) rows
      → attach_order around db s rows x ≡ (after, ok r)
      → IsAnswered s.idempotency_key s.request_hash after r
  unfolding attach_order attach_razorpay_order
  attach_order-IsAnswered s rows (err e) fixed h = absurd (cc)
  attach_order-IsAnswered s rows (ok order) fixed h =
      attached-IsAnswered s order.id order.status rows _ refl fixed h

  resume-IsAnswered :
      (s : CheckoutSessionRecord) (rows : List CheckoutSessionRecord) (order : Option String)
      {after : List CheckoutSessionRecord} {r : CreateCheckoutResponse}
      → s.razorpay_order_id ≡ order
      → IsOnly s rows
      → All (Quiet s.public_id) around.before_attach
      → resume around db s rows order ≡ (after, ok r)
      → IsAnswered s.idempotency_key s.request_hash after r
  unfolding resume order_payment response
  resume-IsAnswered s rows none e only quiet h =
      attach_order-IsAnswered s _ _
        (apply_all-All db (Fixed s) around.before_attach rows
          (All-map (Quiet s.public_id) (Keeps (Fixed s)) (Quiet-Keeps s) around.before_attach quiet)
          only.fixed)
        h
  resume-IsAnswered s rows (some order) {after} {r} e only quiet h =
      let answer = response_of-IsAbout s s.razorpay_order_id {r = r} refl (second h) in
      record {
        session = s;
        ahead = only.ahead;
        behind = only.behind;
        is_stored = sym (first h) ∙ only.split;
        key_eq = refl;
        hash_eq = refl;
        id_eq = answer.id_is;
        order_eq = answer.order_is;
        amount_eq = answer.amount_is;
      }

  refused_answer :
      {rows after : List CheckoutSessionRecord} {r : CreateCheckoutResponse}
      → ◌≡◌ {A = List CheckoutSessionRecord × Result CreateCheckoutResponse}
          (rows, throw idempotency_conflict 409)
          (after, ok r)
      → ⊥
  refused_answer h = cc

  pub answer_session-IsAnswered :
      (hash : String) (s : CheckoutSessionRecord) (rows : List CheckoutSessionRecord)
      {after : List CheckoutSessionRecord} {r : CreateCheckoutResponse}
      → IsOnly s rows
      → All (Quiet s.public_id) around.before_attach
      → answer_session around db hash s rows ≡ (after, ok r)
      → IsAnswered s.idempotency_key hash after r
  unfolding answer_session
  answer_session-IsAnswered hash s rows {after} {r} only quiet h =
      elim (Bool-cases (s.request_hash === hash)) [
        | inl equal ↦
            subst (λ (x : String). IsAnswered s.idempotency_key x after r)
              ((===_iff s.request_hash hash).0 equal)
              (resume-IsAnswered s rows s.razorpay_order_id refl only quiet (rw equal at h))
        | inr other ↦ absurd (refused_answer (rw other at h))
      ]
