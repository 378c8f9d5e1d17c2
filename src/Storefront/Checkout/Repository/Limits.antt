-- ===== src/Storefront/Checkout/Repository/Limits.antt =====
-- What the bounds of the schema, src/database/models/CheckoutSession.ts, do to a large order.
use trademart_b.Prelude.{
  ◌≤◌, ◌≡◌, Bool-cases, inl, inr, refl, true, false, List, [], ◌∷◌, All, arith,
}
use trademart_b.Mongo.{Collection}
use trademart_b.Storefront.Checkout.Types.{
  CheckoutSnapshotLine, CheckoutSessionRecord, NewCheckoutSession,
}
use trademart_b.Storefront.Checkout.Repository.{new_session, create, database_error}
use trademart_b.Storefront.Checkout.Schema.{line_fits, lines_fit, schema_accepts}

lines_fit-quantity :
    (ls : List CheckoutSnapshotLine) → lines_fit ls ≡ true → All (λ l. l.quantity ≤ 10) ls
unfolding lines_fit line_fits
lines_fit-quantity [] h = tt
lines_fit-quantity (l ∷ ls) h = (ground arith, lines_fit-quantity ls (ground arith))

lines_fit-schema_accepts :
    (s : CheckoutSessionRecord) → lines_fit s.snapshot.lines ≡ false → schema_accepts s ≡ false
unfolding schema_accepts
lines_fit-schema_accepts s h = rw h refl

-- A checkout with a line of more than ten units is never stored: the sessions stay as they are, and the
-- answer is the database error.
pub create-over_limit :
    (db : Collection CheckoutSessionRecord) (input : NewCheckoutSession)
    (rows : List CheckoutSessionRecord)
    → ¬ All (λ l. l.quantity ≤ 10) input.snapshot.lines
    → create db input rows ≡ (rows, database_error)
unfolding create new_session
create-over_limit db input rows over = elim (Bool-cases (lines_fit input.snapshot.lines)) [
  | inl fits ↦ absurd (over (lines_fit-quantity input.snapshot.lines fits))
  | inr not_fit ↦ rw (lines_fit-schema_accepts (new_session input) not_fit) refl
]
