-- ===== src/Storefront/Result.antt =====
-- Results of the storefront's services: src/storefront/checkout/storefront.error.ts. An error is its
-- code, its HTTP status and whether it can be retried; its message is left out.
use trademart_b.Prelude.{ℕ, Bool, true, false, ◌≡◌, refl}

pub data ErrorCode : Type 0 where
  validation_error product_unavailable variant_unavailable price_changed moq_not_met : ErrorCode
  payment_failed payment_pending payment_invalid_signature payment_mismatch : ErrorCode
  tracking_not_found idempotency_conflict database_unavailable internal_error : ErrorCode

pub record StorefrontError : Type 0 where
  pub code : ErrorCode
  pub status : ℕ
  pub retryable : Bool

pub data Result (A : Type 0) : Type 0 where
  ok : A → Result A
  err : StorefrontError → Result A

-- `throw new StorefrontError(code, …, status)`
abbrev pub throw : {A : Type 0} → ErrorCode → ℕ → Result A
throw code status = err (record { code = code; status = status; retryable = false })

-- `if (test) throw …`
abbrev pub refuse_if : Bool → ErrorCode → ℕ → Result (Unit {0})
refuse_if false code status = ok tt
refuse_if true code status = throw code status

pub refuse_if-eq-ok :
    (test : Bool) (code : ErrorCode) (status : ℕ) {u : Unit {0}}
    → refuse_if test code status ≡ ok u
    → test ≡ false
refuse_if-eq-ok true code status h = cc
refuse_if-eq-ok false code status h = refl

-- What follows a call runs only if the call has returned.
infixl 5 ◌>>=◌ ◌>>◌
abbrev pub ◌>>=◌ : {A B : Type 0} → Result A → (A → Result B) → Result B
err thrown >>= next = err thrown
ok value >>= next = next value

abbrev pub ◌>>◌ : {B : Type 0} → Result (Unit {0}) → Result B → Result B
check >> next = check >>= λ passed. next

-- A sequence of two calls that returns: both calls return.
pub >>=-eq-ok :
    {A B : Type 0} (call : Result A) (next : A → Result B) {answer : B}
    → (call >>= next) ≡ ok answer
    → (value : A) × (call ≡ ok value) × (next value ≡ ok answer)
>>=-eq-ok (err thrown) next returned = absurd (cc)
>>=-eq-ok (ok value) next returned = (value, refl, returned)

pub ok-injective : {A : Type 0} {a b : A} → ok a ≡ ok b → a ≡ b
ok-injective h = cc
