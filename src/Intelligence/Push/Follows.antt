-- ===== src/Intelligence/Push/Follows.antt =====
-- How a push's code is followed through the phases of Protocol: one rule for a call, one for a
-- sequence, and where a push inside its claim can stop.
use trademart_b.Prelude.{ℕ, Bool, true, false, Option, none, some, String, ◌≡◌, refl, ap, ◌∙◌}
use trademart_b.Intelligence.Push.Types.{PushAsDraftInput, PushAsDraftResult, Failure}
use trademart_b.Intelligence.Push.Ports.{
  Answer, returned, thrown, Run, M, next, noted, call, tried, tried_answer, raise_if, Event,
  released, clock, visible,
}
use trademart_b.Intelligence.Push.Protocol.{
  Phase, known, done, reported, from_released, advance, phase_of,
}

-- What holds of the state and the value, or of the state and the error.
pub data Ends {S A : Type 0} (Q : S → A → Type 0) (E : S → Failure → Type 0)
    : S × Answer A → Type 0 where
  returns : (s : S) (a : A) → Q s a → Ends Q E (s, returned a)
  throws : (s : S) (e : Failure) → E s e → Ends Q E (s, thrown e)

module _ {S A B : Type 0} (R : S → A → Type 0) (Q : S → B → Type 0)
    (D E : S → Failure → Type 0) where
  -- A sequence: the second part is followed from where the first returns.
  pub next-Ends :
      (f : A → M S B) {x : S × Answer A}
      → Ends R D x
      → ((s : S) (e : Failure) → D s e → E s e)
      → ((s : S) (a : A) → R s a → Ends Q E (f a s))
      → Ends Q E (next f x)
  unfolding next
  next-Ends f (returns s a r) stop go = go s a r
  next-Ends f (throws s e d) stop go = throws s e (stop s e d)

-- A phase with a product.
pub data Holds {N : Type 0} (id : String) : Phase N → Type 0 where
  known_id : (seen : Bool) → Holds id (known id seen)
  done_id : Holds id (done id)
  reported_id : Holds id (reported id)

pub Ends-map :
    {S A : Type 0} {R Q : S → A → Type 0} {D E : S → Failure → Type 0} {x : S × Answer A}
    → Ends R D x
    → ((s : S) (e : Failure) → D s e → E s e)
    → ((s : S) (a : A) → R s a → Q s a)
    → Ends Q E x
Ends-map (returns s a r) stop go = returns s a (go s a r)
Ends-map (throws s e d) stop go = throws s e (stop s e d)

module _ {N W : Type 0} (input : PushAsDraftInput N) where
  -- The calls of a run have led to a phase, and `shopifyProductId` is what it is.
  pub record At (p : Phase N) (product : Option String) (s : Run N W) : Type 0 where
    pub phase_eq : phase_of input s.calls ≡ p
    pub product_eq : s.product_id ≡ product

  pub At-eq :
      {p q : Phase N} {product : Option String} {s : Run N W}
      → p ≡ q
      → At p product s
      → At q product s
  At-eq e h = record { phase_eq = h.phase_eq ∙ e; product_eq = h.product_eq }

  module _ {A : Type 0} (event : Answer A → Event N) {p : Phase N} {product : Option String} where
    noted-Ends :
        (s : Run N W) (x : W × Answer A)
        → At p product s
        → Ends
            (λ s' a. At (advance input p (event (returned a))) product s')
            (λ s' e. At (advance input p (event (thrown e))) product s')
            (noted event s x)
    unfolding phase_of
    noted-Ends s (w, returned a) h = returns _ a (record {
      phase_eq = ap (λ (q : Phase N). advance input q (event (returned a))) h.phase_eq;
      product_eq = h.product_eq;
    })
    noted-Ends s (w, thrown e) h = throws _ e (record {
      phase_eq = ap (λ (q : Phase N). advance input q (event (thrown e))) h.phase_eq;
      product_eq = h.product_eq;
    })

    pub call-Ends :
        (op : W → W × Answer A) (s : Run N W)
        → At p product s
        → Ends
            (λ s' a. At (advance input p (event (returned a))) product s')
            (λ s' e. At (advance input p (event (thrown e))) product s')
            (call event op s)
    unfolding call
    call-Ends op s h = noted-Ends s (op s.world) h

    -- A call in a sequence.
    pub call-next :
        {B : Type 0} (Q : Run N W → B → Type 0) (E : Run N W → Failure → Type 0)
        (op : W → W × Answer A) (f : A → M (Run N W) B) (s : Run N W)
        → At p product s
        → ((s' : Run N W) (e : Failure)
            → At (advance input p (event (thrown e))) product s'
            → E s' e)
        → ((s' : Run N W) (a : A)
            → At (advance input p (event (returned a))) product s'
            → Ends Q E (f a s'))
        → Ends Q E (next f (call event op s))
    call-next Q E op f s h stop go = next-Ends _ Q _ E f (call-Ends op s h) stop go

    -- A call whose error is caught.
    pub tried-next :
        {B : Type 0} (Q : Run N W → B → Type 0) (E : Run N W → Failure → Type 0)
        (op : W → W × Answer A) (f : Option A → M (Run N W) B) (s : Run N W)
        → At p product s
        → ((s' : Run N W) (e : Failure)
            → At (advance input p (event (thrown e))) product s'
            → Ends Q E (f none s'))
        → ((s' : Run N W) (a : A)
            → At (advance input p (event (returned a))) product s'
            → Ends Q E (f (some a) s'))
        → Ends Q E (next f (tried (call event op) s))
    unfolding next tried_answer
    tried-next Q E op f s h stop go = caught (call-Ends op s h)
      where
        caught :
            {x : Run N W × Answer A}
            → Ends
                (λ s' a. At (advance input p (event (returned a))) product s')
                (λ s' e. At (advance input p (event (thrown e))) product s')
                x
            → Ends Q E (next f (tried_answer x))
        caught (returns s' a k) = go s' a k
        caught (throws s' e k) = stop s' e k

  -- The clock leaves the phase alone.
  pub clock-next :
      {B : Type 0} (Q : Run N W → B → Type 0) (E : Run N W → Failure → Type 0) {p : Phase N}
      {product : Option String} (now : W → W × ℕ) (f : ℕ → M (Run N W) B) (s : Run N W)
      → At p product s
      → ((s' : Run N W) (t : ℕ) → At p product s' → Ends Q E (f t s'))
      → Ends Q E (next f (clock now s))
  unfolding next
  clock-next Q E now f s h go =
      go _ (now s.world).1 (record { phase_eq = h.phase_eq; product_eq = h.product_eq })

  -- A value, or an error, that is at hand.
  pub answer-next :
      {A B : Type 0} (Q : Run N W → B → Type 0) (E : Run N W → Failure → Type 0) (x : Answer A)
      (f : A → M (Run N W) B) (s : Run N W)
      → ((e : Failure) → x ≡ thrown e → E s e)
      → ((a : A) → x ≡ returned a → Ends Q E (f a s))
      → Ends Q E (next f (s, x))
  unfolding next
  answer-next Q E (returned a) f s stop go = go a refl
  answer-next Q E (thrown e) f s stop go = throws s e (stop e refl)

  pub raise_if-next :
      {B : Type 0} (Q : Run N W → B → Type 0) (E : Run N W → Failure → Type 0) (test : Bool)
      (e : Failure) (f : Unit {0} → M (Run N W) B) (s : Run N W)
      → (test ≡ true → E s e)
      → (test ≡ false → Ends Q E (f tt s))
      → Ends Q E (next f (raise_if test e s))
  unfolding next
  raise_if-next Q E true e f s stop go = throws s e (stop refl)
  raise_if-next Q E false e f s stop go = go refl

  -- Where a push inside its claim can stop: no product is known and the claim can be given back, or
  -- the product is remembered.
  pub data Stopped (s : Run N W) : Type 0 where
    without_product :
        {p : Phase N}
        → At p none s
        → ((answered : Bool) → advance input p (released answered) ≡ from_released answered)
        → Stopped s
    with_product : {p : Phase N} {id : String} → At p (some id) s → Holds id p → Stopped s

  -- Where a push that returns has come to: the product is recorded, and it is hidden.
  pub record Finished (s : Run N W) (r : PushAsDraftResult N) : Type 0 where
    pub at_done : At (done r.shopify_product_id) (some r.shopify_product_id) s
    pub hidden : visible r.product_state ≡ false

  abbrev pub Follows : Run N W × Answer (PushAsDraftResult N) → Type 0
  Follows = Ends Finished (λ s e. Stopped s)
