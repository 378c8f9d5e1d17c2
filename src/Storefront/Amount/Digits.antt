-- ===== src/Storefront/Amount/Digits.antt =====
-- The digits, the dot and the zeros of an amount: src/storefront/catalog/sellability.ts.
use trademart_b.Prelude.{
  ℕ, ◌+◌, ◌-◌, ◌*◌, ◌≡◌, ◌≢◌, refl, ap, true, false, [], ◌∷◌, ◌++◌, arith, ◌==◌, All, Chars,
  trim_end_chars, before_end_chars, is_space, Bool-cases, inl, inr,
}
use trademart_b.Storefront.Amount.{
  is_digit, dot, digits, after_digits, strip_zeros, big_int, before_dot, after_dot,
}

abbrev pub AreDigits : Chars → Type 0
AreDigits cs = All (λ c. is_digit c ≡ true) cs

pub digits-AreDigits : (cs : Chars) → AreDigits (digits cs)
unfolding digits
digits-AreDigits [] = tt
digits-AreDigits (c ∷ cs) = elim (Bool-cases (is_digit c)) [
  | inl is ↦ rw is (is, digits-AreDigits cs)
  | inr other ↦ rw other tt
]

-- Digits before a dot are what is taken, and the rest is what is left.
pub digits-dot : (xs : Chars) (r : Chars) → AreDigits xs → digits (xs ++ dot ∷ r) ≡ xs
unfolding digits is_digit
digits-dot [] r h = refl
digits-dot (x ∷ xs) r h = rw h.0 (ap (λ ys. x ∷ ys) (digits-dot xs r h.1))

pub after_digits-dot :
    (xs : Chars) (r : Chars) → AreDigits xs → after_digits (xs ++ dot ∷ r) ≡ dot ∷ r
unfolding after_digits is_digit
after_digits-dot [] r h = refl
after_digits-dot (x ∷ xs) r h = rw h.0 (after_digits-dot xs r h.1)

pub digit-ne-dot : (c : ℕ) → is_digit c ≡ true → (c == dot) ≡ false
unfolding is_digit
digit-ne-dot c h = ground arith

pub before_dot-digits : (xs : Chars) (r : Chars) → AreDigits xs → before_dot (xs ++ dot ∷ r) ≡ xs
unfolding before_dot
before_dot-digits [] r h = refl
before_dot-digits (x ∷ xs) r h =
    rw (digit-ne-dot x h.0) (ap (λ ys. x ∷ ys) (before_dot-digits xs r h.1))

pub after_dot-digits :
    (xs : Chars) (r : Chars) → AreDigits xs → after_dot (xs ++ dot ∷ r) ≡ before_dot r
unfolding after_dot
after_dot-digits [] r h = refl
after_dot-digits (x ∷ xs) r h = rw (digit-ne-dot x h.0) (after_dot-digits xs r h.1)

pub strip_zeros-AreDigits : (cs : Chars) → AreDigits cs → AreDigits (strip_zeros cs)
unfolding strip_zeros
strip_zeros-AreDigits [] h = tt
strip_zeros-AreDigits (c ∷ []) h = h
strip_zeros-AreDigits (c ∷ d ∷ ds) h = elim (Bool-cases (c == 48)) [
  | inl is ↦ rw is (strip_zeros-AreDigits (d ∷ ds) h.1)
  | inr other ↦ rw other h
]

pub strip_zeros-ne : (c : ℕ) (cs : Chars) → strip_zeros (c ∷ cs) ≢ []
unfolding strip_zeros
strip_zeros-ne c [] e = cc
strip_zeros-ne c (d ∷ ds) e = elim (Bool-cases (c == 48)) [
  | inl is ↦ strip_zeros-ne d ds (rw is at e)
  | inr other ↦ let k = rw other at e in cc
]

pub strip_zeros-again : (cs : Chars) → strip_zeros (strip_zeros cs) ≡ strip_zeros cs
unfolding strip_zeros
strip_zeros-again [] = refl
strip_zeros-again (c ∷ []) = refl
strip_zeros-again (c ∷ d ∷ ds) = elim (Bool-cases (c == 48)) [
  | inl is ↦ rw is (strip_zeros-again (d ∷ ds))
  | inr other ↦ rw other (rw other refl)
]

-- A digit is not cut off by a trim.
pub digit-ne-space : (c : ℕ) → is_digit c ≡ true → is_space c ≡ false
unfolding is_digit is_space
digit-ne-space c h = ground arith

pub trim_end-kept :
    (xs : Chars) (a b : ℕ)
    → is_digit b ≡ true
    → trim_end_chars (xs ++ dot ∷ a ∷ b ∷ []) ≡ xs ++ dot ∷ a ∷ b ∷ []
unfolding trim_end_chars before_end_chars
trim_end-kept [] a b h = rw (digit-ne-space b h) refl
trim_end-kept (x ∷ []) a b h = rw (digit-ne-space b h) refl
trim_end-kept (x ∷ y ∷ ys) a b h = ap (before_end_chars x) (trim_end-kept (y ∷ ys) a b h)

pub big_int-append : (m : ℕ) (xs ys : Chars) → big_int m (xs ++ ys) ≡ big_int (big_int m xs) ys
unfolding big_int
big_int-append m [] ys = refl
big_int-append m (x ∷ xs) ys = big_int-append (m * 10 + (x - 48)) xs ys
