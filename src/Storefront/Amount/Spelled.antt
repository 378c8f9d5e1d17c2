-- ===== src/Storefront/Amount/Spelled.antt =====
-- The number that a text spells: src/storefront/catalog/sellability.ts.
use mathlib.Core.Path.{subst}
use trademart_b.Prelude.{
  ℕ, ◌*◌, ◌≡◌, refl, ap, true, some, [], ◌∷◌, ◌++◌, arith, ◌==◌, Chars, Bool-cases, inl, inr,
}
use trademart_b.Storefront.Amount.{
  is_digit, dot, digits, after_digits, match_fraction, strip_zeros, big_int, paise_of,
}
use trademart_b.Storefront.Amount.Digits.{AreDigits, big_int-append}

pub big_int-strip_zeros : (cs : Chars) → big_int 0 (strip_zeros cs) ≡ big_int 0 cs
unfolding strip_zeros big_int
big_int-strip_zeros [] = refl
big_int-strip_zeros (c ∷ []) = refl
big_int-strip_zeros (c ∷ d ∷ ds) = elim (Bool-cases (c == 48)) [
  | inl is ↦
      let zero_first : c ≡ 48 = ground arith in rw is (rw zero_first (big_int-strip_zeros (d ∷ ds)))
  | inr other ↦ rw other refl
]

pub digits-split : (cs : Chars) → digits cs ++ after_digits cs ≡ cs
unfolding digits after_digits
digits-split [] = refl
digits-split (c ∷ cs) = elim (Bool-cases (is_digit c)) [
  | inl is ↦ rw is (ap (λ xs. c ∷ xs) (digits-split cs))
  | inr other ↦ rw other refl
]

-- The texts of an amount: rupees, rupees with tenths, and rupees with hundredths.
pub data Spells : Chars → ℕ → Type 0 where
  whole : (xs : Chars) → AreDigits xs → Spells xs (big_int 0 xs * 100)
  tenths :
      (xs : Chars) (a : ℕ)
      → AreDigits xs
      → is_digit a ≡ true
      → Spells (xs ++ dot ∷ a ∷ []) (big_int 0 (xs ++ a ∷ []) * 10)
  hundredths :
      (xs : Chars) (a b : ℕ)
      → AreDigits xs
      → is_digit a ≡ true
      → is_digit b ≡ true
      → Spells (xs ++ dot ∷ a ∷ b ∷ []) (big_int 0 (xs ++ a ∷ b ∷ []))

pub Spells-eq : {cs ds : Chars} {m n : ℕ} → cs ≡ ds → m ≡ n → Spells cs m → Spells ds n
Spells-eq {cs} {ds} {m} {n} e k s = subst (λ x. Spells x n) e (subst (λ x. Spells cs x) k s)

append-none : (xs : Chars) → xs ≡ xs ++ []
append-none [] = refl
append-none (x ∷ xs) = ap (λ ys. x ∷ ys) (append-none xs)

pub matched-Spells :
    (xs rest : Chars) (a b : ℕ)
    → AreDigits xs
    → match_fraction rest ≡ some (a, b)
    → Spells (xs ++ rest) (paise_of xs (a, b))
unfolding match_fraction is_digit paise_of big_int
matched-Spells xs [] a b h e =
    let ea : a ≡ 48 = ground arith in
    let eb : b ≡ 48 = ground arith in
    Spells-eq (append-none xs) (omega (arith, ea, eb)) (whole xs h)
matched-Spells xs (p ∷ []) a b h e = absurd (cc)
matched-Spells xs (p ∷ x ∷ []) a b h e =
    let ep : dot ≡ p = ground arith in
    let ex : x ≡ a = ground arith in
    let eb : b ≡ 48 = ground arith in
    Spells-eq (ap (λ (y : ℕ). xs ++ y ∷ x ∷ []) ep)
      (omega (arith, big_int-append 0 xs (x ∷ []), ex, eb)) (tenths xs x h (ground arith))
matched-Spells xs (p ∷ x ∷ y ∷ []) a b h e =
    let ep : dot ≡ p = ground arith in
    let ex : x ≡ a = ground arith in
    let ey : y ≡ b = ground arith in
    Spells-eq (ap (λ (z : ℕ). xs ++ z ∷ x ∷ y ∷ []) ep)
      (omega (arith, big_int-append 0 xs (x ∷ y ∷ []), ex, ey))
      (hundredths xs x y h (ground arith) (ground arith))
matched-Spells xs (p ∷ x ∷ y ∷ z ∷ zs) a b h e = absurd (cc)
