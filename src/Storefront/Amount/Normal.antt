-- ===== src/Storefront/Amount/Normal.antt =====
-- An amount that was normalized is normal: src/storefront/catalog/sellability.ts.
use mathlib.Core.Path.{subst}
use trademart_b.Prelude.{
  ℕ, ◌+◌, ◌*◌, ◌<◌, ◌≡◌, ◌≢◌, refl, sym, ap, ◌∙◌, true, Option, none, some, [], ◌∷◌, ◌++◌, arith,
  Chars, trim_chars, trim_start_chars,
}
use trademart_b.Storefront.Amount.{
  is_digit, dot, digits, after_digits, match_fraction, strip_zeros, big_int, normal_text, paise_of,
  normal_match, normalize_text, normalize_inr_amount, before_dot, paise_of_normal,
  inr_amount_to_paise,
}
use trademart_b.Storefront.Amount.Spelled.{
  Spells, Spells-eq, big_int-strip_zeros, digits-split, matched-Spells,
}
use trademart_b.Storefront.Amount.Digits.{
  AreDigits, digits-AreDigits, digits-dot, after_digits-dot, digit-ne-dot, before_dot-digits,
  after_dot-digits, strip_zeros-AreDigits, strip_zeros-ne, strip_zeros-again, digit-ne-space,
  trim_end-kept, big_int-append,
}

-- A normal amount: digits without a zero in front, a dot and two digits.
pub record IsNormal (major : Chars) (a b : ℕ) : Type 0 where
  pub major_digits : AreDigits major
  pub some_major : major ≢ []
  pub stripped : strip_zeros major ≡ major
  pub first_digit : is_digit a ≡ true
  pub second_digit : is_digit b ≡ true

abbrev text : Chars → ℕ → ℕ → Chars
text major a b = major ++ dot ∷ a ∷ b ∷ []

trim-text :
    (major : Chars) (a b : ℕ) → IsNormal major a b → trim_chars (text major a b) ≡ text major a b
unfolding trim_chars trim_start_chars
trim-text [] a b n = absurd (n.some_major refl)
trim-text (x ∷ xs) a b n =
    rw (digit-ne-space x n.major_digits.0) (trim_end-kept (x ∷ xs) a b n.second_digit)

match_fraction-two :
    (a b : ℕ)
    → is_digit a ≡ true
    → is_digit b ≡ true
    → match_fraction (dot ∷ a ∷ b ∷ []) ≡ some (a, b)
unfolding match_fraction
match_fraction-two a b h k = rw h (rw k refl)

-- What a match gives.
match_fraction-lem :
    (cs : Chars) (a b : ℕ)
    → match_fraction cs ≡ some (a, b)
    → (is_digit a ≡ true) × (is_digit b ≡ true)
unfolding match_fraction is_digit
match_fraction-lem [] a b e = ground arith
match_fraction-lem (p ∷ []) a b e = absurd (cc)
match_fraction-lem (p ∷ x ∷ []) a b e = ground arith
match_fraction-lem (p ∷ x ∷ y ∷ []) a b e = ground arith
match_fraction-lem (p ∷ x ∷ y ∷ z ∷ zs) a b e = absurd (cc)

normal_match-lem :
    (major : Chars) (found : Option (ℕ × ℕ)) {n : Chars}
    → normal_match major found ≡ some n
    → (a : ℕ) × (b : ℕ) × (found ≡ some (a, b))
      × (major ≢ [])
      × (n ≡ text (strip_zeros major) a b)
      × (0 < paise_of (strip_zeros major) (a, b))
unfolding normal_match normal_text
normal_match-lem [] found e = absurd (cc)
normal_match-lem (c ∷ cs) none e = absurd (cc)
normal_match-lem (c ∷ cs) (some (a, b)) e = (a, b, refl, λ z. cc, ground arith, ground arith)

normal_match-normal :
    (major : Chars) (a b : ℕ)
    → IsNormal major a b
    → 0 < paise_of major (a, b)
    → normal_match major (some (a, b)) ≡ some (text major a b)
unfolding normal_match normal_text
normal_match-normal [] a b n above = absurd (n.some_major refl)
normal_match-normal (c ∷ cs) a b n above = rw n.stripped (ground arith)

normalize-text :
    (major : Chars) (a b : ℕ)
    → IsNormal major a b
    → 0 < paise_of major (a, b)
    → normalize_inr_amount (some (text major a b)) ≡ some (text major a b)
unfolding normalize_inr_amount normalize_text
normalize-text major a b n above = rw (trim-text major a b n) (
    rw (digits-dot major (a ∷ b ∷ []) n.major_digits) (
      rw (after_digits-dot major (a ∷ b ∷ []) n.major_digits) (
        rw (match_fraction-two a b n.first_digit n.second_digit)
          (normal_match-normal major a b n above))))

paise-text :
    (major : Chars) (a b : ℕ)
    → IsNormal major a b
    → paise_of_normal (some (text major a b)) ≡ some (paise_of major (a, b))
unfolding paise_of_normal paise_of before_dot
paise-text major a b n = rw (before_dot-digits major (a ∷ b ∷ []) n.major_digits) (
    rw (after_dot-digits major (a ∷ b ∷ []) n.major_digits)
      (rw (digit-ne-dot a n.first_digit) (rw (digit-ne-dot b n.second_digit) refl)))

-- The paise are the number that the digits make without the dot.
paise_of-digits :
    (major : Chars) (a b : ℕ) → paise_of major (a, b) ≡ big_int 0 (major ++ a ∷ b ∷ [])
unfolding paise_of big_int
paise_of-digits major a b = omega (arith, big_int-append 0 major (a ∷ b ∷ []))

-- The text is a normal amount, of this many paise.
pub record IsAmount (n : Chars) (paise : ℕ) : Type 0 where
  pub major : Chars
  pub tenth : ℕ
  pub hundredth : ℕ
  pub is_text : n ≡ major ++ dot ∷ tenth ∷ hundredth ∷ []
  pub normal : IsNormal major tenth hundredth
  pub paise_eq : paise ≡ big_int 0 (major ++ tenth ∷ hundredth ∷ [])
  pub above : 0 < paise

strip_zeros-IsNormal :
    (major : Chars) (a b : ℕ)
    → AreDigits major
    → major ≢ []
    → is_digit a ≡ true
    → is_digit b ≡ true
    → IsNormal (strip_zeros major) a b
strip_zeros-IsNormal [] a b h some_one ha hb = absurd (some_one refl)
strip_zeros-IsNormal (c ∷ cs) a b h some_one ha hb = record {
  major_digits = strip_zeros-AreDigits (c ∷ cs) h;
  some_major = strip_zeros-ne c cs;
  stripped = strip_zeros-again (c ∷ cs);
  first_digit = ha;
  second_digit = hb;
}

-- A price that is normalized spells its number of paise, as rupees, rupees with tenths or rupees with
-- hundredths between spaces, and is read as that number, which is above nothing. It becomes digits
-- without a zero in front, a dot and two digits, which make that number without the dot; and
-- normalizing and reading what it became change nothing more.
pub normalize_inr_amount-IsAmount :
    (raw n : Chars)
    → normalize_inr_amount (some raw) ≡ some n
    → (paise : ℕ) × (inr_amount_to_paise raw ≡ some paise)
      × Spells (trim_chars raw) paise
      × IsAmount n paise
      × (normalize_inr_amount (some n) ≡ some n)
      × (inr_amount_to_paise n ≡ some paise)
unfolding inr_amount_to_paise normalize_inr_amount normalize_text paise_of
normalize_inr_amount-IsAmount raw n e =
    let cs = trim_chars raw in
    let (a, b, matched, some_one, is, above) =
      normal_match-lem (digits cs) (match_fraction (after_digits cs)) {n = n} e in
    let major = strip_zeros (digits cs) in
    let two = match_fraction-lem (after_digits cs) a b matched in
    let normal = strip_zeros-IsNormal (digits cs) a b (digits-AreDigits cs) some_one two.0 two.1 in
    let paise = paise_of major (a, b) in
    let kept =
      subst (λ t. normalize_inr_amount (some t) ≡ some t) (sym is)
        (normalize-text major a b normal above) in
    let read =
      subst (λ t. paise_of_normal (some t) ≡ some paise) (sym is) (paise-text major a b normal) in
    (
      paise,
      ap paise_of_normal e ∙ read,
      Spells-eq (digits-split cs)
          (ap (λ m. m * 100 + big_int 0 (a ∷ b ∷ [])) (sym (big_int-strip_zeros (digits cs))))
          (matched-Spells (digits cs) (after_digits cs) a b (digits-AreDigits cs) matched),
      record {
        major = major;
        tenth = a;
        hundredth = b;
        is_text = is;
        normal = normal;
        paise_eq = paise_of-digits major a b;
        above = above;
      },
      kept,
      ap paise_of_normal kept ∙ read,
    )
