-- ===== src/Storefront/Amount.antt =====
-- src/storefront/catalog/sellability.ts: the amounts in rupees, which are read from a text without
-- floating-point arithmetic. A text is the list of its characters' codes.
pub mod Digits
pub mod Spelled
pub mod Normal
use trademart_b.Prelude.{
  ℕ, ◌+◌, ◌-◌, ◌*◌, Bool, true, false, ◌&&◌, Option, none, some, List, [], ◌∷◌, ◌++◌, leb, ◌==◌,
  if◌then◌else◌, Chars, trim_chars,
}

-- `\d`
unfoldable pub is_digit : ℕ → Bool
is_digit c = leb 48 c && leb c 57

abbrev pub dot : ℕ
dot = 46

-- `\d+`, which takes all the digits there are, and what is left.
unfoldable pub digits : Chars → Chars
unfolding is_digit
digits [] = []
digits (c ∷ cs) = let rest = digits cs in if is_digit c then c ∷ rest else []

unfoldable pub after_digits : Chars → Chars
unfolding is_digit
after_digits [] = []
after_digits (c ∷ cs) = let rest = after_digits cs in if is_digit c then rest else c ∷ cs

-- `(?:\.(\d{1,2}))?$` and `.padEnd(2, '0')`
unfoldable pub match_fraction : Chars → Option (ℕ × ℕ)
unfolding is_digit
match_fraction [] = some (48, 48)
match_fraction (p ∷ a ∷ []) = if (p == dot) && is_digit a then some (a, 48) else none
match_fraction (p ∷ a ∷ b ∷ []) =
    if (p == dot) && is_digit a && is_digit b then some (a, b) else none
match_fraction _ = none

-- `.replace(/^0+(?=\d)/, '')`
unfoldable pub strip_zeros : Chars → Chars
strip_zeros [] = []
strip_zeros (c ∷ []) = c ∷ []
strip_zeros (c ∷ d ∷ ds) = let rest = strip_zeros (d ∷ ds) in if c == 48 then rest else c ∷ d ∷ ds

-- `BigInt(text)` of digits, after those that make `n`.
unfoldable pub big_int : ℕ → Chars → ℕ
big_int n [] = n
big_int n (c ∷ cs) = big_int (n * 10 + (c - 48)) cs

unfoldable pub normal_text : Chars → ℕ × ℕ → Chars
unfolding strip_zeros
normal_text major (a, b) = strip_zeros major ++ dot ∷ a ∷ b ∷ []

unfoldable pub paise_of : Chars → ℕ × ℕ → ℕ
unfolding big_int
paise_of major (a, b) = big_int 0 major * 100 + big_int 0 (a ∷ b ∷ [])

-- The text that a match gives, for an amount above nothing.
unfoldable pub normal_match : Chars → Option (ℕ × ℕ) → Option Chars
unfolding normal_text paise_of
normal_match [] _ = none
normal_match (c ∷ cs) none = none
normal_match (c ∷ cs) (some fraction) =
    if leb (paise_of (strip_zeros (c ∷ cs)) fraction) 0
    then none
    else some (normal_text (c ∷ cs) fraction)

unfoldable pub normalize_text : Chars → Option Chars
unfolding normal_match digits after_digits match_fraction
normalize_text text = normal_match (digits text) (match_fraction (after_digits text))

unfoldable pub normalize_inr_amount : Option Chars → Option Chars
unfolding normalize_text
normalize_inr_amount none = none
normalize_inr_amount (some raw) = normalize_text (trim_chars raw)

-- `normalized.split('.')`: what stands before the first dot, and what stands between it and the next.
unfoldable pub before_dot : Chars → Chars
before_dot [] = []
before_dot (c ∷ cs) = let rest = before_dot cs in if c == dot then [] else c ∷ rest

unfoldable pub after_dot : Chars → Chars
unfolding before_dot
after_dot [] = []
after_dot (c ∷ cs) = let rest = after_dot cs in if c == dot then before_dot cs else rest

unfoldable pub paise_of_normal : Option Chars → Option ℕ
unfolding before_dot after_dot big_int
paise_of_normal none = none
paise_of_normal (some text) = some (big_int 0 (before_dot text) * 100 + big_int 0 (after_dot text))

unfoldable pub inr_amount_to_paise : Chars → Option ℕ
unfolding normalize_inr_amount paise_of_normal
inr_amount_to_paise raw = paise_of_normal (normalize_inr_amount (some raw))
