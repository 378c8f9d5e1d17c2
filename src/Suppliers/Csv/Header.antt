-- ===== src/Suppliers/Csv/Header.antt =====
-- The header row of src/suppliers/deodap/deodap.csv.ts: a name for each column.
use trademart_b.Prelude.{
  ℕ, suc, zero, ◌+◌, ◌/◌, ◌%◌, Bool, true, false, ◌&&◌, List, [], ◌∷◌, ◌++◌, ltb, ◌==◌,
  if◌then◌else◌, Chars, trim_chars, ◌≡◌, refl, length, arith,
}

-- A number in decimal, on fuel above its number of digits.
digits : ℕ → ℕ → Chars → Chars
digits zero n acc = acc
digits (suc fuel) n acc =
    let more = digits fuel (n / 10) ((48 + n % 10) ∷ acc) in
    if ltb n 10 then (48 + n) ∷ acc else more

unfoldable pub decimal : ℕ → Chars
unfolding digits
decimal n = digits (suc n) n []

abbrev pub same_codes : Chars → Chars → Bool
same_codes [] [] = true
same_codes [] (b ∷ bs) = false
same_codes (a ∷ more) [] = false
same_codes (a ∷ more) (b ∷ bs) = (a == b) && same_codes more bs

-- `seen.get(key) ?? 0`, the last write of a key first
unfoldable pub seen_count : Chars → List (Chars × ℕ) → ℕ
seen_count key [] = 0
seen_count key ((k, n) ∷ seen) =
    let rest = seen_count key seen in if same_codes k key then n else rest

unfoldable pub numbered_name : Chars → ℕ → Chars
unfolding decimal
numbered_name name count =
    if count == 1 then name else name ++ (32 ∷ 40 ∷ []) ++ decimal count ++ 41 ∷ []

-- `name.length > 0 ? name : "Column N"`
unfoldable pub column_name : ℕ → Chars → Chars
unfolding decimal
column_name index [] = (67 ∷ 111 ∷ 108 ∷ 117 ∷ 109 ∷ 110 ∷ 32 ∷ []) ++ decimal (index + 1)
column_name index (c ∷ cs) = c ∷ cs

unfoldable pub name_from : ℕ → List Chars → List Chars
unfolding column_name
name_from index [] = []
name_from index (cell ∷ cells) = column_name index (trim_chars cell) ∷ name_from (index + 1) cells

unfoldable pub named_cells : List Chars → List Chars
unfolding name_from
named_cells cells = name_from 0 cells

module _ (lower : Chars → Chars) where
  unfoldable pub headers_from : List (Chars × ℕ) → List Chars → List Chars
  unfolding seen_count numbered_name
  headers_from seen [] = []
  headers_from seen (name ∷ names) =
      let count = seen_count (lower name) seen + 1 in
      numbered_name name count ∷ headers_from ((lower name, count) ∷ seen) names

  unfoldable pub unique_headers : List Chars → List Chars
  unfolding headers_from
  unique_headers names = headers_from [] names

  pub length-headers_from :
      (seen : List (Chars × ℕ)) (names : List Chars)
      → length (headers_from seen names) ≡ length names
  unfolding headers_from
  length-headers_from seen [] = refl
  length-headers_from seen (name ∷ names) =
      let count = seen_count (lower name) seen + 1 in
      omega (arith, length-headers_from ((lower name, count) ∷ seen) names)

pub length-name_from :
    (index : ℕ) (cells : List Chars) → length (name_from index cells) ≡ length cells
unfolding name_from
length-name_from index [] = refl
length-name_from index (cell ∷ cells) = omega (arith, length-name_from (index + 1) cells)

pub length-headers :
    (lower : Chars → Chars) (cells : List Chars)
    → length (unique_headers lower (named_cells cells)) ≡ length cells
unfolding unique_headers named_cells
length-headers lower cells =
    omega (arith, length-headers_from lower [] (name_from 0 cells), length-name_from 0 cells)
