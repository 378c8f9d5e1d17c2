-- ===== src/Suppliers/Csv/Detect.antt =====
-- Which delimiter src/suppliers/deodap/deodap.csv.ts finds in a header that Write writes.
use trademart_b.Prelude.{
  ℕ, ◌+◌, ◌<◌, inl, inr, true, false, ◌≡◌, refl, ◌∙◌, List, [], ◌∷◌, arith, Chars, length,
  Bool-cases, ◌==◌,
}
use trademart_b.Suppliers.Csv.{
  count_delimiters, detect_delimiter, chosen, quote, comma, semicolon, tab,
}
use trademart_b.Suppliers.Csv.Write.{
  LineEnd, unix, windows, lone_cr, end_line, doubled, write_cell, write_row,
}

-- One of the three delimiters, which a table of one column cannot show unless it is the comma.
pub data Delimits (header : List Chars) : ℕ → Type 0 where
  by_comma : Delimits header comma
  by_semicolon : 1 < length header → Delimits header semicolon
  by_tab : 1 < length header → Delimits header tab

module _ (commas semicolons tabs : ℕ) where
  count-doubled :
      (cell rest : Chars)
      → count_delimiters true commas semicolons tabs (doubled cell rest)
        ≡ count_delimiters false commas semicolons tabs rest
  unfolding count_delimiters doubled
  count-doubled [] rest = refl
  count-doubled (c ∷ cs) rest = elim (Bool-cases (c == quote)) [
    | inl same ↦ rw same (count-doubled cs rest)
    | inr other ↦ rw other (rw other (count-doubled cs rest))
  ]

  count-write_cell :
      (cell rest : Chars)
      → count_delimiters false commas semicolons tabs (write_cell cell rest)
        ≡ count_delimiters false commas semicolons tabs rest
  unfolding count_delimiters write_cell
  count-write_cell cell rest = count-doubled cell rest

  count-end_line :
      (kind : LineEnd) (rest : Chars)
      → count_delimiters false commas semicolons tabs (end_line kind rest)
        ≡ (commas, semicolons, tabs)
  unfolding count_delimiters end_line
  count-end_line unix rest = refl
  count-end_line windows rest = refl
  count-end_line lone_cr rest = refl

module _ (kind : LineEnd) where
  count_commas :
      (n : ℕ) (c : Chars) (cs : List Chars) (rest : Chars)
      → count_delimiters false n 0 0 (write_row comma kind (c ∷ cs) rest) ≡ (n + length cs, 0, 0)
  unfolding write_row count_delimiters
  count_commas n c [] rest =
      count-write_cell n 0 0 c _ ∙ count-end_line n 0 0 kind rest ∙ ground arith
  count_commas n c (c' ∷ cs) rest =
      count-write_cell n 0 0 c (comma ∷ write_row comma kind (c' ∷ cs) rest)
      ∙ count_commas (n + 1) c' cs rest
      ∙ ground arith

  count_semicolons :
      (n : ℕ) (c : Chars) (cs : List Chars) (rest : Chars)
      → count_delimiters false 0 n 0 (write_row semicolon kind (c ∷ cs) rest)
        ≡ (0, n + length cs, 0)
  unfolding write_row count_delimiters
  count_semicolons n c [] rest =
      count-write_cell 0 n 0 c _ ∙ count-end_line 0 n 0 kind rest ∙ ground arith
  count_semicolons n c (c' ∷ cs) rest =
      count-write_cell 0 n 0 c (semicolon ∷ write_row semicolon kind (c' ∷ cs) rest)
      ∙ count_semicolons (n + 1) c' cs rest
      ∙ ground arith

  count_tabs :
      (n : ℕ) (c : Chars) (cs : List Chars) (rest : Chars)
      → count_delimiters false 0 0 n (write_row tab kind (c ∷ cs) rest) ≡ (0, 0, n + length cs)
  unfolding write_row count_delimiters
  count_tabs n c [] rest =
      count-write_cell 0 0 n c _ ∙ count-end_line 0 0 n kind rest ∙ ground arith
  count_tabs n c (c' ∷ cs) rest =
      count-write_cell 0 0 n c (tab ∷ write_row tab kind (c' ∷ cs) rest)
      ∙ count_tabs (n + 1) c' cs rest
      ∙ ground arith

  pub detect_delimiter-write_row :
      (d : ℕ) (c : Chars) (cs : List Chars) (rest : Chars)
      → Delimits (c ∷ cs) d
      → detect_delimiter (write_row d kind (c ∷ cs) rest) ≡ d
  unfolding detect_delimiter chosen
  detect_delimiter-write_row d c cs rest by_comma = rw (count_commas 0 c cs rest) (ground arith)
  detect_delimiter-write_row d c cs rest (by_semicolon wide) =
      rw (count_semicolons 0 c cs rest) (ground arith)
  detect_delimiter-write_row d c cs rest (by_tab wide) = rw (count_tabs 0 c cs rest) (ground arith)
