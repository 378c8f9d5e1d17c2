-- ===== src/Suppliers/Csv/Write.antt =====
-- How RFC 4180 writes the tables that src/suppliers/deodap/deodap.csv.ts reads: every cell quoted, a
-- quote in it doubled, and each row ended in one of the three ways. `rest` is what follows.
use trademart_b.Prelude.{ℕ, ◌+◌, List, [], ◌∷◌, ◌==◌, if◌then◌else◌, Chars}
use trademart_b.Suppliers.Csv.{CsvRecord, quote, lf, cr}

pub data LineEnd : Type 0 where
  unix windows lone_cr : LineEnd

unfoldable pub end_line : LineEnd → Chars → Chars
end_line unix rest = lf ∷ rest
end_line windows rest = cr ∷ lf ∷ rest
end_line lone_cr rest = cr ∷ rest

unfoldable pub doubled : Chars → Chars → Chars
doubled [] rest = quote ∷ rest
doubled (c ∷ cs) rest =
    let more = doubled cs rest in if c == quote then quote ∷ quote ∷ more else c ∷ more

unfoldable pub write_cell : Chars → Chars → Chars
unfolding doubled
write_cell cell rest = quote ∷ doubled cell rest

unfoldable pub write_row : ℕ → LineEnd → List Chars → Chars → Chars
unfolding write_cell end_line
write_row delimiter e [] rest = end_line e rest
write_row delimiter e (c ∷ []) rest = write_cell c (end_line e rest)
write_row delimiter e (c ∷ c' ∷ cs) rest =
    write_cell c (delimiter ∷ write_row delimiter e (c' ∷ cs) rest)

unfoldable pub write_rows : ℕ → LineEnd → List (List Chars) → Chars
unfolding write_row
write_rows delimiter e [] = []
write_rows delimiter e (r ∷ rs) = write_row delimiter e r (write_rows delimiter e rs)

-- The line breaks inside a cell, and inside a row's cells.
unfoldable pub breaks : Chars → ℕ
breaks [] = 0
breaks (c ∷ cs) = (if c == lf then 1 else 0) + breaks cs

unfoldable pub row_breaks : List Chars → ℕ
unfolding breaks
row_breaks [] = 0
row_breaks (c ∷ cs) = breaks c + row_breaks cs

-- Each row with the line it starts on.
unfoldable pub located : ℕ → List (List Chars) → List CsvRecord
unfolding row_breaks
located line [] = []
located line (r ∷ rs) = record { line = line; cells = r } ∷ located (line + row_breaks r + 1) rs
