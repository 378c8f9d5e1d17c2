-- ===== src/Suppliers/Csv/Quoted.antt =====
-- The loop of src/suppliers/deodap/deodap.csv.ts over what Write writes: one lemma for a cell, one for
-- a row, one for all rows.
use trademart_b.Prelude.{
  ℕ, ◌+◌, Bool, true, false, ◌≡◌, ◌≢◌, refl, ap, ◌∙◌, List, [], ◌∷◌, ◌++◌, arith, Chars, All,
  Bool-cases, inl, inr, ◌==◌, if◌then◌else◌,
}
use mathlib.Core.List.{append-nil, append_assoc}
use trademart_b.Suppliers.Csv.{
  CsvRecord, Reading, ok, read, read_char, read_quoted, read_plain, next_is, quote, lf, cr,
}
use trademart_b.Suppliers.Csv.Write.{doubled, write_cell, breaks}

abbrev pub IsCrFree : Chars → Type 0
IsCrFree = All (λ c. c ≢ cr)

abbrev pub reading : List CsvRecord → List Chars → Chars → Bool → ℕ → ℕ → ℕ → Reading
reading records cells field in_quotes line start opened = record {
  records = records;
  cells = cells;
  field = field;
  in_quotes = in_quotes;
  line = line;
  record_start = start;
  quote_opened_on = opened;
  skip = false;
}

-- One round of the loop.
pub read-next :
    (d : ℕ) (s : Reading) (ch : ℕ) (rest : Chars) {s' : Reading}
    → read_char d s ch rest ≡ ok s'
    → read d s (ch ∷ rest) ≡ read d s' rest
unfolding read
read-next d s ch rest e = rw e refl

pub read-from : (d : ℕ) (s s' : Reading) (rest : Chars) → s ≡ s' → read d s rest ≡ read d s' rest
read-from d s s' rest e = ap (λ (r : Reading). read d r rest) e

module _ (d : ℕ) (rows : List CsvRecord) (cells : List Chars) (start opened : ℕ) where
  read_doubled_quote :
      (field : Chars) (line : ℕ) (rest : Chars)
      → read d (reading rows cells field true line start opened) (quote ∷ quote ∷ rest)
        ≡ read d (reading rows cells (field ++ quote ∷ []) true line start opened) rest
  unfolding read_char read_quoted next_is
  read_doubled_quote field line rest =
      read-next d (reading rows cells field true line start opened) quote (quote ∷ rest) refl
      ∙ read-next d
          (record (reading rows cells field true line start opened) {
            field = field ++ quote ∷ [];
            skip = true;
          })
          quote rest refl

  read_close :
      (field : Chars) (line : ℕ) (rest : Chars)
      → next_is quote rest ≡ false
      → read d (reading rows cells field true line start opened) (quote ∷ rest)
        ≡ read d (reading rows cells field false line start opened) rest
  unfolding read_char read_quoted
  read_close field line rest next =
      read-next d (reading rows cells field true line start opened) quote rest (rw next refl)

  read_plain_char :
      (field : Chars) (line c : ℕ) (rest : Chars)
      → (c == quote) ≡ false
      → c ≢ cr
      → read d (reading rows cells field true line start opened) (c ∷ rest)
        ≡ read d
            (reading rows cells
              (field ++ c ∷ [])
              true
              ((if c == lf then 1 else 0) + line)
              start
              opened)
            rest
  unfolding read_char read_quoted
  read_plain_char field line c rest other free =
      read-next d (reading rows cells field true line start opened) c rest (ground arith)

  read-doubled :
      (field : Chars) (line : ℕ) (cell rest : Chars)
      → IsCrFree cell
      → next_is quote rest ≡ false
      → read d (reading rows cells field true line start opened) (doubled cell rest)
        ≡ read d (reading rows cells (field ++ cell) false (line + breaks cell) start opened) rest
  unfolding doubled breaks
  read-doubled field line [] rest free next =
      read_close field line rest next ∙ read-from d _ _ rest (ground (arith, append-nil field))
  read-doubled field line (c ∷ cs) rest free next = elim (Bool-cases (c == quote)) [
    | inl same ↦ rw same (
        read_doubled_quote field line (doubled cs rest)
        ∙ read-doubled (field ++ quote ∷ []) line cs rest free.1 next
        ∙ read-from d _ _ rest (ground (arith, append_assoc field (quote ∷ []) cs)))
    | inr other ↦ rw other (
        read_plain_char field line c (doubled cs rest) other free.0
        ∙ read-doubled (field ++ c ∷ []) ((if c == lf then 1 else 0) + line) cs rest free.1 next
        ∙ read-from d _ _ rest (ground (arith, append_assoc field (c ∷ []) cs)))
  ]

-- A cell is read as it was written.
pub read-write_cell :
    (d : ℕ) (rows : List CsvRecord) (cells : List Chars) (line start opened : ℕ) (cell rest : Chars)
    → IsCrFree cell
    → next_is quote rest ≡ false
    → read d (reading rows cells [] false line start opened) (write_cell cell rest)
      ≡ read d (reading rows cells cell false (line + breaks cell) start line) rest
unfolding read_char read_plain write_cell
read-write_cell d rows cells line start opened cell rest free next =
    read-next d (reading rows cells [] false line start opened) quote (doubled cell rest) refl
    ∙ read-doubled d rows cells start line [] line cell rest free next
