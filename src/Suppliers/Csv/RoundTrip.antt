-- ===== src/Suppliers/Csv/RoundTrip.antt =====
-- The reader of src/suppliers/deodap/deodap.csv.ts on the tables that Write writes.
use trademart_b.Prelude.{
  ℕ, ◌+◌, ◌≤◌, ◌≡◌, refl, ap, ◌∙◌, List, [], ◌∷◌, arith, Chars, All, All-map, sym, length, false,
}
use trademart_b.Suppliers.Csv.{
  CsvRecord, Reading, ok, max_chars, max_records, read, finish, reading_start, pad, pad_records,
  table_of, detect_delimiter, without_bom, parse_csv,
}
use trademart_b.Suppliers.Csv.Header.{unique_headers, named_cells, length-headers}
use trademart_b.Suppliers.Csv.Write.{
  LineEnd, write_row, write_rows, write_cell, row_breaks, located,
}
use trademart_b.Suppliers.Csv.Quoted.{reading}
use trademart_b.Suppliers.Csv.Rows.{IsPlainRow, IsDelimiter, read-write_rows, no_cells}
use trademart_b.Suppliers.Csv.Detect.{
  Delimits, by_comma, by_semicolon, by_tab, detect_delimiter-write_row,
}

pad_same :
    {A : Type 0} (hs : List A) (cells : List Chars)
    → length cells ≡ length hs
    → pad hs cells ≡ cells
unfolding pad
pad_same [] [] e = refl
pad_same [] (c ∷ cs) e = absurd (omega arith)
pad_same (h ∷ hs) [] e = absurd (omega arith)
pad_same (h ∷ hs) (c ∷ cs) e = ap (λ (r : List Chars). c ∷ r) (pad_same hs cs (omega arith))

pad_records-located :
    (hs : List Chars) (line : ℕ) (rows : List (List Chars))
    → All (λ r. length r ≡ length hs) rows
    → pad_records hs (located line rows) ≡ located line rows
unfolding pad_records located
pad_records-located hs line [] same = refl
pad_records-located hs line (r ∷ rs) same = rw (pad_same hs r same.0) (
    ap (λ (others : List CsvRecord). record { line = line; cells = r } ∷ others)
      (pad_records-located hs (line + row_breaks r + 1) rs same.1))

without_bom-write_row :
    (d : ℕ) (kind : LineEnd) (c : Chars) (cs : List Chars) (rest : Chars)
    → without_bom (write_row d kind (c ∷ cs) rest) ≡ write_row d kind (c ∷ cs) rest
unfolding without_bom write_row write_cell
without_bom-write_row d kind c [] rest = refl
without_bom-write_row d kind c (c' ∷ cs) rest = refl

Delimits-IsDelimiter : {header : List Chars} {d : ℕ} → Delimits header d → IsDelimiter d
Delimits-IsDelimiter by_comma = ground arith
Delimits-IsDelimiter (by_semicolon wide) = ground arith
Delimits-IsDelimiter (by_tab wide) = ground arith

parse_csv-stages :
    (lower : Chars → Chars) (text : Chars) (d : ℕ) {s : Reading} {rows : List CsvRecord}
    → length text ≤ max_chars
    → without_bom text ≡ text
    → detect_delimiter text ≡ d
    → read d reading_start text ≡ ok s
    → finish s ≡ ok rows
    → parse_csv lower text ≡ table_of lower d rows
unfolding parse_csv
parse_csv-stages lower text d small plain found looped ended =
    rw (plain, found, looped, ended) (ground arith)

finish-reading :
    (rows : List CsvRecord) (l o : ℕ) → finish (reading rows [] [] false l l o) ≡ ok rows
unfolding finish
finish-reading rows l o = refl

table_of-located :
    (lower : Chars → Chars) (d : ℕ) (header first : List Chars) (others : List (List Chars))
    → All (λ r. length r ≡ length header) (first ∷ others)
    → table_of lower d (located 1 (header ∷ first ∷ others))
      ≡ ok (record {
        delimiter = d;
        headers = unique_headers lower (named_cells header);
        records = located (row_breaks header + 2) (first ∷ others);
      })
unfolding table_of
table_of-located lower d header first others width =
    let hs = unique_headers lower (named_cells header) in
    let shift : 1 + row_breaks header + 1 ≡ row_breaks header + 2 = omega arith in
    let fits : All (λ (r : List Chars). length r ≡ length hs) (first ∷ others) =
      All-map (λ (r : List Chars). length r ≡ length header) _
        (λ r e. e ∙ sym (length-headers lower header)) (first ∷ others) width in
    unfold located in
    rw shift (
      ap (λ (rs : List CsvRecord). ok (record { delimiter = d; headers = hs; records = rs }))
        (pad_records-located hs (row_breaks header + 2) (first ∷ others) fits))

module _ (lower : Chars → Chars) (d : ℕ) (kind : LineEnd) where
  -- A table whose cells are all quoted, with a quote in a cell doubled, is read back as it was
  -- written, for each of the three delimiters and each of the three line ends: the delimiter is
  -- found, each row is given with its cells and with the line that it starts on, line breaks inside
  -- cells counted, and the headers are the names made of the first row. The conditions: the text is
  -- within the limit; the rows, the header among them, have a cell that is not blank, at most 250
  -- cells and no carriage return in a cell; the other rows are as wide as the header, there is one at least and at most 5,000 of them;
  -- a delimiter other than the comma takes a header of two cells.
  pub parse_csv-write_rows :
      (header first : List Chars) (others : List (List Chars))
      → Delimits header d
      → All IsPlainRow (header ∷ first ∷ others)
      → All (λ r. length r ≡ length header) (first ∷ others)
      → length (first ∷ others) ≤ max_records
      → length (write_rows d kind (header ∷ first ∷ others)) ≤ max_chars
      → parse_csv lower (write_rows d kind (header ∷ first ∷ others))
        ≡ ok (record {
          delimiter = d;
          headers = unique_headers lower (named_cells header);
          records = located (row_breaks header + 2) (first ∷ others);
        })
  unfolding write_rows reading_start
  parse_csv-write_rows [] first others delimits plain width few small = absurd (no_cells plain.0)
  parse_csv-write_rows (c ∷ cs) first others delimits plain width few small =
      let header = c ∷ cs in
      let rest = write_rows d kind (first ∷ others) in
      let (l, o, e) =
        read-write_rows d (Delimits-IsDelimiter delimits) kind [] 1 0 (header ∷ first ∷ others)
          plain (omega arith) in
      parse_csv-stages lower (write_rows d kind (header ∷ first ∷ others)) d small
        (without_bom-write_row d kind c cs rest)
        (detect_delimiter-write_row kind d c cs rest delimits) e (finish-reading _ l o)
      ∙ table_of-located lower d header first others width
