-- ===== src/Suppliers/Csv/Shape.antt =====
-- The shape of every table that src/suppliers/deodap/deodap.csv.ts gives back.
use trademart_b.Prelude.{
  ℕ, ◌+◌, ◌≤◌, ◌<◌, ◌≡◌, ap, sym, false, refl, List, [], ◌∷◌, ◌++◌, arith, Chars, All, All-concat,
  length, length-append, Bool-cases, inl, inr, not, ◌&&◌, ◌||◌, if-kept, ltb, leb, ◌==◌,
}
use mathlib.Core.Path.{subst}
use trademart_b.Suppliers.Csv.{
  CsvRecord, CsvTable, Reading, Result, ok, err, CsvError, ok-injective, ◌>>=◌, max_columns,
  max_records, read, read_char, read_quoted, read_plain, keep_record, end_record, new_line, finish,
  reading_start, pad, pad_records, some_filled, table_of, parse_csv, detect_delimiter, without_bom,
  is_empty, next_is, lf, cr, quote, max_chars,
}
use trademart_b.Suppliers.Csv.Header.{unique_headers, named_cells, length-headers}

-- A record as it is kept: at most 250 cells.
pub record IsKept (r : CsvRecord) : Type 0 where
  pub narrow : length r.cells ≤ max_columns

pub record HasRoom (s : Reading) : Type 0 where
  pub kept : All IsKept s.records
  pub few : length s.records ≤ max_records + 1

-- What a successful result satisfies.
data Gives {A : Type 0} (P : A → Type 0) : Result A → Type 0 where
  gives : {a : A} → P a → Gives P (ok a)
  fails : {e : CsvError} → Gives P (err e)

Gives->>= :
    {A B : Type 0} (P : A → Type 0) (Q : B → Type 0) {m : Result A} (f : A → Result B)
    → Gives P m
    → ((a : A) → P a → Gives Q (f a))
    → Gives Q (m >>= f)
Gives->>= P Q f (gives {a} p) k = k a p
Gives->>= P Q f fails k = fails

room_left : {n : ℕ} → leb (max_records + 1) n ≡ false → n ≤ max_records
room_left h = ground arith

same-HasRoom : (s s' : Reading) → s'.records ≡ s.records → HasRoom s → HasRoom s'
same-HasRoom s s' e h = record {
  kept = subst (All IsKept) (sym e) h.kept;
  few = omega (arith, ap length e, h.few);
}

keep_record-HasRoom :
    (s : Reading) (cells : List Chars) → HasRoom s → Gives HasRoom (keep_record s cells)
unfolding keep_record
keep_record-HasRoom s cells h = elim (Bool-cases (some_filled cells)) [
  | inr blank ↦ rw blank (gives (record { kept = h.kept; few = h.few }))
  | inl filled ↦ elim (Bool-cases (ltb max_columns (length cells))) [
    | inl wide ↦ rw (filled, wide) fails
    | inr narrow ↦ elim (Bool-cases (leb (max_records + 1) (length s.records))) [
      | inl full ↦ rw (filled, narrow, full) fails
      | inr room ↦
          rw (filled, narrow, room)
            (gives (record {
              kept = All-concat IsKept s.records h.kept (record { narrow = ground arith });
              few = omega (
                arith,
                length-append s.records (record { line = s.record_start; cells = cells } ∷ []),
                room_left room,
              );
            }))
    ]
  ]
]

read_quoted-records :
    (s : Reading) (ch : ℕ) (rest : Chars) → (read_quoted s ch rest).records ≡ s.records
unfolding read_quoted
read_quoted-records s ch rest = ground arith

read_plain-HasRoom :
    (d : ℕ) (s : Reading) (ch : ℕ) (rest : Chars)
    → HasRoom s
    → Gives HasRoom (read_plain d s ch rest)
unfolding read_plain end_record new_line
read_plain-HasRoom d s ch rest h =
    if-kept (Gives HasRoom) ((ch == quote) && is_empty s.field) (gives (same-HasRoom s _ refl h)) (
      if-kept (Gives HasRoom) (ch == d) (gives (same-HasRoom s _ refl h)) (
        if-kept (Gives HasRoom) ((ch == cr) || (ch == lf))
          (Gives->>= HasRoom HasRoom (λ ended. ok (new_line ((ch == cr) && next_is lf rest) ended))
            (keep_record-HasRoom s (s.cells ++ s.field ∷ []) h)
            (λ ended k. gives (same-HasRoom ended _ refl k)))
          (gives (same-HasRoom s _ refl h))))

read_char-HasRoom :
    (d : ℕ) (s : Reading) (ch : ℕ) (rest : Chars)
    → HasRoom s
    → Gives HasRoom (read_char d s ch rest)
unfolding read_char
read_char-HasRoom d s ch rest h = if-kept (Gives HasRoom) s.skip (gives (same-HasRoom s _ refl h)) (
    if-kept (Gives HasRoom) s.in_quotes (gives (same-HasRoom s _ (read_quoted-records s ch rest) h))
      (read_plain-HasRoom d s ch rest h))

read-HasRoom : (d : ℕ) (s : Reading) (text : Chars) → HasRoom s → Gives HasRoom (read d s text)
unfolding read
read-HasRoom d s [] h = gives h
read-HasRoom d s (ch ∷ rest) h =
    Gives->>= HasRoom HasRoom (λ s'. read d s' rest) (read_char-HasRoom d s ch rest h)
      (λ s' k. read-HasRoom d s' rest k)

-- The header row and the data rows.
record AreKept (rows : List CsvRecord) : Type 0 where
  kept : All IsKept rows
  few : length rows ≤ max_records + 1

finish-AreKept : (s : Reading) → HasRoom s → Gives AreKept (finish s)
unfolding finish end_record
finish-AreKept s h = if-kept (Gives AreKept) s.in_quotes fails (
    if-kept (Gives AreKept) (not (is_empty s.field) || ltb 0 (length s.cells))
      (Gives->>= HasRoom AreKept (λ ended. ok ended.records)
        (keep_record-HasRoom s (s.cells ++ s.field ∷ []) h)
        (λ ended k. gives (record { kept = k.kept; few = k.few })))
      (gives (record { kept = h.kept; few = h.few })))

-- A table as it is given back: from 1 to 5,000 records, at most 250 columns, and in each record a
-- cell for each column.
pub record IsRectangular (t : CsvTable) : Type 0 where
  pub some_row : 0 < length t.records
  pub few : length t.records ≤ max_records
  pub narrow : length t.headers ≤ max_columns
  pub even : All (λ r. length r.cells ≡ length t.headers) t.records

length-pad : {A : Type 0} (hs : List A) (cells : List Chars) → length (pad hs cells) ≡ length hs
unfolding pad
length-pad [] cells = refl
length-pad (h ∷ hs) [] = omega (arith, length-pad hs [])
length-pad (h ∷ hs) (c ∷ cs) = omega (arith, length-pad hs cs)

length-pad_records :
    (hs : List Chars) (rows : List CsvRecord) → length (pad_records hs rows) ≡ length rows
unfolding pad_records
length-pad_records hs [] = refl
length-pad_records hs (r ∷ rs) = omega (arith, length-pad_records hs rs)

pad_records-even :
    (hs : List Chars) (rows : List CsvRecord)
    → All (λ r. length r.cells ≡ length hs) (pad_records hs rows)
unfolding pad_records
pad_records-even hs [] = tt
pad_records-even hs (r ∷ rs) = (length-pad hs r.cells, pad_records-even hs rs)

table_of-IsRectangular :
    (lower : Chars → Chars) (d : ℕ) (rows : List CsvRecord)
    → AreKept rows
    → Gives IsRectangular (table_of lower d rows)
unfolding table_of
table_of-IsRectangular lower d [] h = fails
table_of-IsRectangular lower d (header ∷ []) h = fails
table_of-IsRectangular lower d (header ∷ first ∷ others) h =
    let hs = unique_headers lower (named_cells header.cells) in
    let rows = first ∷ others in
    gives (record {
      some_row = omega (arith, length-pad_records hs rows);
      few = omega (arith, length-pad_records hs rows, h.few);
      narrow = omega (arith, length-headers lower header.cells, h.kept.0.narrow);
      even = pad_records-even hs rows;
    })

parse_csv-Gives :
    (lower : Chars → Chars) (input : Chars) → Gives IsRectangular (parse_csv lower input)
unfolding parse_csv reading_start
parse_csv-Gives lower input =
    let text = without_bom input in
    let d = detect_delimiter text in
    if-kept (Gives IsRectangular) (ltb max_chars (length input)) fails (
      Gives->>= HasRoom IsRectangular (λ s. finish s >>= λ rows. table_of lower d rows)
        (read-HasRoom d reading_start text (record { kept = tt; few = omega arith }))
        (λ s h.
          Gives->>= AreKept IsRectangular (λ rows. table_of lower d rows) (finish-AreKept s h)
            (λ rows k. table_of-IsRectangular lower d rows k)))

given : {A : Type 0} {P : A → Type 0} {m : Result A} {a : A} → Gives P m → m ≡ ok a → P a
given {P} (gives p) e = subst P (ok-injective e) p
given fails e = absurd (cc)

-- Every table that is read, from whatever text, has from 1 to 5,000 records and at most 250 columns,
-- and each of its records has exactly as many cells as there are headers.
pub parse_csv-IsRectangular :
    (lower : Chars → Chars) (input : Chars) {t : CsvTable}
    → parse_csv lower input ≡ ok t
    → IsRectangular t
parse_csv-IsRectangular lower input returned = given (parse_csv-Gives lower input) returned
