-- ===== src/Suppliers/Csv/Rows.antt =====
-- The loop of src/suppliers/deodap/deodap.csv.ts over whole rows that Write writes.
use trademart_b.Prelude.{
  ℕ, ◌+◌, ◌≤◌, true, false, ◌≡◌, ◌≢◌, refl, ap, ◌∙◌, List, [], ◌∷◌, ◌++◌, arith, Chars, All, length,
  length-append, ◌==◌, ◌&&◌, ◌||◌,
}
use mathlib.Core.List.{append-nil, append_assoc}
use trademart_b.Suppliers.Csv.{
  CsvRecord, Reading, ok, read, read_char, read_plain, next_is, some_filled, keep_record,
  end_record, new_line, quote, lf, cr, max_columns, max_records,
}
use trademart_b.Suppliers.Csv.Quoted.{IsCrFree, reading, read-next, read-from, read-write_cell}
use trademart_b.Suppliers.Csv.Write.{
  LineEnd, unix, windows, lone_cr, end_line, write_cell, write_row, write_rows, breaks, row_breaks,
  located,
}

-- A row that the reader keeps, and gives back as it was written.
pub record IsPlainRow (row : List Chars) : Type 0 where
  pub filled : some_filled row ≡ true
  pub narrow : length row ≤ max_columns
  pub free : All IsCrFree row

pub record IsRoomy (rows : List CsvRecord) (cells : List Chars) : Type 0 where
  pub filled : some_filled cells ≡ true
  pub narrow : length cells ≤ max_columns
  pub room : length rows ≤ max_records

-- The state after a row.
abbrev pub ended : List CsvRecord → List Chars → ℕ → ℕ → ℕ → Reading
ended rows cells start line opened =
    reading (rows ++ record { line = start; cells = cells } ∷ []) [] [] false (line + 1) (line + 1)
      opened

keep_record-room :
    (s : Reading) (cells : List Chars)
    → IsRoomy s.records cells
    → keep_record s cells
      ≡ ok (record s {
        records = s.records ++ record { line = s.record_start; cells = cells } ∷ [];
        cells = [];
        field = [];
      })
unfolding keep_record
keep_record-room s cells room = ground arith

-- A skipped character changes nothing else.
read-skip :
    (d : ℕ) (s : Reading) (ch : ℕ) (rest : Chars)
    → read d (record s { skip = true }) (ch ∷ rest) ≡ read d (record s { skip = false }) rest
unfolding read_char
read-skip d s ch rest = read-next d (record s { skip = true }) ch rest refl

next_is-other : (code c : ℕ) (rest : Chars) → c ≢ code → next_is code (c ∷ rest) ≡ false
unfolding next_is
next_is-other code c rest ne = ground arith

pub no_cells : ¬ IsPlainRow []
unfolding some_filled
no_cells p = ground (arith, p.filled)

roomy :
    {rows : List CsvRecord} {row : List Chars}
    → IsPlainRow row
    → length rows ≤ max_records
    → IsRoomy rows row
roomy p room = record { filled = p.filled; narrow = p.narrow; room = room }

-- A row begins with a quote or a line end, so what is written never begins with a line feed after `\r`.
next_is-write_rows :
    (d : ℕ) (kind : LineEnd) (table : List (List Chars))
    → All IsPlainRow table
    → next_is lf (write_rows d kind table) ≡ false
unfolding next_is write_rows write_row write_cell
next_is-write_rows d kind [] all = refl
next_is-write_rows d kind ([] ∷ table) all = absurd (no_cells all.0)
next_is-write_rows d kind ((c ∷ []) ∷ table) all = refl
next_is-write_rows d kind ((c ∷ c' ∷ cs) ∷ table) all = refl

next_is-end_line : (kind : LineEnd) (rest : Chars) → next_is quote (end_line kind rest) ≡ false
unfolding next_is end_line
next_is-end_line unix rest = refl
next_is-end_line windows rest = refl
next_is-end_line lone_cr rest = refl

-- A delimiter is not one of the characters that the loop looks for first.
pub record IsDelimiter (d : ℕ) : Type 0 where
  pub ne_quote : d ≢ quote
  pub ne_lf : d ≢ lf
  pub ne_cr : d ≢ cr

module _ (d : ℕ) (separates : IsDelimiter d) where
  -- A line break ends the record.
  read-break :
      (rows : List CsvRecord) (cells : List Chars) (field : Chars) (line start opened ch : ℕ)
      (rest : Chars)
      → ((ch == cr) || (ch == lf)) ≡ true
      → IsRoomy rows (cells ++ field ∷ [])
      → read d (reading rows cells field false line start opened) (ch ∷ rest)
        ≡ read d
            (record (ended rows (cells ++ field ∷ []) start line opened) {
              skip = (ch == cr) && next_is lf rest;
            })
            rest
  unfolding read_char read_plain end_record new_line
  read-break rows cells field line start opened ch rest break room =
      let s : Reading = reading rows cells field false line start opened in
      read-next d s ch rest (ground (arith, keep_record-room s (cells ++ field ∷ []) room))

  read-end_line :
      (kind : LineEnd) (rows : List CsvRecord) (cells : List Chars) (field : Chars)
      (line start opened : ℕ) (rest : Chars)
      → IsRoomy rows (cells ++ field ∷ [])
      → next_is lf rest ≡ false
      → read d (reading rows cells field false line start opened) (end_line kind rest)
        ≡ read d (ended rows (cells ++ field ∷ []) start line opened) rest
  unfolding end_line next_is
  read-end_line unix rows cells field line start opened rest room next =
      read-break rows cells field line start opened lf rest refl room
  read-end_line windows rows cells field line start opened rest room next =
      read-break rows cells field line start opened cr (lf ∷ rest) refl room
      ∙ read-skip d (ended rows (cells ++ field ∷ []) start line opened) lf rest
  read-end_line lone_cr rows cells field line start opened rest room next =
      read-break rows cells field line start opened cr rest refl room
      ∙ read-from d _ _ rest (ground arith)

  read-delimiter :
      (rows : List CsvRecord) (cells : List Chars) (field : Chars) (line start opened : ℕ)
      (rest : Chars)
      → read d (reading rows cells field false line start opened) (d ∷ rest)
        ≡ read d (reading rows (cells ++ field ∷ []) [] false line start opened) rest
  unfolding read_char read_plain
  read-delimiter rows cells field line start opened rest =
      read-next d (reading rows cells field false line start opened) d rest (ground arith)

  -- A row is read as it was written, after the cells before it.
  read-write_row :
      (kind : LineEnd) (rows : List CsvRecord) (cells : List Chars) (line start opened : ℕ)
      (c : Chars) (cs : List Chars) (rest : Chars)
      → IsRoomy rows (cells ++ c ∷ cs)
      → All IsCrFree (c ∷ cs)
      → next_is lf rest ≡ false
      → (o : ℕ) × (read d
            (reading rows cells [] false line start opened)
            (write_row d kind (c ∷ cs) rest)
          ≡ read d (ended rows (cells ++ c ∷ cs) start (line + row_breaks (c ∷ cs)) o) rest)
  unfolding write_row row_breaks
  read-write_row kind rows cells line start opened c [] rest room free next = (
    line,
    read-write_cell d rows cells line start opened c (end_line kind rest) free.0
          (next_is-end_line kind rest)
        ∙ read-end_line kind rows cells c (line + breaks c) start line rest room next
        ∙ read-from d _ _ rest (ground arith),
  )
  read-write_row kind rows cells line start opened c (c' ∷ cs) rest room free next =
      let more = write_row d kind (c' ∷ cs) rest in
      let regroup = append_assoc cells (c ∷ []) (c' ∷ cs) in
      let (o, e) =
        read-write_row kind rows (cells ++ c ∷ []) (line + breaks c) start line c' cs rest
          (rw regroup room) free.1 next in
      (
        o,
        read-write_cell d rows cells line start opened c (d ∷ more) free.0
              (next_is-other quote d more separates.ne_quote)
            ∙ read-delimiter rows cells c (line + breaks c) start line more
            ∙ e
            ∙ read-from d _ _ rest (ground (arith, regroup)),
      )

  pub read-write_rows :
      (kind : LineEnd) (rows : List CsvRecord) (line opened : ℕ) (table : List (List Chars))
      → All IsPlainRow table
      → length rows + length table ≤ max_records + 1
      → (l : ℕ) × (o : ℕ) × (read d
            (reading rows [] [] false line line opened)
            (write_rows d kind table)
          ≡ ok (reading (rows ++ located line table) [] [] false l l o))
  unfolding write_rows located read
  read-write_rows kind rows line opened [] all few = (line, opened, ground (arith, append-nil rows))
  read-write_rows kind rows line opened ([] ∷ table) all few = absurd (no_cells all.0)
  read-write_rows kind rows line opened ((c ∷ cs) ∷ table) all few =
      let row = c ∷ cs in
      let rest = write_rows d kind table in
      let (o, e) =
        read-write_row kind rows [] line line opened c cs rest (roomy all.0 (omega arith))
          all.0.free (next_is-write_rows d kind table all.1) in
      let end = line + row_breaks row + 1 in
      let kept = rows ++ record { line = line; cells = row } ∷ [] in
      let (l, o', e') =
        read-write_rows kind kept end o table all.1
          (omega (arith, length-append rows (record { line = line; cells = row } ∷ []))) in
      (
        l,
        o',
        e
            ∙ e'
            ∙ ap (λ (r : List CsvRecord). ok (reading r [] [] false l l o'))
                (append_assoc rows (record { line = line; cells = row } ∷ []) (located end table)),
      )
