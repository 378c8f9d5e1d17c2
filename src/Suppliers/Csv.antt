-- ===== src/Suppliers/Csv.antt =====
-- src/suppliers/deodap/deodap.csv.ts: the CSV reader. A text is the list of its characters' codes.
-- `toLowerCase` is the parameter `lower`. An error is the numbers that its message states.
pub mod Header
pub mod Write
pub mod Quoted
pub mod Rows
pub mod Detect
pub mod RoundTrip
pub mod Shape
use trademart_b.Prelude.{
  ℕ, ◌+◌, ◌≡◌, Bool, true, false, not, ◌&&◌, ◌||◌, Option, none, some, List, [], ◌∷◌, ◌++◌, map,
  ltb, leb, ◌==◌, if◌then◌else◌, length, Chars, blank_chars,
}
use trademart_b.Suppliers.Csv.Header.{unique_headers, named_cells}

pub record CsvRecord : Type 0 where
  pub line : ℕ
  pub cells : List Chars

pub record CsvTable : Type 0 where
  pub delimiter : ℕ
  pub headers : List Chars
  pub records : List CsvRecord

pub data CsvError : Type 0 where
  file_too_large too_many_rows empty_file no_product_rows : CsvError
  too_many_columns never_closed : ℕ → CsvError

pub data Result (A : Type 0) : Type 0 where
  ok : A → Result A
  err : CsvError → Result A

infixl 5 ◌>>=◌
abbrev pub ◌>>=◌ : {A B : Type 0} → Result A → (A → Result B) → Result B
ok a >>= f = f a
err e >>= f = err e

pub ok-injective : {A : Type 0} {a b : A} → ok a ≡ ok b → a ≡ b
ok-injective h = cc

abbrev pub max_chars : ℕ
max_chars = 950000

abbrev pub max_records : ℕ
max_records = 5000

abbrev pub max_columns : ℕ
max_columns = 250

-- The codes of `"`, `,`, `;`, tab, line feed and carriage return.
abbrev pub quote : ℕ
quote = 34

abbrev pub comma : ℕ
comma = 44

abbrev pub semicolon : ℕ
semicolon = 59

abbrev pub tab : ℕ
tab = 9

abbrev pub lf : ℕ
lf = 10

abbrev pub cr : ℕ
cr = 13

-- The counts of `detectDelimiter` at the end of its loop.
unfoldable pub count_delimiters : Bool → ℕ → ℕ → ℕ → Chars → ℕ × ℕ × ℕ
count_delimiters in_quotes commas semicolons tabs [] = (commas, semicolons, tabs)
count_delimiters in_quotes commas semicolons tabs (ch ∷ rest) =
    let flipped = count_delimiters (not in_quotes) commas semicolons tabs rest in
    let skipped = count_delimiters in_quotes commas semicolons tabs rest in
    let counted =
      count_delimiters in_quotes (if ch == comma then commas + 1 else commas)
        (if ch == semicolon then semicolons + 1 else semicolons)
        (if ch == tab then tabs + 1 else tabs) rest in
    if ch == quote
    then flipped
    else (if in_quotes
        then skipped
        else (if (ch == lf) || (ch == cr) then (commas, semicolons, tabs) else counted))

unfoldable pub chosen : ℕ × ℕ × ℕ → ℕ
chosen (commas, semicolons, tabs) =
    if ltb commas semicolons && leb tabs semicolons
    then semicolon
    else (if ltb commas tabs && ltb semicolons tabs then tab else comma)

unfoldable pub detect_delimiter : Chars → ℕ
unfolding count_delimiters chosen
detect_delimiter text = chosen (count_delimiters false 0 0 0 text)

-- The variables of `parseCsv`'s loop. `skip` says that `index` has been moved past the next character.
pub record Reading : Type 0 where
  pub records : List CsvRecord
  pub cells : List Chars
  pub field : Chars
  pub in_quotes : Bool
  pub line : ℕ
  pub record_start : ℕ
  pub quote_opened_on : ℕ
  pub skip : Bool

unfoldable pub reading_start : Reading
reading_start = record {
  records = [];
  cells = [];
  field = [];
  in_quotes = false;
  line = 1;
  record_start = 1;
  quote_opened_on = 0;
  skip = false;
}

-- `text.charAt(index + 1) === code`
unfoldable pub next_is : ℕ → Chars → Bool
next_is code [] = false
next_is code (ch ∷ rest) = ch == code

unfoldable pub some_filled : List Chars → Bool
some_filled [] = false
some_filled (c ∷ cs) = not (blank_chars c) || some_filled cs

abbrev pub is_empty : Chars → Bool
is_empty [] = true
is_empty (c ∷ cs) = false

-- `endRecord` once the field is among the cells.
unfoldable pub keep_record : Reading → List Chars → Result Reading
keep_record s cells =
    if some_filled cells
    then (if ltb max_columns (length cells)
        then err (too_many_columns s.record_start)
        else (if leb (max_records + 1) (length s.records)
            then err too_many_rows
            else ok (record s {
              records = s.records ++ record { line = s.record_start; cells = cells } ∷ [];
              cells = [];
              field = [];
            })))
    else ok (record s { cells = []; field = [] })

unfoldable pub end_record : Reading → Result Reading
unfolding keep_record
end_record s = keep_record s (s.cells ++ s.field ∷ [])

-- The loop's body inside quotes, and outside.
unfoldable pub read_quoted : Reading → ℕ → Chars → Reading
read_quoted s ch rest =
    if ch == quote
    then (if next_is quote rest
        then record s { field = s.field ++ quote ∷ []; skip = true }
        else record s { in_quotes = false })
    else (if ch == cr
        then record s { field = s.field ++ lf ∷ []; line = s.line + 1; skip = next_is lf rest }
        else record s {
          field = s.field ++ ch ∷ [];
          line = if ch == lf then s.line + 1 else s.line;
        })

unfoldable pub new_line : Bool → Reading → Reading
new_line skip s = record s { line = s.line + 1; record_start = s.line + 1; skip = skip }

unfoldable pub read_plain : ℕ → Reading → ℕ → Chars → Result Reading
read_plain delimiter s ch rest =
    if (ch == quote) && is_empty s.field
    then ok (record s { in_quotes = true; quote_opened_on = s.line })
    else (if ch == delimiter
        then ok (record s { cells = s.cells ++ s.field ∷ []; field = [] })
        else (if (ch == cr) || (ch == lf)
            then (end_record s >>= λ ended. ok (new_line ((ch == cr) && next_is lf rest) ended))
            else ok (record s { field = s.field ++ ch ∷ [] })))

unfoldable pub read_char : ℕ → Reading → ℕ → Chars → Result Reading
read_char delimiter s ch rest =
    if s.skip
    then ok (record s { skip = false })
    else (if s.in_quotes then ok (read_quoted s ch rest) else read_plain delimiter s ch rest)

unfoldable pub read : ℕ → Reading → Chars → Result Reading
read delimiter s [] = ok s
read delimiter s (ch ∷ rest) = read_char delimiter s ch rest >>= λ s'. read delimiter s' rest

-- After the loop.
unfoldable pub finish : Reading → Result (List CsvRecord)
finish s =
    if s.in_quotes
    then err (never_closed s.quote_opened_on)
    else (if not (is_empty s.field) || ltb 0 (length s.cells)
        then (end_record s >>= λ ended. ok ended.records)
        else ok s.records)

-- `cells.slice(0, width)`, padded with empty cells.
unfoldable pub pad : {A : Type 0} → List A → List Chars → List Chars
pad [] cells = []
pad (h ∷ hs) [] = [] ∷ pad hs []
pad (h ∷ hs) (c ∷ cs) = c ∷ pad hs cs

unfoldable pub pad_records : List Chars → List CsvRecord → List CsvRecord
unfolding pad
pad_records headers [] = []
pad_records headers (r ∷ rs) = record r { cells = pad headers r.cells } ∷ pad_records headers rs

unfoldable pub without_bom : Chars → Chars
without_bom [] = []
without_bom (ch ∷ rest) = if ch == 65279 then rest else ch ∷ rest

module _ (lower : Chars → Chars) where
  unfoldable pub table_of : ℕ → List CsvRecord → Result CsvTable
  unfolding unique_headers named_cells pad_records
  table_of delimiter [] = err empty_file
  table_of delimiter (header ∷ []) = err no_product_rows
  table_of delimiter (header ∷ first ∷ others) =
      let headers = unique_headers lower (named_cells header.cells) in
      ok (record {
        delimiter = delimiter;
        headers = headers;
        records = pad_records headers (first ∷ others);
      })

  unfoldable pub parse_csv : Chars → Result CsvTable
  parse_csv input =
      if ltb max_chars (length input)
      then err file_too_large
      else (let text = without_bom input in
          let delimiter = detect_delimiter text in
          read delimiter reading_start text >>= λ s. finish s >>= λ rows. table_of delimiter rows)
