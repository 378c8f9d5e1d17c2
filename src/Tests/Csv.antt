-- ===== src/Tests/Csv.antt =====
-- A table of two rows, written with semicolons, a quote and a line break inside a cell.
use trademart_b.Prelude.{◌+◌, List, [], ◌∷◌, ◌≡◌, refl, arith, Chars, blank_chars}
use trademart_b.Suppliers.Csv.{
  ok, parse_csv, some_filled, read, without_bom, read_char, reading_start, read_plain, read_quoted,
  next_is, detect_delimiter, end_record, new_line, finish, table_of,
}
use trademart_b.Suppliers.Csv.Header.{unique_headers, named_cells}
use trademart_b.Suppliers.Csv.Write.{windows, write_rows, located, row_breaks}
use trademart_b.Suppliers.Csv.Rows.{IsPlainRow}
use trademart_b.Suppliers.Csv.Detect.{by_semicolon}
use trademart_b.Suppliers.Csv.RoundTrip.{parse_csv-write_rows}
use trademart_b.Suppliers.Csv.Shape.{IsRectangular, parse_csv-IsRectangular}

abbrev header : List Chars
header = (65 ∷ []) ∷ (66 ∷ []) ∷ []

abbrev row : List Chars
row = (49 ∷ 34 ∷ 10 ∷ []) ∷ (50 ∷ []) ∷ []

abbrev same : Chars → Chars
same text = text

plain_header : IsPlainRow header
unfolding some_filled blank_chars
plain_header = record { filled = refl; narrow = omega arith; free = omega arith }

plain_row : IsPlainRow row
unfolding some_filled blank_chars
plain_row = record { filled = refl; narrow = omega arith; free = omega arith }

parse_csv-write_rows_example :
    parse_csv same (write_rows 59 windows (header ∷ row ∷ []))
    ≡ ok (record {
      delimiter = 59;
      headers = unique_headers same (named_cells header);
      records = located (row_breaks header + 2) (row ∷ []);
    })
unfolding write_rows some_filled blank_chars
parse_csv-write_rows_example =
    parse_csv-write_rows same 59 windows header row [] (by_semicolon (omega arith))
      (plain_header, (plain_row, tt)) (refl, tt) (omega arith) (omega arith)

parse_csv-IsRectangular_example :
    IsRectangular (record { delimiter = 59; headers = header; records = located 2 (row ∷ []) })
unfolding parse_csv write_rows located read without_bom read_char reading_start read_plain
    read_quoted next_is detect_delimiter end_record some_filled blank_chars new_line finish table_of
parse_csv-IsRectangular_example =
    parse_csv-IsRectangular same (write_rows 59 windows (header ∷ row ∷ [])) refl
