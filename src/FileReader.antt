-- ===== src/FileReader.antt =====
-- src/tcp_sim/engine/file_reader.py: the reader of delimited files. What `csv.reader` and the file give
-- are arguments: for each row its fields and the number of the line at its end, and the raw lines.
pub mod Rows
pub mod Valid
pub mod Selection
mod Tests
use tcp_server_simulator.Prelude.{
  Bool, Bytes, List, Option, Result, [], drop, false, flatten, if◌then◌else◌, leb, length, ltb,
  none, not, ok, raise_if, some, suc, take, true, value_error, zero, ℕ, ◌&&◌, ◌+◌, ◌-◌, ◌==◌, ◌>>◌,
  ◌∷◌,
}

abbrev pub Fields : Type 0
Fields = List Bytes

-- What `_iter_rows_with_raw` yields.
pub record Row : Type 0 where
  pub raw_row_number : ℕ
  pub raw_text : Bytes
  pub fields : Fields

-- `RawRowRecord`, and `RowRecord`, which has no text.
pub record RowRecord : Type 0 where
  pub data_line_number : ℕ
  pub fields : Fields
  pub raw_text : Option Bytes

pub record PreviewRow : Type 0 where
  pub raw_row_number : ℕ
  pub fields : Fields
  pub valid : Bool

pub record ScanSnapshot : Type 0 where
  pub total_rows : ℕ
  pub data_rows : ℕ
  pub valid_rows : ℕ
  pub invalid_rows : ℕ
  pub processed_rows : ℕ
  pub completed : Bool

pub record FileReader : Type 0 where
  pub has_header : Bool
  pub header : Option Fields
  pub header_raw : Option Bytes
  pub expected_columns : Option ℕ
  pub scan_snapshot : ScanSnapshot

abbrev pub empty_snapshot : ScanSnapshot
empty_snapshot = record {
  total_rows = 0;
  data_rows = 0;
  valid_rows = 0;
  invalid_rows = 0;
  processed_rows = 0;
  completed = false;
}

-- `__init__`
unfoldable pub init : Bool → FileReader
init has_header = record {
  has_header = has_header;
  header = none;
  header_raw = none;
  expected_columns = none;
  scan_snapshot = empty_snapshot;
}

-- `_iter_rows_with_raw`, from a number of consumed lines on.
unfoldable pub iter_rows_from : ℕ → List Bytes → List (ℕ × Fields) → List Row
iter_rows_from consumed_lines raw_lines [] = []
iter_rows_from consumed_lines raw_lines ((end_line, row) ∷ rows) =
    record {
      raw_row_number = consumed_lines + 1;
      raw_text = flatten (take (end_line - consumed_lines) (drop consumed_lines raw_lines));
      fields = row;
    }
    ∷ iter_rows_from end_line raw_lines rows

unfoldable pub iter_rows_with_raw : List Bytes → List (ℕ × Fields) → List Row
unfolding iter_rows_from
iter_rows_with_raw = iter_rows_from 0

-- `_is_valid_data_row`
abbrev pub check_row : Option ℕ → Fields → FileReader → FileReader × Bool
check_row none row r = (record r { expected_columns = some (length row) }, true)
check_row (some n) row r = (r, length row == n)

unfoldable pub is_valid_data_row : Fields → FileReader → FileReader × Bool
is_valid_data_row row r = check_row r.expected_columns row r

-- `_reset_scan_state`
unfoldable pub reset_scan_state : FileReader → FileReader
reset_scan_state r = record r {
  header = none;
  header_raw = none;
  expected_columns = none;
  scan_snapshot = empty_snapshot;
}

abbrev pub is_below_one : Option ℕ → Bool
is_below_one none = false
is_below_one (some n) = ltb n 1

abbrev pub is_reversed : Option ℕ → Option ℕ → Bool
is_reversed (some start_line) (some end_line) = ltb end_line start_line
is_reversed _ _ = false

-- `_validate_line_controls`
unfoldable pub validate_line_controls : Option ℕ → Option ℕ → Option ℕ → Result (Unit {0})
validate_line_controls start_line end_line first_n = do
  raise_if (is_below_one start_line) value_error
  raise_if (is_below_one end_line) value_error
  raise_if (is_below_one first_n) value_error
  raise_if (is_reversed start_line end_line) value_error
  ok tt

abbrev pub is_before : ℕ → Option ℕ → Bool
is_before n none = false
is_before n (some start_line) = ltb n start_line

abbrev pub is_behind : ℕ → Option ℕ → Bool
is_behind n none = false
is_behind n (some end_line) = ltb end_line n

-- `_line_is_selected`
unfoldable pub line_is_selected : ℕ → Option ℕ → Option ℕ → Bool
line_is_selected n start_line end_line = not (is_before n start_line) && not (is_behind n end_line)

abbrev pub is_none {ℓ} : {A : Type ℓ} → Option A → Bool
is_none none = true
is_none (some a) = false

-- The header row, with its text where the rows are read with theirs.
abbrev pub take_header : Bool → Row → FileReader → FileReader
take_header with_raw row r = record r {
  header = some row.fields;
  header_raw = if with_raw then some row.raw_text else r.header_raw;
  expected_columns = some (length row.fields);
}

abbrev pub publish : ℕ → Bool → ScanSnapshot → FileReader → FileReader
publish processed_rows completed s r = record r {
  scan_snapshot = record s { processed_rows = processed_rows; completed = completed };
}

-- The counters behind a data row.
abbrev pub count_row : Bool → ScanSnapshot → ScanSnapshot
count_row true s = record s {
  total_rows = s.total_rows + 1;
  data_rows = s.data_rows + 1;
  valid_rows = s.valid_rows + 1;
}
count_row false s = record s {
  total_rows = s.total_rows + 1;
  data_rows = s.data_rows + 1;
  invalid_rows = s.invalid_rows + 1;
}

-- The loop of `scan_file`.
unfoldable pub scan_rows : List Row → ScanSnapshot → FileReader → ScanSnapshot × FileReader
unfolding is_valid_data_row
scan_rows [] s r = (s, r)
scan_rows (row ∷ rows) s r =
    let s' = record s { total_rows = s.total_rows + 1 } in
    let in_header =
      scan_rows rows s' (publish row.raw_row_number false s' (take_header false row r)) in
    let checked = is_valid_data_row row.fields r in
    let s'' = count_row checked.1 s in
    let in_data = scan_rows rows s'' (publish row.raw_row_number false s'' checked.0) in
    if r.has_header && is_none r.header then in_header else in_data

-- `scan_file`
unfoldable pub scan_file : List Row → FileReader → FileReader
unfolding scan_rows reset_scan_state
scan_file rows r =
    let scanned = scan_rows rows empty_snapshot (reset_scan_state r) in
    publish (scanned.0.total_rows) true scanned.0 scanned.1

-- The loop of `load_preview`, with as many rows left to show.
unfoldable pub preview_rows : ℕ → List Row → FileReader → FileReader × List PreviewRow
unfolding is_valid_data_row
preview_rows limit [] r = (r, [])
preview_rows zero (row ∷ rows) r = (r, [])
preview_rows (suc limit) (row ∷ rows) r =
    let in_header = preview_rows (suc limit) rows (take_header false row r) in
    let checked = is_valid_data_row row.fields r in
    let shown : PreviewRow = record {
      raw_row_number = row.raw_row_number;
      fields = row.fields;
      valid = checked.1;
    } in
    let later = preview_rows limit rows checked.0 in
    if r.has_header && is_none r.header then in_header else (later.0, shown ∷ later.1)

-- `load_preview`
unfoldable pub load_preview : ℕ → List Row → FileReader → FileReader × List PreviewRow
unfolding preview_rows reset_scan_state
load_preview zero rows r = (r, [])
load_preview (suc limit) rows r = preview_rows (suc limit) rows (reset_scan_state r)

abbrev pub is_enough : ℕ → Option ℕ → Bool
is_enough emitted none = false
is_enough emitted (some first_n) = leb first_n emitted

abbrev pub text_of : Bool → Row → Option Bytes
text_of with_raw row = if with_raw then some row.raw_text else none

-- The loop of `iter_valid_raw_rows` and `iter_valid_rows`, on the rows behind the header.
unfoldable pub valid_rows :
    Bool → Option ℕ → Option ℕ → Option ℕ → ℕ → ℕ → List Row → FileReader → List RowRecord
unfolding is_valid_data_row line_is_selected
valid_rows with_raw start_line end_line first_n line emitted [] r = []
valid_rows with_raw start_line end_line first_n line emitted (row ∷ rows) r =
    let in_header =
      valid_rows with_raw start_line end_line first_n line emitted rows
        (take_header with_raw row r) in
    let checked = is_valid_data_row row.fields r in
    let skipped = valid_rows with_raw start_line end_line first_n line emitted rows checked.0 in
    let passed =
      valid_rows with_raw start_line end_line first_n (line + 1) emitted rows checked.0 in
    let later =
      valid_rows with_raw start_line end_line first_n (line + 1) (emitted + 1) rows checked.0 in
    if r.has_header && is_none r.header
    then in_header
    else if not checked.1
    then skipped
    else if not (line_is_selected (line + 1) start_line end_line)
    then (if is_behind (line + 1) end_line then [] else passed)
    else if is_enough emitted first_n
    then []
    else record {
      data_line_number = line + 1;
      fields = row.fields;
      raw_text = text_of with_raw row;
    }
      ∷ later

-- `iter_valid_raw_rows`, and `iter_valid_rows`, read to their ends.
unfoldable pub iter_valid_raw_rows :
    Option ℕ → Option ℕ → Option ℕ → List Row → FileReader → Result (List RowRecord)
unfolding validate_line_controls valid_rows reset_scan_state
iter_valid_raw_rows start_line end_line first_n rows r = do
  validate_line_controls start_line end_line first_n
  ok (valid_rows true start_line end_line first_n 0 0 rows (reset_scan_state r))

unfoldable pub iter_valid_rows :
    Option ℕ → Option ℕ → Option ℕ → List Row → FileReader → Result (List RowRecord)
unfolding validate_line_controls valid_rows reset_scan_state
iter_valid_rows start_line end_line first_n rows r = do
  validate_line_controls start_line end_line first_n
  ok (valid_rows false start_line end_line first_n 0 0 rows (reset_scan_state r))
