-- ===== src/FileReader/Valid.antt =====
-- The loop of the iterators of src/tcp_sim/engine/file_reader.py, on the rows of the right width.
use tcp_server_simulator.Prelude.{
  Bool, Bool-cases, Bytes, List, Option, [], ap, arith, false, if◌then◌else◌, inl, inr, length,
  none, refl, some, suc, sym, take, true, zero, ℕ, ◌&&◌, ◌+◌, ◌-◌, ◌==◌, ◌∙◌, ◌∷◌, ◌≡◌,
}
use tcp_server_simulator.FileReader.{
  Fields, FileReader, Row, RowRecord, ScanSnapshot, empty_snapshot, is_behind, is_enough, is_none,
  is_valid_data_row, line_is_selected, text_of, valid_rows,
}

-- The rows of a width.
abbrev pub keep : ℕ → List Row → List Row
keep n [] = []
keep n (row ∷ rows) = let rest = keep n rows in if length row.fields == n then row ∷ rest else rest

-- The rows behind the header that have the width of the header, or of the first row.
abbrev pub data_rows : Bool → List Row → List Row
data_rows has_header [] = []
data_rows true (row ∷ rows) = keep (length row.fields) rows
data_rows false (row ∷ rows) = keep (length row.fields) (row ∷ rows)

abbrev pub record_of : Bool → ℕ → Row → RowRecord
record_of with_raw n row = record {
  data_line_number = n;
  fields = row.fields;
  raw_text = text_of with_raw row;
}

-- The rows that are selected, under their numbers.
abbrev pub select : Bool → Option ℕ → Option ℕ → ℕ → List Row → List RowRecord
select with_raw start_line end_line line [] = []
select with_raw start_line end_line line (row ∷ rows) =
    let rest = select with_raw start_line end_line (line + 1) rows in
    if line_is_selected (line + 1) start_line end_line
    then record_of with_raw (line + 1) row ∷ rest
    else rest

-- The first of them, where some may have been yielded already.
abbrev pub take_first : Option ℕ → ℕ → List RowRecord → List RowRecord
take_first none emitted records = records
take_first (some first_n) emitted records = take (first_n - emitted) records

-- A reader behind the header.
abbrev pub known : Bool → Option Fields → Option Bytes → ℕ → ScanSnapshot → FileReader
known has_header header header_raw n s = record {
  has_header = has_header;
  header = header;
  header_raw = header_raw;
  expected_columns = some n;
  scan_snapshot = s;
}

-- Behind the last line nothing is selected.
select-behind :
    (with_raw : Bool) (start_line end_line : Option ℕ) (line : ℕ) (rows : List Row)
    → is_behind line end_line ≡ true
    → select with_raw start_line end_line line rows ≡ []
unfolding line_is_selected
select-behind with_raw start_line end_line line [] h = refl
select-behind with_raw start_line none line (row ∷ rows) h = cc
select-behind with_raw start_line (some e) line (row ∷ rows) h =
    let later : is_behind (line + 1) (some e) ≡ true = ground (arith, h) in
    let rest = select-behind with_raw start_line (some e) (line + 1) rows later in
    ground (arith, later, rest)

pub take-nil : (k : ℕ) → take {A = RowRecord} k [] ≡ []
take-nil zero = refl
take-nil (suc k) = refl

take_first-nil : (first_n : Option ℕ) (emitted : ℕ) → take_first first_n emitted [] ≡ []
take_first-nil none emitted = refl
take_first-nil (some n) emitted = take-nil (n - emitted)

take_first-enough :
    (first_n : Option ℕ) (emitted : ℕ) (records : List RowRecord)
    → is_enough emitted first_n ≡ true
    → take_first first_n emitted records ≡ []
take_first-enough none emitted records h = cc
take_first-enough (some n) emitted records h =
    let z : n - emitted ≡ 0 = ground (arith, h) in ap (λ k. take k records) z

take_first-more :
    (first_n : Option ℕ) (emitted : ℕ) (x : RowRecord) (records : List RowRecord)
    → is_enough emitted first_n ≡ false
    → take_first first_n emitted (x ∷ records) ≡ x ∷ take_first first_n (emitted + 1) records
take_first-more none emitted x records h = refl
take_first-more (some n) emitted x records h =
    let z : n - emitted ≡ suc (n - (emitted + 1)) = ground (arith, h) in
    ap (λ k. take k (x ∷ records)) z

valid_rows-known :
    (with_raw : Bool) (start_line end_line first_n : Option ℕ) (line emitted : ℕ) (rows : List Row)
    (has_header : Bool) (header : Option Fields) (header_raw : Option Bytes) (n : ℕ)
    (s : ScanSnapshot)
    → has_header && is_none header ≡ false
    → valid_rows with_raw start_line end_line first_n line emitted rows
        (known has_header header header_raw n s)
      ≡ take_first first_n emitted (select with_raw start_line end_line line (keep n rows))
unfolding valid_rows is_valid_data_row
valid_rows-known with_raw start_line end_line first_n line emitted [] has_header header header_raw n
      s c =
    sym (take_first-nil first_n emitted)
valid_rows-known with_raw start_line end_line first_n line emitted (row ∷ rows) has_header header
      header_raw n s c =
    let skipped =
      valid_rows-known with_raw start_line end_line first_n line emitted rows has_header header
        header_raw n s c in
    let passed =
      valid_rows-known with_raw start_line end_line first_n (line + 1) emitted rows has_header
        header header_raw n s c in
    let later =
      valid_rows-known with_raw start_line end_line first_n (line + 1) (emitted + 1) rows has_header
        header header_raw n s c in
    elim (Bool-cases (length row.fields == n)) [
      | inr x ↦ rw (c, x) skipped
      | inl x ↦ elim (Bool-cases (line_is_selected (line + 1) start_line end_line)) [
        | inr y ↦ elim (Bool-cases (is_behind (line + 1) end_line)) [
          | inr z ↦ rw (c, x, y, z) passed
          | inl z ↦
              rw (c, x, y, z)
                (sym (
                  ap (take_first first_n emitted)
                    (select-behind with_raw start_line end_line (line + 1) (keep n rows) z)
                  ∙ take_first-nil first_n emitted))
        ]
        | inl y ↦ elim (Bool-cases (is_enough emitted first_n)) [
          | inl z ↦
              rw (c, x, y, z)
                (sym (
                  take_first-enough first_n emitted
                    (record_of with_raw (line + 1) row
                      ∷ select with_raw start_line end_line (line + 1) (keep n rows))
                    z))
          | inr z ↦
              rw (c, x, y, z)
                (ap (◌∷◌ (record_of with_raw (line + 1) row)) later
                  ∙ sym (
                      take_first-more first_n emitted (record_of with_raw (line + 1) row)
                        (select with_raw start_line end_line (line + 1) (keep n rows)) z))
        ]
      ]
    ]

abbrev pub fresh : Bool → FileReader
fresh has_header = record {
  has_header = has_header;
  header = none;
  header_raw = none;
  expected_columns = none;
  scan_snapshot = empty_snapshot;
}

pub ==-refl : (n : ℕ) → n == n ≡ true
==-refl n = ground arith

pub valid_rows-fresh :
    (with_raw : Bool) (start_line end_line first_n : Option ℕ) (has_header : Bool) (rows : List Row)
    → valid_rows with_raw start_line end_line first_n 0 0 rows (fresh has_header)
      ≡ take_first first_n 0 (select with_raw start_line end_line 0 (data_rows has_header rows))
unfolding valid_rows is_valid_data_row
valid_rows-fresh with_raw start_line end_line first_n has_header [] = sym (take_first-nil first_n 0)
valid_rows-fresh with_raw start_line end_line first_n true (row ∷ rows) =
    valid_rows-known with_raw start_line end_line first_n 0 0 rows true (some row.fields) _
      (length row.fields) empty_snapshot refl
valid_rows-fresh with_raw start_line end_line first_n false (row ∷ rows) =
    let n = length row.fields in
    let x = ==-refl n in
    rw x refl
    ∙ valid_rows-known with_raw start_line end_line first_n 0 0 (row ∷ rows) false none none n
        empty_snapshot refl
