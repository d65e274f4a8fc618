-- ===== src/FileReader/Rows.antt =====
-- The counters of a scan.
use tcp_server_simulator.Prelude.{
  Bool, Bytes, List, Option, [], ap, arith, false, if◌then◌else◌, length, none, refl, some, true, ℕ,
  ◌&&◌, ◌+◌, ◌==◌, ◌∷◌, ◌≡◌,
}
use tcp_server_simulator.FileReader.{
  Fields, FileReader, Row, ScanSnapshot, count_row, empty_snapshot, is_none, is_valid_data_row,
  reset_scan_state, scan_file, scan_rows,
}
use tcp_server_simulator.FileReader.Valid.{==-refl, data_rows, fresh, keep, known}

-- What rows behind the header add to the counters.
record Adds (n : ℕ) (rows : List Row) (s s' : ScanSnapshot) : Type 0 where
  total_eq : s'.total_rows ≡ s.total_rows + length rows
  data_eq : s'.data_rows ≡ s.data_rows + length rows
  valid_eq : s'.valid_rows ≡ s.valid_rows + length (keep n rows)
  both_eq : s'.valid_rows + s'.invalid_rows ≡ s.valid_rows + s.invalid_rows + length rows

Adds-if :
    (b : Bool) (n : ℕ) (row : Row) (rows : List Row) (s s' : ScanSnapshot)
    → length row.fields == n ≡ b
    → Adds n rows (count_row b s) s'
    → Adds n (row ∷ rows) s s'
Adds-if b n row rows s s' x a =
    counted b a (ap (λ c. length (if c then row ∷ keep n rows else keep n rows)) x)
  where
    counted :
        (c : Bool)
        → Adds n rows (count_row c s) s'
        → length (keep n (row ∷ rows)) ≡ length (if c then row ∷ keep n rows else keep n rows)
        → Adds n (row ∷ rows) s s'
    counted true h k = record {
      total_eq = omega (arith, h.total_eq);
      data_eq = omega (arith, h.data_eq);
      valid_eq = omega (arith, h.valid_eq, k);
      both_eq = omega (arith, h.both_eq);
    }
    counted false h k = record {
      total_eq = omega (arith, h.total_eq);
      data_eq = omega (arith, h.data_eq);
      valid_eq = omega (arith, h.valid_eq, k);
      both_eq = omega (arith, h.both_eq);
    }

scan_rows-known :
    (rows : List Row) (s : ScanSnapshot) (has_header : Bool) (header : Option Fields)
    (header_raw : Option Bytes) (n : ℕ) (t : ScanSnapshot)
    → has_header && is_none header ≡ false
    → Adds n rows s ((scan_rows rows s (known has_header header header_raw n t)).0)
unfolding scan_rows is_valid_data_row
scan_rows-known [] s has_header header header_raw n t c = record {
  total_eq = omega arith;
  data_eq = omega arith;
  valid_eq = omega arith;
  both_eq = omega arith;
}
scan_rows-known (row ∷ rows) s has_header header header_raw n t c =
    let s' = count_row (length row.fields == n) s in
    let h =
      scan_rows-known rows s' has_header header header_raw n
        (record s' { processed_rows = row.raw_row_number; completed = false }) c in
    rw c (Adds-if (length row.fields == n) n row rows s _ refl h)

abbrev pub header_rows : Bool → List Row → ℕ
header_rows true (row ∷ rows) = 1
header_rows _ _ = 0

-- A scan's counters.
pub record IsCounted (has_header : Bool) (rows : List Row) (s : ScanSnapshot) : Type 0 where
  pub all_rows : s.total_rows ≡ length rows
  pub behind_header : s.data_rows + header_rows has_header rows ≡ length rows
  pub right_width : s.valid_rows ≡ length (data_rows has_header rows)
  pub either : s.valid_rows + s.invalid_rows ≡ s.data_rows

scan_rows-fresh :
    (has_header : Bool) (rows : List Row)
    → IsCounted has_header rows ((scan_rows rows empty_snapshot (fresh has_header)).0)
unfolding scan_rows is_valid_data_row
scan_rows-fresh true [] = record {
  all_rows = refl;
  behind_header = refl;
  right_width = refl;
  either = refl;
}
scan_rows-fresh false [] = record {
  all_rows = refl;
  behind_header = refl;
  right_width = refl;
  either = refl;
}
scan_rows-fresh true (row ∷ rows) =
    let s = record empty_snapshot { total_rows = 1 } in
    let h =
      scan_rows-known rows s true (some row.fields) none (length row.fields)
        (record s { processed_rows = row.raw_row_number; completed = false }) refl in
    record {
      all_rows = omega (arith, h.total_eq);
      behind_header = omega (arith, h.data_eq);
      right_width = omega (arith, h.valid_eq);
      either = omega (arith, h.both_eq, h.data_eq);
    }
scan_rows-fresh false (row ∷ rows) =
    let n = length row.fields in
    let s = count_row true empty_snapshot in
    let h =
      scan_rows-known rows s false none none n
        (record s { processed_rows = row.raw_row_number; completed = false }) refl in
    let k = ap (λ b. length (if b then row ∷ keep n rows else keep n rows)) (==-refl n) in
    record {
      all_rows = omega (arith, h.total_eq);
      behind_header = omega (arith, h.data_eq);
      right_width = omega (arith, h.valid_eq, k);
      either = omega (arith, h.both_eq, h.data_eq);
    }

-- A scan ends with a completed snapshot, in which the total is the number of all rows, the data rows
-- are those behind the header, each of them is valid or invalid, and the valid ones are as many as the
-- rows that have the width of the header, or of the first row.
pub scan_file-IsCounted :
    (rows : List Row) (r : FileReader)
    → let s = (scan_file rows r).scan_snapshot in
      IsCounted r.has_header rows s × ((s.completed ≡ true) × (s.processed_rows ≡ length rows))
unfolding scan_file reset_scan_state
scan_file-IsCounted rows r =
    let h = scan_rows-fresh r.has_header rows in
    (
      record {
        all_rows = h.all_rows;
        behind_header = h.behind_header;
        right_width = h.right_width;
        either = h.either;
      },
      (refl, h.all_rows),
    )
