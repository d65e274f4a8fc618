-- ===== src/FileReader/Tests.antt =====
-- A file with a header, two good rows and a short one.
use tcp_server_simulator.Prelude.{
  ok, raise, value_error, ◌⊎◌, Bytes, List, [], false, none, refl, some, true, ◌∷◌, ◌≡◌,
}
use tcp_server_simulator.FileReader.{Row, init, iter_valid_raw_rows, iter_valid_rows, scan_file}
use tcp_server_simulator.FileReader.Selection.{AreGood, chosen, iter_valid_rows-selected}
use tcp_server_simulator.FileReader.Rows.{IsCounted, scan_file-IsCounted}

abbrev cell : Bytes
cell = b'c' ∷ []

abbrev four_rows : List Row
four_rows =
    record { raw_row_number = 1; raw_text = []; fields = cell ∷ cell ∷ [] }
    ∷ record { raw_row_number = 2; raw_text = []; fields = cell ∷ cell ∷ [] }
    ∷ record { raw_row_number = 3; raw_text = []; fields = cell ∷ [] }
    ∷ record { raw_row_number = 4; raw_text = []; fields = cell ∷ cell ∷ [] }
    ∷ []

iter_valid_rows-selected_example :
    (AreGood (some 2) none (some 1)
      × (iter_valid_rows (some 2) none (some 1) four_rows (init true)
          ≡ ok (chosen false (some 2) none (some 1) (init true).has_header four_rows))
      × (iter_valid_raw_rows (some 2) none (some 1) four_rows (init true)
          ≡ ok (chosen true (some 2) none (some 1) (init true).has_header four_rows)))
    ⊎ (¬ (AreGood (some 2) none (some 1))
        × (iter_valid_rows (some 2) none (some 1) four_rows (init true) ≡ raise value_error)
        × (iter_valid_raw_rows (some 2) none (some 1) four_rows (init true) ≡ raise value_error))
iter_valid_rows-selected_example =
    iter_valid_rows-selected (some 2) none (some 1) four_rows (init true)

second_row :
    iter_valid_rows (some 2) none (some 1) four_rows (init true)
    ≡ ok (record { data_line_number = 2; fields = cell ∷ cell ∷ []; raw_text = none } ∷ [])
unfolding iter_valid_rows init
second_row = refl

no_rows : iter_valid_rows none none (some 0) four_rows (init true) ≡ raise value_error
unfolding iter_valid_rows
no_rows = refl

scan_file-IsCounted_example :
    let s = (scan_file four_rows (init true)).scan_snapshot in
    IsCounted (init true).has_header four_rows s × ((s.completed ≡ true) × (s.processed_rows ≡ 4))
scan_file-IsCounted_example = scan_file-IsCounted four_rows (init true)

scanned_four : (scan_file four_rows (init true)).scan_snapshot.valid_rows ≡ 2
unfolding scan_file init
scanned_four = refl
