-- ===== src/Scheduler/Active.antt =====
-- The line controls: which lines of a file are active, and which controls are accepted.
use tcp_server_simulator.Prelude.{
  Bool, List, Option, Result, [], drop, false, if◌then◌else◌, leb, length, ltb, none, raise_if,
  some, take, value_error, ℕ, ◌-◌, ◌>>◌,
}

-- `xs[start:end]`
abbrev pub slice {ℓ} : {A : Type ℓ} → ℕ → ℕ → List A → List A
slice start_idx end_idx xs = drop start_idx (take end_idx xs)

-- `first_n` at the end of `_rebuild_active_records`
abbrev pub truncate {ℓ} : {A : Type ℓ} → Option ℕ → List A → List A
truncate none xs = xs
truncate (some n) xs = take n xs

abbrev pub start_index : Option ℕ → ℕ
start_index none = 0
start_index (some n) = n - 1

abbrev pub end_index : Option ℕ → ℕ → ℕ
end_index none size = size
end_index (some n) size = n

-- The records that `_rebuild_active_records` keeps.
unfoldable pub active {ℓ} : {A : Type ℓ} → Option ℕ → Option ℕ → Option ℕ → List A → List A
active start_line end_line first_n records = truncate first_n (
    if leb (length records) (start_index start_line)
    then []
    else slice (start_index start_line) (end_index end_line (length records)) records)

abbrev below_one : Option ℕ → Bool
below_one none = false
below_one (some n) = ltb n 1

abbrev reversed : Option ℕ → Option ℕ → Bool
reversed none e = false
reversed (some s) none = false
reversed (some s) (some e) = ltb e s

-- The tests at the head of `set_line_controls`.
unfoldable pub check_line_controls : Option ℕ → Option ℕ → Option ℕ → Result (Unit {0})
check_line_controls start_line end_line first_n = do
  raise_if (below_one start_line) value_error
  raise_if (below_one end_line) value_error
  raise_if (below_one first_n) value_error
  raise_if (reversed start_line end_line) value_error
