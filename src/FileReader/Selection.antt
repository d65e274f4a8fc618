-- ===== src/FileReader/Selection.antt =====
-- The rows that the iterators yield, against the numbered rows of the right width.
use tcp_server_simulator.Prelude.{
  drop, ltb, raise, value_error, ◌⊎◌, ◌≤◌, Bool, Bool-cases, List, Option, [], ap, arith, false,
  if◌then◌else◌, inl, inr, none, ok, refl, some, suc, sym, take, true, zero, ℕ, ◌+◌, ◌-◌, ◌>>◌, ◌∙◌,
  ◌∷◌, ◌≡◌,
}
use tcp_server_simulator.FileReader.Valid.{
  data_rows, record_of, select, take-nil, take_first, valid_rows-fresh,
}
use tcp_server_simulator.FileReader.{
  FileReader, Row, RowRecord, is_before, is_behind, iter_valid_raw_rows, iter_valid_rows,
  line_is_selected, is_below_one, is_reversed, reset_scan_state, valid_rows, validate_line_controls,
}

-- The rows under their numbers.
abbrev pub numbered : Bool → ℕ → List Row → List RowRecord
numbered with_raw line [] = []
numbered with_raw line (row ∷ rows) =
    record_of with_raw (line + 1) row ∷ numbered with_raw (line + 1) rows

-- The rows up to the last line, and from the first one on, where some lines may have been passed already.
abbrev cut_to : Option ℕ → ℕ → List RowRecord → List RowRecord
cut_to none line xs = xs
cut_to (some end_line) line xs = take (end_line - line) xs

abbrev cut_from : Option ℕ → ℕ → List RowRecord → List RowRecord
cut_from none line xs = xs
cut_from (some start_line) line xs = drop ((start_line - 1) - line) xs

drop_none : (k : ℕ) (xs : List RowRecord) → k ≡ 0 → drop k xs ≡ xs
drop_none k xs h = ap (λ n. drop n xs) h

take_none : (k : ℕ) (xs : List RowRecord) → k ≡ 0 → take k xs ≡ []
take_none k xs h = ap (λ n. take n xs) h

drop-nil : (k : ℕ) → drop {A = RowRecord} k [] ≡ []
drop-nil zero = refl
drop-nil (suc k) = refl

cut_from-nil : (o : Option ℕ) (line : ℕ) → cut_from o line [] ≡ []
cut_from-nil none line = refl
cut_from-nil (some n) line = drop-nil ((n - 1) - line)

cut_to-nil : (o : Option ℕ) (line : ℕ) → cut_to o line [] ≡ []
cut_to-nil none line = refl
cut_to-nil (some n) line = take-nil (n - line)

cut_to-in :
    (o : Option ℕ) (line : ℕ) (x : RowRecord) (xs : List RowRecord)
    → is_behind (line + 1) o ≡ false
    → cut_to o line (x ∷ xs) ≡ x ∷ cut_to o (line + 1) xs
cut_to-in none line x xs h = refl
cut_to-in (some n) line x xs h =
    let z : n - line ≡ suc (n - (line + 1)) = ground (arith, h) in ap (λ k. take k (x ∷ xs)) z

cut_to-out :
    (o : Option ℕ) (line : ℕ) (xs ys : List RowRecord)
    → is_behind (line + 1) o ≡ true
    → (cut_to o line xs ≡ []) × (cut_to o (line + 1) ys ≡ [])
cut_to-out none line xs ys h = cc
cut_to-out (some n) line xs ys h =
    let z : n - line ≡ 0 = ground (arith, h) in
    let z' : n - (line + 1) ≡ 0 = ground (arith, h) in
    (take_none (n - line) xs z, take_none (n - (line + 1)) ys z')

cut_from-in :
    (o : Option ℕ) (line : ℕ) (xs ys : List RowRecord)
    → is_before (line + 1) o ≡ false
    → (cut_from o line xs ≡ xs) × (cut_from o (line + 1) ys ≡ ys)
cut_from-in none line xs ys h = (refl, refl)
cut_from-in (some n) line xs ys h =
    let z : (n - 1) - line ≡ 0 = ground (arith, h) in
    let z' : (n - 1) - (line + 1) ≡ 0 = ground (arith, h) in
    (drop_none ((n - 1) - line) xs z, drop_none ((n - 1) - (line + 1)) ys z')

cut_from-out :
    (o : Option ℕ) (line : ℕ) (x : RowRecord) (xs : List RowRecord)
    → is_before (line + 1) o ≡ true
    → cut_from o line (x ∷ xs) ≡ cut_from o (line + 1) xs
cut_from-out none line x xs h = cc
cut_from-out (some n) line x xs h =
    let z : (n - 1) - line ≡ suc ((n - 1) - (line + 1)) = ground (arith, h) in
    ap (λ k. drop k (x ∷ xs)) z

if_true : (t : Bool) (xs ys : List RowRecord) → t ≡ true → (if t then xs else ys) ≡ xs
if_true t xs ys h = ap (λ (c : Bool). if c then xs else ys) h

if_false : (t : Bool) (xs ys : List RowRecord) → t ≡ false → (if t then xs else ys) ≡ ys
if_false t xs ys h = ap (λ (c : Bool). if c then xs else ys) h

line_is_selected-in :
    (line : ℕ) (st en : Option ℕ)
    → is_before line st ≡ false
    → is_behind line en ≡ false
    → line_is_selected line st en ≡ true
unfolding line_is_selected
line_is_selected-in line st en a b = ground (arith, a, b)

line_is_selected-before :
    (line : ℕ) (st en : Option ℕ) → is_before line st ≡ true → line_is_selected line st en ≡ false
unfolding line_is_selected
line_is_selected-before line st en a = ground (arith, a)

line_is_selected-behind :
    (line : ℕ) (st en : Option ℕ) → is_behind line en ≡ true → line_is_selected line st en ≡ false
unfolding line_is_selected
line_is_selected-behind line st en b = ground (arith, b)

-- To test each line is to cut the numbered rows at both ends.
select-cut :
    (with_raw : Bool) (st en : Option ℕ) (line : ℕ) (rows : List Row)
    → select with_raw st en line rows
      ≡ cut_from st line (cut_to en line (numbered with_raw line rows))
select-cut with_raw st en line [] =
    sym (ap (cut_from st line) (cut_to-nil en line) ∙ cut_from-nil st line)
select-cut with_raw st en line (row ∷ rows) =
    let x = record_of with_raw (line + 1) row in
    let xs = numbered with_raw (line + 1) rows in
    let later = select with_raw st en (line + 1) rows in
    let t = line_is_selected (line + 1) st en in
    let rest = select-cut with_raw st en (line + 1) rows in
    elim (Bool-cases (is_behind (line + 1) en)) [
      | inl b ↦
          let out = cut_to-out en line (x ∷ xs) xs b in
          if_false t (x ∷ later) later (line_is_selected-behind (line + 1) st en b)
          ∙ rest
          ∙ ap (cut_from st (line + 1)) out.1
          ∙ cut_from-nil st (line + 1)
          ∙ sym (ap (cut_from st line) out.0 ∙ cut_from-nil st line)
      | inr b ↦ elim (Bool-cases (is_before (line + 1) st)) [
        | inl a ↦
            if_false t (x ∷ later) later (line_is_selected-before (line + 1) st en a)
            ∙ rest
            ∙ sym (
                ap (cut_from st line) (cut_to-in en line x xs b)
                ∙ cut_from-out st line x (cut_to en (line + 1) xs) a)
        | inr a ↦
            let kept =
              cut_from-in st line (x ∷ cut_to en (line + 1) xs) (cut_to en (line + 1) xs) a in
            if_true t (x ∷ later) later (line_is_selected-in (line + 1) st en a b)
            ∙ ap (◌∷◌ x) (rest ∙ kept.1)
            ∙ sym (ap (cut_from st line) (cut_to-in en line x xs b) ∙ kept.0)
      ]
    ]

-- A line control that is given is at least 1, and the last line is not before the first.
abbrev pub IsAtLeastOne : Option ℕ → Type 0
IsAtLeastOne none = Unit {0}
IsAtLeastOne (some n) = 1 ≤ n

abbrev pub AreInOrder : Option ℕ → Option ℕ → Type 0
AreInOrder (some start_line) (some end_line) = start_line ≤ end_line
AreInOrder _ _ = Unit {0}

pub record AreGood (start_line end_line first_n : Option ℕ) : Type 0 where
  pub start_good : IsAtLeastOne start_line
  pub end_good : IsAtLeastOne end_line
  pub first_good : IsAtLeastOne first_n
  pub in_order : AreInOrder start_line end_line

is_below_one-lem :
    (o : Option ℕ)
    → (IsAtLeastOne o × (is_below_one o ≡ false)) ⊎ (¬ (IsAtLeastOne o) × (is_below_one o ≡ true))
is_below_one-lem none = inl (tt, refl)
is_below_one-lem (some n) = elim (Bool-cases (ltb n 1)) [
  | inl h ↦ inr (ground (arith, h), h)
  | inr h ↦ inl (ground (arith, h), h)
]

is_reversed-lem :
    (o p : Option ℕ)
    → (AreInOrder o p × (is_reversed o p ≡ false)) ⊎ (¬ (AreInOrder o p) × (is_reversed o p ≡ true))
is_reversed-lem none p = inl (tt, refl)
is_reversed-lem (some n) none = inl (tt, refl)
is_reversed-lem (some n) (some m) = elim (Bool-cases (ltb m n)) [
  | inl h ↦ inr (ground (arith, h), h)
  | inr h ↦ inl (ground (arith, h), h)
]

validate_line_controls-lem :
    (st en n : Option ℕ)
    → (AreGood st en n × (validate_line_controls st en n ≡ ok tt))
      ⊎ (¬ (AreGood st en n) × (validate_line_controls st en n ≡ raise value_error))
unfolding validate_line_controls
validate_line_controls-lem st en n = elim (is_below_one-lem st) [
  | inr (a, p) ↦ inr (λ g. a g.start_good, rw p refl)
  | inl (a, p) ↦ elim (is_below_one-lem en) [
    | inr (b, q) ↦ inr (λ g. b g.end_good, rw (p, q) refl)
    | inl (b, q) ↦ elim (is_below_one-lem n) [
      | inr (c, r) ↦ inr (λ g. c g.first_good, rw (p, q, r) refl)
      | inl (c, r) ↦ elim (is_reversed-lem st en) [
        | inr (d, t) ↦ inr (λ g. d g.in_order, rw (p, q, r, t) refl)
        | inl (d, t) ↦ inl (
          record { start_good = a; end_good = b; first_good = c; in_order = d },
          rw (p, q, r, t) refl,
        )
      ]
    ]
  ]
]

-- From the first line on, up to the last line, and the first rows.
abbrev from_line : Option ℕ → List RowRecord → List RowRecord
from_line none xs = xs
from_line (some start_line) xs = drop (start_line - 1) xs

abbrev to_line : Option ℕ → List RowRecord → List RowRecord
to_line none xs = xs
to_line (some end_line) xs = take end_line xs

abbrev at_most : Option ℕ → List RowRecord → List RowRecord
at_most none xs = xs
at_most (some first_n) xs = take first_n xs

-- The chosen rows, under their numbers.
abbrev pub chosen : Bool → Option ℕ → Option ℕ → Option ℕ → Bool → List Row → List RowRecord
chosen with_raw start_line end_line first_n has_header rows =
    at_most first_n
      (from_line start_line (to_line end_line (numbered with_raw 0 (data_rows has_header rows))))

take_first-at_most : (o : Option ℕ) (xs : List RowRecord) → take_first o 0 xs ≡ at_most o xs
take_first-at_most none xs = refl
take_first-at_most (some n) xs = ap (λ k. take k xs) (omega arith)

cut_from-from_line : (o : Option ℕ) (xs : List RowRecord) → cut_from o 0 xs ≡ from_line o xs
cut_from-from_line none xs = refl
cut_from-from_line (some n) xs = ap (λ k. drop k xs) (omega arith)

cut_to-to_line : (o : Option ℕ) (xs : List RowRecord) → cut_to o 0 xs ≡ to_line o xs
cut_to-to_line none xs = refl
cut_to-to_line (some n) xs = ap (λ k. take k xs) (omega arith)

chosen-eq :
    (with_raw : Bool) (st en n : Option ℕ) (has_header : Bool) (rows : List Row)
    → take_first n 0 (select with_raw st en 0 (data_rows has_header rows))
      ≡ chosen with_raw st en n has_header rows
chosen-eq with_raw st en n has_header rows =
    let xs = numbered with_raw 0 (data_rows has_header rows) in
    ap (take_first n 0) (select-cut with_raw st en 0 (data_rows has_header rows))
    ∙ take_first-at_most n (cut_from st 0 (cut_to en 0 xs))
    ∙ ap (at_most n) (cut_from-from_line st (cut_to en 0 xs))
    ∙ ap (λ ys. at_most n (from_line st ys)) (cut_to-to_line en xs)

-- When each line control that is given is at least 1 and the last line is not before the first, both
-- iterators yield the rows of the right width, numbered from 1, from `start_line` up to `end_line`, and of
-- these the first `first_n`; the width is that of the header, or of the first row, and only one iterator
-- gives the text. Otherwise both raise ValueError.
pub iter_valid_rows-selected :
    (start_line end_line first_n : Option ℕ) (rows : List Row) (r : FileReader)
    → (AreGood start_line end_line first_n
        × (iter_valid_rows start_line end_line first_n rows r
            ≡ ok (chosen false start_line end_line first_n r.has_header rows))
        × (iter_valid_raw_rows start_line end_line first_n rows r
            ≡ ok (chosen true start_line end_line first_n r.has_header rows)))
      ⊎ (¬ (AreGood start_line end_line first_n)
          × (iter_valid_rows start_line end_line first_n rows r ≡ raise value_error)
          × (iter_valid_raw_rows start_line end_line first_n rows r ≡ raise value_error))
unfolding iter_valid_rows iter_valid_raw_rows reset_scan_state
iter_valid_rows-selected start_line end_line first_n rows r =
    let rows_of : Bool → List RowRecord =
      λ with_raw. valid_rows with_raw start_line end_line first_n 0 0 rows (reset_scan_state r) in
    let right : (with_raw : Bool)
        → rows_of with_raw ≡ chosen with_raw start_line end_line first_n r.has_header rows =
      λ with_raw.
        valid_rows-fresh with_raw start_line end_line first_n r.has_header rows
        ∙ chosen-eq with_raw start_line end_line first_n r.has_header rows in
    elim (validate_line_controls-lem start_line end_line first_n) [
      | inr (g, e) ↦
          inr (g, ap (λ u. u >> ok (rows_of false)) e, ap (λ u. u >> ok (rows_of true)) e)
      | inl (g, e) ↦ inl (
        g,
        ap (λ u. u >> ok (rows_of false)) e ∙ ap (λ xs. ok xs) (right false),
        ap (λ u. u >> ok (rows_of true)) e ∙ ap (λ xs. ok xs) (right true),
      )
    ]
