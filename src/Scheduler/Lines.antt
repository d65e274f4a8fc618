-- ===== src/Scheduler/Lines.antt =====
-- Which lines of a file are active under the line controls.
use tcp_server_simulator.Prelude.{
  suc, sym, zero, Bool, Bool-cases, List, Option, [], ap, arith, false, get_elem?, get_elem?-drop,
  get_elem?-take, get_elem?_ge, if◌then◌else◌, inl, inr, leb, leb→le, length, length-take, ltb,
  ltb-false→le, ltb→lt, none, refl, some, take, true, ℕ, ◌&&◌, ◌+◌, ◌∙◌, ◌≡◌,
}
use tcp_server_simulator.Scheduler.Active.{active, end_index, slice, start_index, truncate}

-- Is position `i` of the selection under the limit `first_n`?
abbrev pub within : Option ℕ → ℕ → Bool
within none i = true
within (some n) i = ltb i n

get_elem?-truncate {ℓ} :
    {A : Type ℓ} (first_n : Option ℕ) (xs : List A) (i : ℕ)
    → get_elem? (truncate first_n xs) i ≡ (if within first_n i then get_elem? xs i else none)
get_elem?-truncate none xs i = refl
get_elem?-truncate (some n) xs i = elim (Bool-cases (ltb i n)) [
  | inl e ↦ rw e (get_elem?-take n i xs (ltb→lt i n e))
  | inr e ↦ rw e (get_elem?_ge (take n xs) i (omega (arith, length-take n xs, ltb-false→le i n e)))
]

get_elem?-slice {ℓ} :
    {A : Type ℓ} (start_idx end_idx : ℕ) (xs : List A) (i : ℕ)
    → get_elem? (slice start_idx end_idx xs) i
      ≡ (if ltb (start_idx + i) end_idx then get_elem? xs (start_idx + i) else none)
get_elem?-slice start_idx end_idx xs i =
    get_elem?-drop start_idx i (take end_idx xs)
    ∙ get_elem?-truncate (some end_idx) xs (start_idx + i)

get_elem?-sliced {ℓ} :
    {A : Type ℓ} (start_idx end_idx : ℕ) (xs : List A) (i : ℕ)
    → get_elem? (if leb (length xs) start_idx then [] else slice start_idx end_idx xs) i
      ≡ (if ltb (start_idx + i) end_idx then get_elem? xs (start_idx + i) else none)
get_elem?-sliced start_idx end_idx xs i = elim (Bool-cases (leb (length xs) start_idx)) [
  | inl e ↦
      rw (e, get_elem?_ge xs (start_idx + i) (omega (arith, leb→le (length xs) start_idx e)))
        (ground arith)
  | inr e ↦ rw e (get_elem?-slice start_idx end_idx xs i)
]

if_and {ℓ} :
    {A : Type ℓ} (a b : Bool) (x y : A)
    → (if a then (if b then x else y) else y) ≡ (if a && b then x else y)
if_and true b x y = refl
if_and false b x y = refl

-- The number of lines before the first selected one.
abbrev pub skipped : Option ℕ → ℕ
skipped none = 0
skipped (some zero) = 0
skipped (some (suc n)) = n

-- Is a line, numbered from 1, not past `end_line`?
abbrev pub until : Option ℕ → ℕ → Bool
until none line = true
until (some e) line = leb line e

start_index-skipped : (o : Option ℕ) → start_index o ≡ skipped o
start_index-skipped none = refl
start_index-skipped (some zero) = omega arith
start_index-skipped (some (suc n)) = omega arith

get_elem?-until {ℓ} :
    {A : Type ℓ} (end_line : Option ℕ) (xs : List A) (k : ℕ)
    → (if ltb k (end_index end_line (length xs)) then get_elem? xs k else none)
      ≡ (if until end_line (k + 1) then get_elem? xs k else none)
get_elem?-until none xs k = elim (Bool-cases (ltb k (length xs))) [
  | inl e ↦ rw e refl
  | inr e ↦ rw e (sym (get_elem?_ge xs k (ltb-false→le k (length xs) e)))
]
get_elem?-until (some n) xs k = ground arith

-- Position `i` of the active records holds the line with the number i + 1 behind the lines that the first
-- selected one skips, as long as it is not past `end_line` (or the end of the file) and `i` is below `first_n`;
-- behind that there is nothing.
pub get_elem?-active {ℓ} :
    {A : Type ℓ} (start_line end_line first_n : Option ℕ) (records : List A) (i : ℕ)
    → get_elem? (active start_line end_line first_n records) i ≡ (
        if within first_n i && until end_line (skipped start_line + i + 1)
        then get_elem? records (skipped start_line + i)
        else none)
unfolding active
get_elem?-active start_line end_line first_n records i =
    let at : ℕ → Option _ =
      λ k. if until end_line (k + i + 1) then get_elem? records (k + i) else none in
    get_elem?-truncate first_n _ i
    ∙ ap (λ o. if within first_n i then o else none)
        (get_elem?-sliced (start_index start_line) (end_index end_line (length records)) records i
          ∙ get_elem?-until end_line records (start_index start_line + i)
          ∙ ap at (start_index-skipped start_line))
    ∙ if_and (within first_n i) (until end_line (skipped start_line + i + 1))
        (get_elem? records (skipped start_line + i)) none
