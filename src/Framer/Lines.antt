-- ===== src/Framer/Lines.antt =====
-- The records of a whole byte stream in LF mode, written without buffers or chunks.
use tcp_server_simulator.Prelude.{
  All, Bool-cases, Bytes, List, Option, [], ap, append-nil, append_assoc, arith, false, inl, inr,
  length, length-append, map, max, none, refl, some, take, take-append, true, ℕ, ◌++◌, ◌<◌, ◌==◌,
  ◌∙◌, ◌∷◌, ◌≡◌,
}
use tcp_server_simulator.Framer.{FramedRecord, clamp, push_front, split_at}

-- The lines of a text behind the part `line` of the first; the last may lack its LF.
unfoldable pub lines : Bytes → Bytes → List Bytes
lines [] [] = []
lines (a ∷ line) [] = (a ∷ line) ∷ []
lines line (b ∷ bs) = elim (b == b'\n') [
  | true ↦ line ∷ lines [] bs
  | false ↦ lines (line ++ b ∷ []) bs
]

-- The same behind a line whose record has been emitted: its rest counts for nothing.
unfoldable pub skip_line : Bytes → List Bytes
unfolding lines
skip_line [] = []
skip_line (b ∷ bs) = elim (b == b'\n') [ true ↦ lines [] bs | false ↦ skip_line bs ]

abbrev pub NoLf : Bytes → Type 0
NoLf = All (λ b. (b == b'\n') ≡ false)

pub lines-append : (line xs s : Bytes) → NoLf xs → lines line (xs ++ s) ≡ lines (line ++ xs) s
unfolding lines
lines-append line [] s h = rw append-nil
lines-append [] (x ∷ xs) s h = rw (h.0, lines) (lines-append (x ∷ []) xs s h.1)
lines-append (a ∷ line) (x ∷ xs) s h =
    rw (h.0, lines)
      (lines-append ((a ∷ line) ++ x ∷ []) xs s h.1
        ∙ ap (λ l. lines l s) (append_assoc (a ∷ line) (x ∷ []) xs))

lines-lf : (line s : Bytes) → lines line (b'\n' ∷ s) ≡ line ∷ lines [] s
unfolding lines
lines-lf [] s = refl
lines-lf (a ∷ line) s = refl

-- A line and its LF.
pub lines-line : (xs s : Bytes) → NoLf xs → lines [] (xs ++ b'\n' ∷ s) ≡ xs ∷ lines [] s
lines-line xs s h = lines-append [] xs (b'\n' ∷ s) h ∙ lines-lf xs s

pub skip_line-append : (xs s : Bytes) → NoLf xs → skip_line (xs ++ s) ≡ skip_line s
unfolding skip_line
skip_line-append [] s h = refl
skip_line-append (x ∷ xs) s h = rw (h.0, skip_line) (skip_line-append xs s h.1)

pub skip_line-line : (xs s : Bytes) → NoLf xs → skip_line (xs ++ b'\n' ∷ s) ≡ lines [] s
unfolding skip_line
skip_line-line xs s h = skip_line-append xs (b'\n' ∷ s) h

abbrev pub cut : ℕ → Bytes → FramedRecord
cut max line = record { payload = take max line; truncated = true }

pub clamp_long : (max : ℕ) (line : Bytes) → max < length line → clamp max line ≡ cut max line
unfolding clamp
clamp_long max line h = ground arith

-- Once a line is past the cap its record is known, whatever follows.
pub clamp-lines_long :
    (max : ℕ) (line s : Bytes)
    → max < length line
    → map (clamp max) (lines line s) ≡ cut max line ∷ map (clamp max) (skip_line s)
unfolding lines skip_line
clamp-lines_long max [] s h = absurd (omega arith)
clamp-lines_long max (a ∷ line) [] h = ap (λ r. r ∷ []) (clamp_long max (a ∷ line) h)
clamp-lines_long max (a ∷ line) (b ∷ bs) h = elim (Bool-cases (b == b'\n')) [
  | inl e ↦
      rw (e, lines, skip_line)
        (ap (λ r. r ∷ map (clamp max) (lines [] bs)) (clamp_long max (a ∷ line) h))
  | inr e ↦
      rw (e, lines, skip_line)
        (clamp-lines_long max ((a ∷ line) ++ b ∷ []) bs
            (omega (arith, length-append (a ∷ line) (b ∷ [])))
          ∙ ap (λ p. record { payload = p; truncated = true } ∷ map (clamp max) (skip_line bs))
              (take-append max (a ∷ line) (b ∷ []) (omega arith)))
]

-- What `find` of an LF tells of the text.
abbrev pub Splits : Bytes → Option (Bytes × Bytes) → Type 0
Splits xs none = NoLf xs
Splits xs (some (raw, rest)) = (xs ≡ raw ++ b'\n' ∷ rest) × NoLf raw

Splits-push_front :
    (b : ℕ) (bs : Bytes) (o : Option (Bytes × Bytes))
    → (b == b'\n') ≡ false
    → Splits bs o
    → Splits (b ∷ bs) (push_front b o)
Splits-push_front b bs none h s = (h, s)
Splits-push_front b bs (some (raw, rest)) h s = (ap (◌∷◌ b) s.0, (h, s.1))

split_at-lf :
    (b : ℕ) (bs : Bytes) → (b == b'\n') ≡ true → split_at (b'\n' ∷ []) (b ∷ bs) ≡ some ([], bs)
unfolding split_at
split_at-lf b bs h = ground arith

split_at-ne :
    (b : ℕ) (bs : Bytes)
    → (b == b'\n') ≡ false
    → split_at (b'\n' ∷ []) (b ∷ bs) ≡ push_front b (split_at (b'\n' ∷ []) bs)
unfolding split_at
split_at-ne b bs h = ground arith

pub split_at-Splits : (bs : Bytes) → Splits bs (split_at (b'\n' ∷ []) bs)
split_at-Splits [] = unfold split_at in tt
split_at-Splits (b ∷ bs) = elim (Bool-cases (b == b'\n')) [
  | inl e ↦ rw (split_at-lf b bs e) (ground arith)
  | inr e ↦
      rw (split_at-ne b bs e)
        (Splits-push_front b bs (split_at (b'\n' ∷ []) bs) e (split_at-Splits bs))
]

pub split_at-NoLf : (bs : Bytes) → NoLf bs → split_at (b'\n' ∷ []) bs ≡ none
split_at-NoLf [] h = unfold split_at in refl
split_at-NoLf (b ∷ bs) h = split_at-ne b bs h.0 ∙ ap (push_front b) (split_at-NoLf bs h.1)
