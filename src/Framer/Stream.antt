-- ===== src/Framer/Stream.antt =====
-- The LF framer against the lines of the whole stream, for every way to cut it into chunks.
use tcp_server_simulator.Prelude.{
  Bool, Bool-cases, Bytes, List, Option, Option-cases, [], ap, append_assoc, arith, false, flatten,
  if◌then◌else◌, inl, inr, length, length-append, ltb, ltb→lt, map, max, none, not, ok, refl, some,
  subst, suc, sym, true, zero, ℕ, ◌&&◌, ◌++◌, ◌<◌, ◌∙◌, ◌∷◌, ◌≡◌,
}
use tcp_server_simulator.Framer.{
  FramedRecord, Framer, FramingMode, Scanned, clamp, feed, feed_nonempty, flush, flush_in,
  flush_separated, init, lf, scan, settle, split_at,
}
use tcp_server_simulator.Framer.Scan.{scan-last, scan-next}
use tcp_server_simulator.Framer.Lines.{
  NoLf, Splits, clamp-lines_long, cut, lines, lines-append, lines-line, skip_line, skip_line-append,
  skip_line-line, split_at-Splits,
}

-- The lines still to come, behind the buffer of a framer.
abbrev pub pending : Bool → Bytes → List Bytes
pending true s = skip_line s
pending false s = lines [] s

pending-line :
    (overflow : Bool) (max : ℕ) (xs s : Bytes)
    → NoLf xs
    → map (clamp max) (pending overflow (xs ++ b'\n' ∷ s))
      ≡ (if overflow then [] else clamp max xs ∷ []) ++ map (clamp max) (lines [] s)
pending-line true max xs s h = ap (map (clamp max)) (skip_line-line xs s h)
pending-line false max xs s h = ap (map (clamp max)) (lines-line xs s h)

-- The loop emits the records of the complete lines, and leaves a tail with no LF.
pub record Scans (max : ℕ) (overflow : Bool) (xs : Bytes) (r : Scanned) : Type 0 where
  pub tail_open : NoLf r.tail
  pub splits :
      (s : Bytes)
      → map (clamp max) (pending overflow (xs ++ s))
        ≡ r.out ++ map (clamp max) (pending r.overflow (r.tail ++ s))

Scans-next :
    (max : ℕ) (overflow : Bool) (raw rest : Bytes) (r : Scanned)
    → NoLf raw
    → Scans max false rest r
    → Scans max overflow
        (raw ++ b'\n' ∷ rest)
        (if overflow then r else record r { out = clamp max raw ∷ r.out })
Scans-next max true raw rest r h n = record {
  tail_open = n.tail_open;
  splits = λ s.
      ap (λ t. map (clamp max) (skip_line t)) (append_assoc raw (b'\n' ∷ rest) s)
      ∙ pending-line true max raw (rest ++ s) h
      ∙ n.splits s;
}
Scans-next max false raw rest r h n = record {
  tail_open = n.tail_open;
  splits = λ s.
      ap (λ t. map (clamp max) (lines [] t)) (append_assoc raw (b'\n' ∷ rest) s)
      ∙ pending-line false max raw (rest ++ s) h
      ∙ ap (◌∷◌ (clamp max raw)) (n.splits s);
}

pub scan-Scans :
    (fuel max : ℕ) (overflow : Bool) (xs : Bytes)
    → length xs < fuel
    → Scans max overflow xs (scan fuel max (b'\n' ∷ []) overflow xs)
scan-Scans zero max overflow xs h = absurd (omega arith)
scan-Scans (suc fuel) max overflow xs h = elim (Option-cases (split_at (b'\n' ∷ []) xs)) [
  | inl e ↦
      rw (scan-last fuel max _ overflow xs e)
        (record { tail_open = rw e at (split_at-Splits xs); splits = λ s. refl })
  | inr ((raw, rest), e) ↦
      let p : Splits xs (some (raw, rest)) = rw e at (split_at-Splits xs) in
      let short : length rest < fuel =
        omega (arith, ap length p.0, length-append raw (b'\n' ∷ rest)) in
      rw (scan-next fuel max _ overflow xs raw rest e, p.0)
        (Scans-next max overflow raw rest _ p.1 (scan-Scans fuel max false rest short))
]

-- What is still to be emitted behind a framer, if `s` follows and the stream ends.
abbrev pub expected : Framer → Bytes → List FramedRecord
expected f s = map (clamp f.max) (pending f.overflow (f.buf ++ s))

-- Between two calls the buffer of an LF framer holds no LF.
pub record IsOpen (f : Framer) : Type 0 where
  pub mode_lf : f.mode ≡ lf
  pub buf_open : NoLf f.buf

pending-cut :
    (max : ℕ) (overflow : Bool) (tail s : Bytes)
    → NoLf tail
    → (not overflow && ltb max (length tail)) ≡ true
    → map (clamp max) (pending overflow (tail ++ s)) ≡ cut max tail ∷ map (clamp max) (skip_line s)
pending-cut max true tail s n h = cc
pending-cut max false tail s n h =
    ap (map (clamp max)) (lines-append [] tail s n)
    ∙ clamp-lines_long max tail s (ltb→lt max (length tail) h)

settle-expected :
    (f : Framer) (overflow : Bool) (xs s : Bytes) (r : Scanned)
    → Scans f.max overflow xs r
    → map (clamp f.max) (pending overflow (xs ++ s)) ≡ (settle f r).1 ++ expected (settle f r).0 s
unfolding settle
settle-expected f overflow xs s r h =
    elim (Bool-cases (not r.overflow && ltb f.max (length r.tail))) [
      | inl e ↦
          rw (e, settle)
            (h.splits s
              ∙ ap (◌++◌ r.out) (pending-cut f.max r.overflow r.tail s h.tail_open e)
              ∙ sym (append_assoc r.out (cut f.max r.tail ∷ []) (map (clamp f.max) (skip_line s))))
      | inr e ↦ rw (e, settle) (h.splits s)
    ]

settle-IsOpen : (f : Framer) (r : Scanned) → f.mode ≡ lf → NoLf r.tail → IsOpen (settle f r).0
unfolding settle
settle-IsOpen f r m h = elim (Bool-cases (not r.overflow && ltb f.max (length r.tail))) [
  | inl e ↦ rw (e, settle) (record { mode_lf = m; buf_open = tt })
  | inr e ↦ rw (e, settle) (record { mode_lf = m; buf_open = h })
]

scanned :
    (f : Framer) (data_ : Bytes)
    → Scans f.max f.overflow
        (f.buf ++ data_)
        (scan (suc (length (f.buf ++ data_))) f.max (b'\n' ∷ []) f.overflow (f.buf ++ data_))
scanned f data_ = scan-Scans _ f.max f.overflow (f.buf ++ data_) (omega arith)

abbrev pub scan_of : Framer → Bytes → Scanned
scan_of f data_ =
    scan (suc (length (f.buf ++ data_))) f.max (b'\n' ∷ []) f.overflow (f.buf ++ data_)

pub feed-settle_lf :
    (f : Framer) (b : ℕ) (bs : Bytes)
    → f.mode ≡ lf
    → feed f (b ∷ bs) ≡ settle f (scan_of f (b ∷ bs))
unfolding feed
feed-settle_lf f b bs m = rw (m, feed_nonempty)

-- One call: the records that it returns, then those that are still to come, are what was due.
pub feed-expected :
    (f : Framer) (data_ s : Bytes)
    → IsOpen f
    → expected f (data_ ++ s) ≡ (feed f data_).1 ++ expected (feed f data_).0 s
feed-expected f [] s h = unfold feed in refl
feed-expected f (b ∷ bs) s h = rw (feed-settle_lf f b bs h.mode_lf) (
    ap (λ t. map (clamp f.max) (pending f.overflow t)) (sym (append_assoc f.buf (b ∷ bs) s))
    ∙ settle-expected f f.overflow (f.buf ++ b ∷ bs) s (scan_of f (b ∷ bs)) (scanned f (b ∷ bs)))

pub feed-IsOpen : (f : Framer) (data_ : Bytes) → IsOpen f → IsOpen (feed f data_).0
feed-IsOpen f [] h = unfold feed in h
feed-IsOpen f (b ∷ bs) h =
    rw (feed-settle_lf f b bs h.mode_lf)
      (settle-IsOpen f (scan_of f (b ∷ bs)) h.mode_lf (scanned f (b ∷ bs)).tail_open)

-- A receiver's loop over the chunks that it reads, and the flush at the end of the stream.
unfoldable pub feed_all : Framer → List Bytes → Framer × List FramedRecord
feed_all f [] = (f, [])
feed_all f (c ∷ cs) =
    let (f', out) = feed f c in let (f'', later) = feed_all f' cs in (f'', out ++ later)

abbrev pub of_option {ℓ} : {A : Type ℓ} → Option A → List A
of_option none = []
of_option (some a) = a ∷ []

unfoldable pub records_of : Framer → List Bytes → List FramedRecord
unfolding feed_all
records_of f cs = let (f', out) = feed_all f cs in out ++ of_option (flush f').1

flush_separated-pending :
    (f : Framer) (overflow : Bool) (xs : Bytes)
    → f.overflow ≡ overflow
    → f.buf ≡ xs
    → NoLf xs
    → of_option (flush_separated f).1 ≡ map (clamp f.max) (pending overflow (xs ++ []))
unfolding flush_separated lines skip_line
flush_separated-pending f true xs o e h =
    (ground arith) ∙ ap (map (clamp f.max)) (sym (skip_line-append xs [] h))
flush_separated-pending f false [] o e h = ground arith
flush_separated-pending f false (x ∷ xs) o e h =
    (ground arith) ∙ ap (map (clamp f.max)) (sym (lines-append [] (x ∷ xs) [] h))

flush-expected : (f : Framer) → IsOpen f → of_option (flush f).1 ≡ expected f []
unfolding flush
flush-expected f h =
    ap (λ m. of_option (flush_in m f).1) h.mode_lf
    ∙ flush_separated-pending f f.overflow f.buf refl refl h.buf_open

pub records_of-cons :
    (f : Framer) (c : Bytes) (cs : List Bytes)
    → records_of f (c ∷ cs) ≡ (feed f c).1 ++ records_of (feed f c).0 cs
unfolding records_of
records_of-cons f c cs = append_assoc (feed f c).1 (feed_all (feed f c).0 cs).1 _

pub records_of-expected :
    (f : Framer) (cs : List Bytes) → IsOpen f → records_of f cs ≡ expected f (flatten cs)
records_of-expected f [] h = unfold records_of in flush-expected f h
records_of-expected f (c ∷ cs) h =
    records_of-cons f c cs
    ∙ ap (◌++◌ (feed f c).1) (records_of-expected (feed f c).0 cs (feed-IsOpen f c h))
    ∙ sym (feed-expected f c (flatten cs) h)

pub init-empty :
    (mode : FramingMode) (max : ℕ) {f : Framer}
    → init mode max ≡ ok f
    → record { mode = mode; max = max; buf = []; overflow = false } ≡ f
unfolding init
init-empty mode max e = ground arith

-- In LF mode a new framer emits exactly the lines of the stream, each clamped to the cap, in
-- order, whatever the chunks in which the bytes arrive; the flush at the end of the stream adds
-- the unterminated last line, unless it is empty.
pub records_of-lines :
    (max : ℕ) (cs : List Bytes) {f : Framer}
    → init lf max ≡ ok f
    → records_of f cs ≡ map (clamp max) (lines [] (flatten cs))
records_of-lines max cs e =
    subst (λ f. records_of f cs ≡ map (clamp max) (lines [] (flatten cs))) (init-empty lf max e)
      (records_of-expected _ cs (record { mode_lf = refl; buf_open = tt }))
