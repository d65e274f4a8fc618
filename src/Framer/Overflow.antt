-- ===== src/Framer/Overflow.antt =====
-- Two places where the framer does not do what its comments say: a CRLF that a chunk boundary
-- splits behind a cut record, and the tail of an oversized record.
use tcp_server_simulator.Prelude.{
  All, All-append, Bool, Bytes, List, [], ap, arith, false, if◌then◌else◌, length, length-append,
  lt→ltb, max, none, refl, some, suc, true, zero, ℕ, ◌++◌, ◌+◌, ◌-◌, ◌<◌, ◌==◌, ◌∙◌, ◌∷◌, ◌≡◌, ◌≤◌,
}
use tcp_server_simulator.Framer.{
  FramedRecord, Framer, Scanned, buffered_bytes, clamp, crlf, emit, feed, push_front, scan,
  separators, settle, split_at,
}
use tcp_server_simulator.Framer.Lines.{NoLf, cut, split_at-NoLf}
use tcp_server_simulator.Framer.Stream.{IsOpen, feed-settle_lf, feed_all}
use tcp_server_simulator.Framer.Scan.{scan-last, scan-next}

abbrev pub NoCr : Bytes → Type 0
NoCr = All (λ b. (b == b'\r') ≡ false)

split_at-ne :
    (b : ℕ) (bs : Bytes)
    → (b == b'\r') ≡ false
    → split_at (b'\r' ∷ b'\n' ∷ []) (b ∷ bs) ≡ push_front b (split_at (b'\r' ∷ b'\n' ∷ []) bs)
unfolding split_at
split_at-ne b bs h = ground arith

split_at-crlf :
    (xs rest : Bytes)
    → NoCr xs
    → split_at (b'\r' ∷ b'\n' ∷ []) (xs ++ b'\r' ∷ b'\n' ∷ rest) ≡ some (xs, rest)
split_at-crlf [] rest h = unfold split_at in refl
split_at-crlf (x ∷ xs) rest h = split_at-ne x _ h.0 ∙ ap (push_front x) (split_at-crlf xs rest h.1)

split_at-cr : (xs : Bytes) → NoCr xs → split_at (b'\r' ∷ b'\n' ∷ []) (xs ++ b'\r' ∷ []) ≡ none
split_at-cr [] h = unfold split_at in refl
split_at-cr (x ∷ xs) h = split_at-ne x _ h.0 ∙ ap (push_front x) (split_at-cr xs h.1)

abbrev pub crlf_framer : ℕ → Bool → Framer
crlf_framer max overflow = record { mode = crlf; max = max; buf = []; overflow = overflow }

-- One call on bytes that are no empty text, from an empty buffer.
feed-settle :
    (max : ℕ) (overflow : Bool) (xs : Bytes) (b : ℕ) (bs : Bytes)
    → feed (crlf_framer max overflow) (xs ++ b ∷ bs)
      ≡ settle
          (crlf_framer max overflow)
          (scan (suc (length (xs ++ b ∷ bs))) max (b'\r' ∷ b'\n' ∷ []) overflow (xs ++ b ∷ bs))
unfolding feed
feed-settle max overflow [] b bs = refl
feed-settle max overflow (x ∷ xs) b bs = refl

settle-cut :
    (max : ℕ) (xs : Bytes)
    → max < length xs
    → settle (crlf_framer max false) (record { out = []; tail = xs; overflow = false })
      ≡ (crlf_framer max true, cut max xs ∷ [])
unfolding settle
settle-cut max xs h = rw (lt→ltb max (length xs) h)

settle-clean :
    (max : ℕ) (overflow : Bool) (out : List FramedRecord)
    → settle (crlf_framer max overflow) (record { out = out; tail = []; overflow = false })
      ≡ (crlf_framer max false, out)
unfolding settle
settle-clean max overflow out = ground arith

-- The first chunk ends between the CR and the LF.
feed-cut :
    (max : ℕ) (xs : Bytes)
    → NoCr xs
    → max ≤ length xs
    → feed (crlf_framer max false) (xs ++ b'\r' ∷ [])
      ≡ (crlf_framer max true, cut max (xs ++ b'\r' ∷ []) ∷ [])
feed-cut max xs h long =
    feed-settle max false xs b'\r' []
    ∙ ap (settle (crlf_framer max false)) (scan-last _ max _ false _ (split_at-cr xs h))
    ∙ settle-cut max (xs ++ b'\r' ∷ []) (omega (arith, length-append xs (b'\r' ∷ [])))

abbrev clean : List FramedRecord → Scanned
clean out = record { out = out; tail = []; overflow = false }

scan-empty : (fuel max : ℕ) → scan fuel max (separators crlf) false [] ≡ clean []
unfolding scan
scan-empty zero max = refl
scan-empty (suc fuel) max = refl

abbrev kept : Bool → FramedRecord → List FramedRecord → List FramedRecord
kept overflow r rs = if overflow then rs else r ∷ rs

emit-clean :
    (overflow : Bool) (r : FramedRecord) (rs : List FramedRecord)
    → (if overflow then clean rs else emit r (clean rs)) ≡ clean (kept overflow r rs)
emit-clean true r rs = refl
emit-clean false r rs = refl

-- One round on a line and what follows its CRLF.
scan-line :
    (fuel max : ℕ) (overflow : Bool) (xs rest : Bytes) (rs : List FramedRecord)
    → NoCr xs
    → scan fuel max (separators crlf) false rest ≡ clean rs
    → scan (suc fuel) max (separators crlf) overflow (xs ++ b'\r' ∷ b'\n' ∷ rest)
      ≡ clean (kept overflow (clamp max xs) rs)
scan-line fuel max overflow xs rest rs h e =
    scan-next fuel max (separators crlf) overflow _ xs rest (split_at-crlf xs rest h)
    ∙ ap (λ s. if overflow then s else emit (clamp max xs) s) e
    ∙ emit-clean overflow (clamp max xs) rs

-- One line and its CRLF, behind a cut record or not.
feed-line :
    (max : ℕ) (overflow : Bool) (xs : Bytes)
    → NoCr xs
    → feed (crlf_framer max overflow) (xs ++ b'\r' ∷ b'\n' ∷ [])
      ≡ (crlf_framer max false, kept overflow (clamp max xs) [])
feed-line max overflow xs h =
    feed-settle max overflow xs b'\r' (b'\n' ∷ [])
    ∙ ap (settle (crlf_framer max overflow))
        (scan-line _ max overflow xs [] [] h (scan-empty _ max))
    ∙ settle-clean max overflow _

positive : (n : ℕ) → 0 < n → n ≡ suc (n - 1)
positive n h = omega arith

feed-lines :
    (max : ℕ) (xs ys : Bytes)
    → NoCr xs
    → NoCr ys
    → feed (crlf_framer max false) (xs ++ b'\r' ∷ b'\n' ∷ (ys ++ b'\r' ∷ b'\n' ∷ []))
      ≡ (crlf_framer max false, clamp max xs ∷ clamp max ys ∷ [])
feed-lines max xs ys hx hy =
    let rest = ys ++ b'\r' ∷ b'\n' ∷ [] in
    let n = length (xs ++ b'\r' ∷ b'\n' ∷ rest) in
    let some_left : n ≡ suc (n - 1) =
      positive n (omega (arith, length-append xs (b'\r' ∷ b'\n' ∷ rest))) in
    let last : scan n max (separators crlf) false rest ≡ clean (clamp max ys ∷ []) =
      ap (λ k. scan k max (separators crlf) false rest) some_left
      ∙ scan-line (n - 1) max false ys [] [] hy (scan-empty (n - 1) max) in
    feed-settle max false xs b'\r' (b'\n' ∷ rest)
    ∙ ap (settle (crlf_framer max false))
        (scan-line n max false xs rest (clamp max ys ∷ []) hx last)
    ∙ settle-clean max false _

-- In CRLF mode the records depend on the chunks. Where a line of at least `max` bytes is read up to
-- and with its CR, the LF that opens the next chunk is no longer taken for the end of the line:
-- the next line is dropped with the rest of the first one, and the first is marked as truncated
-- even if it has exactly `max` bytes. In one chunk the same bytes give a record for each line.
pub crlf_split_lost :
    (max : ℕ) (xs ys : Bytes)
    → NoCr xs
    → NoCr ys
    → max ≤ length xs
    → ((feed_all
          (crlf_framer max false)
          ((xs ++ b'\r' ∷ []) ∷ (b'\n' ∷ (ys ++ b'\r' ∷ b'\n' ∷ [])) ∷ [])).1
        ≡ cut max (xs ++ b'\r' ∷ []) ∷ [])
      × ((feed_all
            (crlf_framer max false)
            ((xs ++ b'\r' ∷ b'\n' ∷ (ys ++ b'\r' ∷ b'\n' ∷ [])) ∷ [])).1
          ≡ clamp max xs ∷ clamp max ys ∷ [])
unfolding feed_all
crlf_split_lost max xs ys hx hy long = (
  rw (feed-cut max xs hx long, feed-line max true (b'\n' ∷ ys) (refl, hy)),
  rw (feed-lines max xs ys hx hy),
)

settle-overflow :
    (f : Framer) (xs : Bytes)
    → settle f (record { out = []; tail = xs; overflow = true })
      ≡ (record f { buf = xs; overflow = true }, [])
unfolding settle
settle-overflow f xs = refl

-- Behind a cut record the bytes that precede the next LF are kept in the buffer, not discarded:
-- no record comes out, and the buffer grows by every chunk, past any cap.
pub feed-overflow :
    (f : Framer) (data_ : Bytes)
    → IsOpen f
    → f.overflow ≡ true
    → NoLf data_
    → ((feed f data_).1 ≡ []) × (buffered_bytes (feed f data_).0 ≡ buffered_bytes f + length data_)
unfolding buffered_bytes
feed-overflow f [] h o n = unfold feed in (refl, omega arith)
feed-overflow f (b ∷ bs) h o n =
    let none_left = split_at-NoLf (f.buf ++ b ∷ bs) (All-append _ f.buf (b ∷ bs) h.buf_open n) in
    let e : feed f (b ∷ bs) ≡ (record f { buf = f.buf ++ b ∷ bs; overflow = true }, []) =
      feed-settle_lf f b bs h.mode_lf
      ∙ ap (settle f) (scan-last _ f.max _ f.overflow _ none_left)
      ∙ ap (λ ov. settle f (record { out = []; tail = f.buf ++ b ∷ bs; overflow = ov })) o
      ∙ settle-overflow f (f.buf ++ b ∷ bs) in
    (ap (λ r. r.1) e, ap (λ r. length r.0.buf) e ∙ length-append f.buf (b ∷ bs))
