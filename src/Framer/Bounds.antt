-- ===== src/Framer/Bounds.antt =====
-- The cap on records and on the buffer of a framer, in every mode.
use tcp_server_simulator.Prelude.{
  All, All-append, Bool, Bool-cases, Bytes, List, Option-cases, [], arith, false, if◌then◌else◌,
  inl, inr, length, length-take, ltb, ltb-false→le, ltb→lt, max, not, refl, suc, true, zero, ℕ,
  ◌&&◌, ◌++◌, ◌<◌, ◌∷◌, ◌≡◌, ◌≤◌,
}
use tcp_server_simulator.Framer.{
  FramedRecord, Framer, FramingMode, Scanned, clamp, crlf, emit, feed, feed_nonempty,
  feed_separated, lf, raw_chunk, scan, separators, settle, split_at,
}
use tcp_server_simulator.Framer.Scan.{scan-last, scan-next}
use tcp_server_simulator.Framer.Lines.{cut}

-- A record never exceeds the cap, and one that is marked as truncated fills it.
pub record Fits (max : ℕ) (r : FramedRecord) : Type 0 where
  pub within : length r.payload ≤ max
  pub full : r.truncated ≡ true → length r.payload ≡ max

-- The bytes held back fit under the cap while no record has been cut.
pub record IsWithin (f : Framer) : Type 0 where
  pub held : f.overflow ≡ false → length f.buf ≤ f.max

pub clamp-Fits : (max : ℕ) (raw : Bytes) → Fits max (clamp max raw)
unfolding clamp
clamp-Fits max raw = elim (Bool-cases (ltb max (length raw))) [
  | inl e ↦ rw (e, clamp) (ground (arith, length-take max raw))
  | inr e ↦ rw (e, clamp) (ground arith)
]

emit-Fits :
    (max : ℕ) (overflow : Bool) (raw : Bytes) (r : Scanned)
    → All (Fits max) r.out
    → All (Fits max) (if overflow then r else emit (clamp max raw) r).out
emit-Fits max true raw r h = h
emit-Fits max false raw r h = (clamp-Fits max raw, h)

scan-Fits :
    (fuel max : ℕ) (sep : Bytes) (overflow : Bool) (xs : Bytes)
    → All (Fits max) (scan fuel max sep overflow xs).out
scan-Fits zero max sep overflow xs = unfold scan in tt
scan-Fits (suc fuel) max sep overflow xs = elim (Option-cases (split_at sep xs)) [
  | inl e ↦ rw (scan-last fuel max sep overflow xs e) tt
  | inr ((raw, rest), e) ↦
      rw (scan-next fuel max sep overflow xs raw rest e)
        (emit-Fits max overflow raw _ (scan-Fits fuel max sep false rest))
]

cut-Fits : (max : ℕ) (xs : Bytes) → max < length xs → Fits max (cut max xs)
cut-Fits max xs h = ground (arith, length-take max xs)

-- The cap on the records, then that on the buffer.
abbrev pub Capped : ℕ → Framer × List FramedRecord → Type 0
Capped max (f, out) = All (Fits max) out × IsWithin f × (f.max ≡ max)

settle-Capped : (f : Framer) (r : Scanned) → All (Fits f.max) r.out → Capped f.max (settle f r)
unfolding settle
settle-Capped f r h = elim (Bool-cases (not r.overflow && ltb f.max (length r.tail))) [
  | inl e ↦
      rw (e, settle)
        (
          All-append (Fits f.max) r.out _ h (cut-Fits f.max r.tail (long r.overflow e), tt),
          record { held = λ p. cc },
          refl,
        )
  | inr e ↦ rw (e, settle) (h, record { held = λ p. short r.overflow p e }, refl)
]
  where
    long : (o : Bool) → (not o && ltb f.max (length r.tail)) ≡ true → f.max < length r.tail
    long true e = cc
    long false e = ltb→lt f.max (length r.tail) e

    short :
        (o : Bool)
        → o ≡ false
        → (not o && ltb f.max (length r.tail)) ≡ false
        → length r.tail ≤ f.max
    short true p e = cc
    short false p e = ltb-false→le f.max (length r.tail) e

feed_separated-Capped :
    (sep : Bytes) (f : Framer) (data_ : Bytes) → Capped f.max (feed_separated sep f data_)
unfolding feed_separated
feed_separated-Capped sep f data_ =
    settle-Capped f (scan (suc (length (f.buf ++ data_))) f.max sep f.overflow (f.buf ++ data_))
      (scan-Fits (suc (length (f.buf ++ data_))) f.max sep f.overflow (f.buf ++ data_))

feed_nonempty-Capped :
    (mode : FramingMode) (f : Framer) (data_ : Bytes)
    → IsWithin f
    → Capped f.max (feed_nonempty mode f data_)
unfolding feed_nonempty
feed_nonempty-Capped raw_chunk f data_ h = ((clamp-Fits f.max data_, tt), h, refl)
feed_nonempty-Capped lf f data_ h = feed_separated-Capped (separators lf) f data_
feed_nonempty-Capped crlf f data_ h = feed_separated-Capped (separators crlf) f data_

-- In every mode, every record that `feed` returns fits under the cap, and is exactly as long as
-- the cap if it is marked as truncated; the bytes held back fit under it too, unless a record
-- has been cut; and the cap is kept.
pub feed-Capped : (f : Framer) (data_ : Bytes) → IsWithin f → Capped f.max (feed f data_)
unfolding feed
feed-Capped f [] h = (tt, h, refl)
feed-Capped f (b ∷ bs) h = feed_nonempty-Capped f.mode f (b ∷ bs) h
