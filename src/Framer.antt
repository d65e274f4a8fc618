-- ===== src/Framer.antt =====
-- src/tcp_sim/engine/framer.py: the framer of the TCP receivers, which splits a byte stream into
-- records. The buffer from the scan position `start` on is passed on in place of the index.
pub mod Scan
pub mod Lines
pub mod Stream
pub mod Bounds
pub mod Overflow
mod Tests
use tcp_server_simulator.Prelude.{
  Bool, Bytes, List, Option, Result, [], drop, false, if◌then◌else◌, leb, length, ltb, none, not,
  ok, raise_if, some, suc, take, true, value_error, zero, ℕ, ◌&&◌, ◌++◌, ◌==◌, ◌>>◌, ◌∷◌,
}

pub data FramingMode : Type 0 where
  lf crlf raw_chunk : FramingMode

-- `_SEPARATORS`; a raw chunk has none and is not looked up.
abbrev pub separators : FramingMode → Bytes
separators lf = b'\n' ∷ []
separators crlf = b'\r' ∷ b'\n' ∷ []
separators raw_chunk = []

pub record FramedRecord : Type 0 where
  pub payload : Bytes
  pub truncated : Bool

pub record Framer : Type 0 where
  pub mode : FramingMode
  pub max : ℕ
  pub buf : Bytes
  pub overflow : Bool

-- `__init__`
unfoldable pub init : FramingMode → ℕ → Result Framer
init mode max_record_bytes = do
  raise_if (leb max_record_bytes 0) value_error
  ok (record { mode = mode; max = max_record_bytes; buf = []; overflow = false })

unfoldable pub buffered_bytes : Framer → ℕ
buffered_bytes f = length f.buf

-- `_clamp`
unfoldable pub clamp : ℕ → Bytes → FramedRecord
clamp max raw =
    if ltb max (length raw)
    then record { payload = take max raw; truncated = true }
    else record { payload = raw; truncated = false }

-- Does the text begin with the separator?
unfoldable pub starts_with : Bytes → Bytes → Bool
starts_with [] data_ = true
starts_with (s ∷ sep) [] = false
starts_with (s ∷ sep) (b ∷ data_) = s == b && starts_with sep data_

abbrev push_front : ℕ → Option (Bytes × Bytes) → Option (Bytes × Bytes)
push_front b none = none
push_front b (some (raw, rest)) = some (b ∷ raw, rest)

-- `buf.find(sep, start)`: the bytes up to the first separator, and those behind it.
unfoldable pub split_at : Bytes → Bytes → Option (Bytes × Bytes)
unfolding starts_with
split_at sep [] = none
split_at sep (b ∷ bs) =
    let later = split_at sep bs in
    if starts_with sep (b ∷ bs) then some ([], drop (length sep) (b ∷ bs)) else push_front b later

-- What the `while True` loop leaves: the records, the unterminated tail and the overflow flag.
pub record Scanned : Type 0 where
  pub out : List FramedRecord
  pub tail : Bytes
  pub overflow : Bool

abbrev pub emit : FramedRecord → Scanned → Scanned
emit r s = record s { out = r ∷ s.out }

-- The loop. Each round drops at least one byte, so the length of the buffer is fuel enough.
unfoldable pub scan : ℕ → ℕ → Bytes → Bool → Bytes → Scanned
unfolding split_at clamp
scan zero max sep overflow buf = record { out = []; tail = buf; overflow = overflow }
scan (suc fuel) max sep overflow buf = elim (split_at sep buf) [
  | none ↦ record { out = []; tail = buf; overflow = overflow }
  | some (raw, rest) ↦
      let next = scan fuel max sep false rest in
      if overflow then next else emit (clamp max raw) next
]

-- The end of `feed`: a tail that has passed the cap is emitted at once, truncated.
unfoldable pub settle : Framer → Scanned → Framer × List FramedRecord
settle f s =
    if not s.overflow && ltb f.max (length s.tail)
    then (
      record f { buf = []; overflow = true },
      s.out ++ record { payload = take f.max s.tail; truncated = true } ∷ [],
    )
    else (record f { buf = s.tail; overflow = s.overflow }, s.out)

-- `feed` in the two modes with a separator.
unfoldable pub feed_separated : Bytes → Framer → Bytes → Framer × List FramedRecord
unfolding scan settle
feed_separated sep f data_ =
    settle f (scan (suc (length (f.buf ++ data_))) f.max sep f.overflow (f.buf ++ data_))

unfoldable pub feed_nonempty : FramingMode → Framer → Bytes → Framer × List FramedRecord
unfolding feed_separated clamp
feed_nonempty raw_chunk f data_ = (f, clamp f.max data_ ∷ [])
feed_nonempty mode f data_ = feed_separated (separators mode) f data_

-- `feed`
unfoldable pub feed : Framer → Bytes → Framer × List FramedRecord
unfolding feed_nonempty
feed f [] = (f, [])
feed f (b ∷ bs) = feed_nonempty f.mode f (b ∷ bs)

unfoldable pub flush_separated : Framer → Framer × Option FramedRecord
unfolding clamp
flush_separated f =
    if f.overflow then (record f { buf = []; overflow = false }, none) else elim f.buf [
      | [] ↦ (f, none)
      | b ∷ bs ↦ (record f { buf = [] }, some (clamp f.max (b ∷ bs)))
    ]

unfoldable pub flush_in : FramingMode → Framer → Framer × Option FramedRecord
unfolding flush_separated
flush_in raw_chunk f = (f, none)
flush_in mode f = flush_separated f

-- `flush`
unfoldable pub flush : Framer → Framer × Option FramedRecord
unfolding flush_in
flush f = flush_in f.mode f

-- `reset`
unfoldable pub reset : Framer → Framer
reset f = record f { buf = []; overflow = false }
