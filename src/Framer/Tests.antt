-- ===== src/Framer/Tests.antt =====
-- The framer on concrete streams.
use tcp_server_simulator.Prelude.{
  Bytes, List, [], arith, false, flatten, length, map, raise, refl, true, value_error, ℕ, ◌+◌, ◌∷◌,
  ◌≡◌,
}
use tcp_server_simulator.Framer.{Framer, buffered_bytes, clamp, feed, flush, init, lf}
use tcp_server_simulator.Framer.Lines.{lines}
use tcp_server_simulator.Framer.Stream.{feed_all, records_of, records_of-lines}
use tcp_server_simulator.Framer.Bounds.{Capped, feed-Capped}
use tcp_server_simulator.Framer.Overflow.{crlf_framer, crlf_split_lost, feed-overflow}

-- "ab", LF, "cdef", LF, "g", cut inside the second line, under a cap of 3 bytes.
abbrev chunks : List Bytes
chunks = (b'a' ∷ b'b' ∷ b'\n' ∷ b'c' ∷ b'd' ∷ b'e' ∷ b'f' ∷ []) ∷ (b'x' ∷ b'\n' ∷ b'g' ∷ []) ∷ []

abbrev new_framer : Framer
new_framer = record { mode = lf; max = 3; buf = []; overflow = false }

emitted :
    records_of new_framer chunks
    ≡ record { payload = b'a' ∷ b'b' ∷ []; truncated = false }
      ∷ record { payload = b'c' ∷ b'd' ∷ b'e' ∷ []; truncated = true }
      ∷ record { payload = b'g' ∷ []; truncated = false }
      ∷ []
unfolding records_of feed flush
emitted = refl

init_zero : init lf 0 ≡ raise value_error
unfolding init
init_zero = refl

records_of-lines_example : records_of new_framer chunks ≡ map (clamp 3) (lines [] (flatten chunks))
unfolding init
records_of-lines_example = records_of-lines 3 chunks {f = new_framer} refl

feed-Capped_example : Capped 3 (feed new_framer (b'a' ∷ b'b' ∷ b'c' ∷ b'd' ∷ []))
feed-Capped_example =
    feed-Capped new_framer (b'a' ∷ b'b' ∷ b'c' ∷ b'd' ∷ []) (record { held = λ e. omega arith })

-- Two lines of three bytes, under a cap of 3.
crlf_split_lost_example :
    ((feed_all
        (crlf_framer 3 false)
        ((b'a' ∷ b'b' ∷ b'c' ∷ b'\r' ∷ []) ∷ (b'\n' ∷ b'd' ∷ b'e' ∷ b'\r' ∷ b'\n' ∷ []) ∷ [])).1
      ≡ record { payload = b'a' ∷ b'b' ∷ b'c' ∷ []; truncated = true } ∷ [])
    × ((feed_all
          (crlf_framer 3 false)
          ((b'a' ∷ b'b' ∷ b'c' ∷ b'\r' ∷ b'\n' ∷ b'd' ∷ b'e' ∷ b'\r' ∷ b'\n' ∷ []) ∷ [])).1
        ≡ record { payload = b'a' ∷ b'b' ∷ b'c' ∷ []; truncated = false }
          ∷ record { payload = b'd' ∷ b'e' ∷ []; truncated = false }
          ∷ [])
unfolding clamp
crlf_split_lost_example =
    crlf_split_lost 3 (b'a' ∷ b'b' ∷ b'c' ∷ []) (b'd' ∷ b'e' ∷ []) (refl, (refl, (refl, tt)))
      (refl, (refl, tt)) (omega arith)

abbrev cut_framer : Framer
cut_framer = record { mode = lf; max = 3; buf = b'x' ∷ []; overflow = true }

feed-overflow_example :
    ((feed cut_framer (b'y' ∷ b'z' ∷ [])).1 ≡ [])
    × (buffered_bytes (feed cut_framer (b'y' ∷ b'z' ∷ [])).0
        ≡ buffered_bytes cut_framer + length {A = ℕ} (b'y' ∷ b'z' ∷ []))
feed-overflow_example =
    feed-overflow cut_framer (b'y' ∷ b'z' ∷ []) (record { mode_lf = refl; buf_open = (refl, tt) })
      refl (refl, (refl, tt))
