-- ===== src/UdpServerReceiver/Datagrams.antt =====
-- The records and the counters of the UDP server receiver.
use tcp_server_simulator.Prelude.{
  Bytes, List, String, [], ap, ap₂, arith, flatten, if◌then◌else◌, length, length-append, map, refl,
  suc, ℕ, ◌+◌, ◌∙◌, ◌∷◌, ◌≡◌,
}
use tcp_server_simulator.Framer.{FramedRecord, clamp}
use tcp_server_simulator.UdpServerReceiver.{UdpServerReceiver, on_datagram}

-- A run of datagrams, each with the name of its sender.
unfoldable pub on_datagrams :
    List (Bytes × String) → UdpServerReceiver → UdpServerReceiver × List FramedRecord
unfolding on_datagram
on_datagrams [] u = (u, [])
on_datagrams ((data_, src) ∷ rest) u =
    let first = on_datagram data_ src u in
    let later = on_datagrams rest first.0 in (later.0, first.1 ∷ later.1)

abbrev pub payloads : List (Bytes × String) → List Bytes
payloads = map (λ d. d.0)

abbrev pub truncated_of : List FramedRecord → ℕ
truncated_of [] = 0
truncated_of (framed ∷ rest) =
    if framed.truncated then suc (truncated_of rest) else truncated_of rest

on_datagram-clamp :
    (data_ : Bytes) (src : String) (u : UdpServerReceiver)
    → (on_datagram data_ src u).1 ≡ clamp u.max_record_bytes data_
unfolding on_datagram clamp
on_datagram-clamp data_ src u = ground arith

-- One datagram and the counters.
record Counted (framed : FramedRecord) (n : ℕ) (u u' : UdpServerReceiver) : Type 0 where
  records_eq : u'.records_received ≡ u.records_received + 1
  bytes_eq : u'.bytes_received ≡ u.bytes_received + n
  truncated_eq : u'.truncations ≡ u.truncations + truncated_of (framed ∷ [])
  max_eq : u'.max_record_bytes ≡ u.max_record_bytes

on_datagram-Counted :
    (data_ : Bytes) (src : String) (u : UdpServerReceiver)
    → Counted ((on_datagram data_ src u).1) (length data_) u ((on_datagram data_ src u).0)
unfolding on_datagram
on_datagram-Counted data_ src u = ground arith

truncated_of-cons :
    (framed : FramedRecord) (rest : List FramedRecord)
    → truncated_of (framed ∷ rest) ≡ truncated_of (framed ∷ []) + truncated_of rest
truncated_of-cons framed rest = ground arith

-- A run of datagrams gives one record for each, in order, with its payload cut to the limit and marked
-- if it was cut; the counters grow by the datagrams, by all their bytes, and by the cut ones.
pub on_datagrams-clamp :
    (ds : List (Bytes × String)) (u : UdpServerReceiver)
    → let r = on_datagrams ds u in
      (r.1 ≡ map (clamp u.max_record_bytes) (payloads ds))
      × ((r.0.records_received ≡ u.records_received + length ds)
          × ((r.0.bytes_received ≡ u.bytes_received + length (flatten (payloads ds)))
              × (r.0.truncations ≡ u.truncations + truncated_of r.1)))
unfolding on_datagrams
on_datagrams-clamp [] u = (refl, (omega arith, (omega arith, omega arith)))
on_datagrams-clamp ((data_, src) ∷ rest) u =
    let f = on_datagram data_ src u in
    let c = on_datagram-Counted data_ src u in
    let h = on_datagrams-clamp rest f.0 in
    (
      ap₂ (λ x xs. x ∷ xs) (on_datagram-clamp data_ src u)
          (h.0 ∙ ap (λ m. map (clamp m) (payloads rest)) c.max_eq),
      (
        omega (arith, h.1.0, c.records_eq),
        (
          omega (arith, h.1.1.0, c.bytes_eq, length-append data_ (flatten (payloads rest))),
          omega (arith, h.1.1.1, c.truncated_eq, truncated_of-cons f.1 (on_datagrams rest f.0).1),
        ),
      ),
    )
