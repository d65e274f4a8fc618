-- ===== src/UdpServerReceiver/Tests.antt =====
-- Two datagrams, of which one is too long.
use tcp_server_simulator.Prelude.{Bytes, List, String, [], map, ◌∷◌, ◌≡◌}
use tcp_server_simulator.UdpServerReceiver.{init}
use tcp_server_simulator.Framer.{clamp}
use tcp_server_simulator.UdpServerReceiver.Datagrams.{
  on_datagrams, on_datagrams-clamp, payloads, truncated_of,
}

abbrev two_datagrams : List (Bytes × String)
two_datagrams = (b'a' ∷ b'b' ∷ b'c' ∷ [], "one") ∷ (b'd' ∷ [], "two") ∷ []

on_datagrams-clamp_example :
    let r = on_datagrams two_datagrams (init 2) in
    (r.1 ≡ map (clamp 2) (payloads two_datagrams))
    × ((r.0.records_received ≡ 2)
        × ((r.0.bytes_received ≡ 4) × (r.0.truncations ≡ truncated_of r.1)))
unfolding init on_datagrams
on_datagrams-clamp_example = on_datagrams-clamp two_datagrams (init 2)
