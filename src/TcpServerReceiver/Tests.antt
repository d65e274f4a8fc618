-- ===== src/TcpServerReceiver/Tests.antt =====
-- A peer of the TCP server receiver that sends two lines in two chunks.
use tcp_server_simulator.Prelude.{List, [], false, length, none, refl, true, ◌∷◌, ◌≡◌}
use tcp_server_simulator.TcpServerReceiver.{
  Event, Peer, TcpServerReceiver, cancels, chunk, init, meanwhile, reading, reads, resumes, serve,
  set_paused, stop, takes,
}
use tcp_server_simulator.Framer.{lf}
use tcp_server_simulator.TcpServerReceiver.Stream.{Delivers, chunks, serve-Delivers}

abbrev server : TcpServerReceiver
server = record (init lf 8) { running = true }

abbrev peer : Peer
peer = record {
  src = "10.0.0.1:9";
  framer = record { mode = lf; max = 8; buf = []; overflow = false };
  phase = reading;
}

-- The server is paused in the middle; the end of the stream leaves a line without its end.
abbrev life : List Event
life =
    meanwhile (set_paused true)
    ∷ takes (reads (chunk (b'a' ∷ b'\n' ∷ [])))
    ∷ meanwhile (set_paused false)
    ∷ takes resumes
    ∷ takes (reads (chunk (b'b' ∷ [])))
    ∷ takes (reads (chunk []))
    ∷ []

-- A handler that is cancelled in a pause loses the line without its end.
abbrev cut_short : List Event
cut_short =
    meanwhile (set_paused true)
    ∷ takes (reads (chunk (b'a' ∷ b'\n' ∷ b'b' ∷ [])))
    ∷ meanwhile (stop none)
    ∷ takes cancels
    ∷ []

serve-Delivers_example :
    let s = serve life peer server in
    Delivers s.peer.phase peer.framer (chunks life peer server) s.peer.framer s.delivered
serve-Delivers_example = serve-Delivers life peer server tt

life_delivers : length ((serve life peer server).delivered) ≡ 2
unfolding init set_paused serve
life_delivers = refl

cut_short_delivers : length ((serve cut_short peer server).delivered) ≡ 1
unfolding init set_paused serve stop
cut_short_delivers = refl
