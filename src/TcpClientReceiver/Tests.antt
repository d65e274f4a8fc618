-- ===== src/TcpClientReceiver/Tests.antt =====
-- A client that reaches its server at the third attempt and reads three lines.
use tcp_server_simulator.Prelude.{
  Bytes, List, [], arith, false, flatten, map, ok, refl, true, ℕ, ◌∷◌, ◌≡◌,
}
use tcp_server_simulator.Framer.{clamp, feed, lf, init as framer_init}
use tcp_server_simulator.Framer.Lines.{lines}
use tcp_server_simulator.Backoff.{ReconnectBackoff, advance}
use tcp_server_simulator.TcpClientReceiver.{
  TcpClientReceiverConfig, backing_off, chunk, connect_error, connects, deliver_all, elapses, init,
  next_attempt, next_read, no_task, prepare, reads, reconnect_pending, start, turn,
}
use tcp_server_simulator.TcpClientReceiver.Reconnect.{
  chunk_of, delays, failures, stream, turns, turns-lines,
}
use tcp_server_simulator.TcpClientReceiver.Calls.{
  ClientCall, IsValid, client_calls, client_calls-IsValid, init-IsValid, set_paused_call,
  start_call, stop_call, turn_call,
}

abbrev plain : TcpClientReceiverConfig
plain = record {
  reconnect_max_backoff = 30000;
  framing_mode = lf;
  max_record_bytes = 4;
  use_tls = false;
  tls_verify = true;
}

abbrev fresh : ReconnectBackoff
fresh = record { initial = 1000; max_seconds = 30000; current = 1000 }

abbrev chunks : List (ℕ × Bytes)
chunks = (b'a', b'\n' ∷ b'b' ∷ []) ∷ (b'c', b'\n' ∷ b'd' ∷ []) ∷ []

prepare-plain : prepare plain ≡ ok fresh
unfolding prepare
prepare-plain = refl

turns-lines_example :
    let tried = turns (failures ("a" ∷ "b" ∷ [])) (start (init plain)) in
    let t = turns (stream chunks) (turn connects tried) in
    (tried.events ≡ delays 30000 0 ("a" ∷ "b" ∷ []))
    × (((turn connects tried).connected ≡ true)
        × ((t.delivered ≡ map (clamp 4) (lines [] (flatten (map chunk_of chunks))))
            × (t.task ≡ backing_off (advance fresh).0)))
turns-lines_example =
    turns-lines plain fresh ("a" ∷ "b" ∷ []) chunks prepare-plain (omega arith) refl

two_waits :
    delays 30000 0 ("a" ∷ "b" ∷ [])
    ≡ reconnect_pending (connect_error "a") 1000 ∷ reconnect_pending (connect_error "b") 2000 ∷ []
two_waits = refl

-- A pause, a chunk, and a stop in the middle of a line.
abbrev session : List ClientCall
session =
    start_call
    ∷ set_paused_call true
    ∷ turn_call connects
    ∷ set_paused_call false
    ∷ turn_call elapses
    ∷ turn_call (reads (chunk (b'a' ∷ b'\n' ∷ b'b' ∷ [])))
    ∷ stop_call
    ∷ []

client_calls-IsValid_example : IsValid (client_calls session (init plain))
client_calls-IsValid_example =
    client_calls-IsValid session (init plain) (init-IsValid plain (omega arith))

-- A stop in the middle of a line loses what has been read of it.
stop_drops :
    let t = client_calls session (init plain) in
    (t.delivered ≡ record { payload = b'a' ∷ []; truncated = false } ∷ []) × (t.task ≡ no_task)
unfolding client_calls init prepare next_attempt next_read feed framer_init deliver_all
stop_drops = (refl, refl)
