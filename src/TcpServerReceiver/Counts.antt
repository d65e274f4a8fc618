-- ===== src/TcpServerReceiver/Counts.antt =====
-- The TCP server receiver as the transport of the receiver engine.
use tcp_server_simulator.Prelude.{
  Bool, Bool-cases, Option, Result, arith, false, inl, inr, none, not, ok, raise, refl, some, true,
  ℕ, ◌≡◌,
}
use tcp_server_simulator.TcpServerReceiver.{TcpServerReceiver, note_stuck, set_paused, start, stop}
use tcp_server_simulator.Receiver.{TransportLike}
use tcp_server_simulator.Receiver.Pause.{IsPausing}

-- The transport that the engine sees: what `start_server` answers and which peers are stuck are
-- given, and there is no counter of drops.
abbrev pub transport : Result ℕ → Option ℕ → TransportLike TcpServerReceiver
transport answer stuck = record {
  begin = start answer;
  stop = stop stuck;
  set_paused = set_paused;
  record_drops = λ t. none;
  set_record_drops = λ n t. t;
}

abbrev pub is_paused : TcpServerReceiver → Bool
is_paused t = t.paused

note_stuck-paused :
    (stuck : Option ℕ) (t : TcpServerReceiver) → (note_stuck stuck t).paused ≡ t.paused
note_stuck-paused none t = refl
note_stuck-paused (some n) t = refl

set_paused-paused : (b : Bool) (t : TcpServerReceiver) → (set_paused b t).paused ≡ b
unfolding set_paused
set_paused-paused true t = ground arith
set_paused-paused false t = ground arith

start-paused : (answer : Result ℕ) (t : TcpServerReceiver) → (start answer t).0.paused ≡ t.paused
unfolding start
start-paused (ok port) t = ground arith
start-paused (raise err) t = ground arith

stop-paused : (stuck : Option ℕ) (t : TcpServerReceiver) → (stop stuck t).paused ≡ t.paused
unfolding stop
stop-paused stuck t = elim (Bool-cases (not t.running)) [
  | inl e ↦ rw e
  | inr e ↦ rw e (note_stuck-paused stuck (record t { running = false }))
]

-- The pause of the receiver is the one that the engine relies on.
pub transport-IsPausing :
    (answer : Result ℕ) (stuck : Option ℕ) → IsPausing (transport answer stuck) is_paused
transport-IsPausing answer stuck = record {
  set_eq = set_paused-paused;
  begin_eq = start-paused answer;
  stop_eq = stop-paused stuck;
  drops_eq = λ n t. refl;
}
