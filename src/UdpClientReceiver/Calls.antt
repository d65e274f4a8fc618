-- ===== src/UdpClientReceiver/Calls.antt =====
-- The calls of the UDP client receiver and its hellos.
use tcp_server_simulator.Prelude.{
  Bool, Bytes, List, Option, Result, [], arith, length, length-append, none, ok, raise, refl, some,
  suc, take, true, ℕ, ◌++◌, ◌+◌, ◌∷◌, ◌≡◌,
}
use tcp_server_simulator.Recipients.{Address}
use tcp_server_simulator.UdpClientReceiver.{
  UdpClientEvent, UdpClientReceiver, UdpClientReceiverConfig, emit_event, hello_of, hello_turn,
  init, on_datagram, receiver_bound, receiver_stopped, record_truncated, send_hello, send_payload,
  set_paused, start, start_hello, stop, udp_hello_sent,
}

-- A call of a method, a turn of the hello task or a datagram.
pub data UdpClientCall : Type 0 where
  start_call : Result ℕ → UdpClientCall
  stop_call : UdpClientCall
  set_paused_call : Bool → UdpClientCall
  hello_turn_call : UdpClientCall
  on_datagram_call : Bytes → Address → UdpClientCall

unfoldable pub client_call : UdpClientCall → UdpClientReceiver → UdpClientReceiver
unfolding start stop set_paused hello_turn on_datagram
client_call (start_call answer) u = (start answer u).0
client_call stop_call u = stop u
client_call (set_paused_call paused) u = set_paused paused u
client_call hello_turn_call u = hello_turn u
client_call (on_datagram_call data_ src) u = (on_datagram data_ src u).0

unfoldable pub client_calls : List UdpClientCall → UdpClientReceiver → UdpClientReceiver
unfolding client_call
client_calls [] u = u
client_calls (c ∷ cs) u = client_calls cs (client_call c u)

abbrev pub hellos : List UdpClientEvent → ℕ
hellos [] = 0
hellos (udp_hello_sent remote ∷ es) = suc (hellos es)
hellos (receiver_bound port ∷ es) = hellos es
hellos (receiver_stopped ∷ es) = hellos es
hellos (record_truncated src n ∷ es) = hellos es

-- There is a socket exactly while the client runs, the hello task lives only then, and each payload
-- sent is reported.
pub record IsBound (u : UdpClientReceiver) : Type 0 where
  transport_eq : u.transport ≡ u.running
  task_le : u.hello_task ≡ true → u.running ≡ true
  sent_eq : hellos u.events ≡ length u.sent

hellos-append : (es fs : List UdpClientEvent) → hellos (es ++ fs) ≡ hellos es + hellos fs
hellos-append [] fs = omega arith
hellos-append (udp_hello_sent remote ∷ es) fs = omega (arith, hellos-append es fs)
hellos-append (receiver_bound port ∷ es) fs = hellos-append es fs
hellos-append (receiver_stopped ∷ es) fs = hellos-append es fs
hellos-append (record_truncated src n ∷ es) fs = hellos-append es fs

send_payload-IsBound :
    (payload : Option Bytes) (u : UdpClientReceiver) → IsBound u → IsBound (send_payload payload u)
send_payload-IsBound none u p = p
send_payload-IsBound (some payload) u p = record {
  transport_eq = p.transport_eq;
  task_le = p.task_le;
  sent_eq = omega (
    arith,
    p.sent_eq,
    hellos-append u.events (udp_hello_sent u.config.remote ∷ []),
    length-append u.sent (payload ∷ []),
  );
}

send_hello-IsBound : (u : UdpClientReceiver) → IsBound u → IsBound (send_hello u)
unfolding send_hello
send_hello-IsBound u p =
    let sent = send_payload-IsBound (hello_of u.config.hello_payload) u p in ground (arith, sent, p)

send_payload-running :
    (payload : Option Bytes) (u : UdpClientReceiver) → (send_payload payload u).running ≡ u.running
send_payload-running none u = refl
send_payload-running (some payload) u = refl

send_hello-running : (u : UdpClientReceiver) → (send_hello u).running ≡ u.running
unfolding send_hello
send_hello-running u =
    let kept = send_payload-running (hello_of u.config.hello_payload) u in ground (arith, kept)

start_hello-IsBound :
    (payload : Option Bytes) (u : UdpClientReceiver)
    → u.running ≡ true
    → IsBound u
    → IsBound (start_hello payload u)
unfolding start_hello
start_hello-IsBound none u runs p = p
start_hello-IsBound (some payload) u runs p =
    let sent = send_hello-IsBound u p in
    let kept = send_hello-running u in ground (arith, sent, kept, runs)

receiver_bound-IsBound :
    (port : ℕ) (u : UdpClientReceiver)
    → IsBound u
    → IsBound (emit_event (receiver_bound port) (record u { transport = true; running = true }))
receiver_bound-IsBound port u p = record {
  transport_eq = refl;
  task_le = λ h. refl;
  sent_eq = omega (arith, p.sent_eq, hellos-append u.events (receiver_bound port ∷ []));
}

start-IsBound : (answer : Result ℕ) (u : UdpClientReceiver) → IsBound u → IsBound (start answer u).0
unfolding start
start-IsBound (raise err) u p = ground (arith, p)
start-IsBound (ok port) u p =
    let u' = emit_event (receiver_bound port) (record u { transport = true; running = true }) in
    let hello =
      start_hello-IsBound (hello_of u.config.hello_payload) u' refl
        (receiver_bound-IsBound port u p) in
    ground (arith, hello, p)

stop-IsBound : (u : UdpClientReceiver) → IsBound u → IsBound (stop u)
unfolding stop
stop-IsBound u p =
    let log = hellos-append u.events (receiver_stopped ∷ []) in ground (arith, log, p.sent_eq)

hello_turn-IsBound : (u : UdpClientReceiver) → IsBound u → IsBound (hello_turn u)
unfolding hello_turn
hello_turn-IsBound u p = let sent = send_hello-IsBound u p in ground (arith, sent)

on_datagram-IsBound :
    (data_ : Bytes) (src : Address) (u : UdpClientReceiver)
    → IsBound u
    → IsBound (on_datagram data_ src u).0
unfolding on_datagram
on_datagram-IsBound data_ src u p =
    let n = length (take u.config.max_record_bytes data_) in
    let log = hellos-append u.events (record_truncated src n ∷ []) in ground (arith, log, p.sent_eq)

client_call-IsBound :
    (c : UdpClientCall) (u : UdpClientReceiver) → IsBound u → IsBound (client_call c u)
unfolding client_call
client_call-IsBound (start_call answer) u p = start-IsBound answer u p
client_call-IsBound stop_call u p = stop-IsBound u p
client_call-IsBound (set_paused_call paused) u p = p
client_call-IsBound hello_turn_call u p = hello_turn-IsBound u p
client_call-IsBound (on_datagram_call data_ src) u p = on_datagram-IsBound data_ src u p

pub init-IsBound : (config : UdpClientReceiverConfig) → IsBound (init config)
unfolding init
init-IsBound config = record { transport_eq = refl; task_le = λ h. h; sent_eq = refl }

-- After any calls of a client of which this holds, the client has a socket exactly while it runs, its
-- hello task lives only while it runs, and it has reported as many hellos as it has sent.
pub client_calls-IsBound :
    (cs : List UdpClientCall) (u : UdpClientReceiver) → IsBound u → IsBound (client_calls cs u)
unfolding client_calls
client_calls-IsBound [] u p = p
client_calls-IsBound (c ∷ cs) u p =
    client_calls-IsBound cs (client_call c u) (client_call-IsBound c u p)
