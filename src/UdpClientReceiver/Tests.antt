-- ===== src/UdpClientReceiver/Tests.antt =====
-- Two datagrams, of which one is from the wrong sender.
use tcp_server_simulator.Prelude.{
  Bytes, List, String-discrete, [], none, ok, some, refl, true, ℕ_discrete, ◌∷◌, ◌≡◌,
}
use tcp_server_simulator.Recipients.{Address, address_discrete}
use tcp_server_simulator.UdpClientReceiver.{UdpClientReceiverConfig, init, is_accepted}
use tcp_server_simulator.UdpClientReceiver.Calls.{
  UdpClientCall, client_calls, hello_turn_call, on_datagram_call, start_call, stop_call,
}
use tcp_server_simulator.UdpClientReceiver.Datagrams.{Taken, on_datagrams, on_datagrams-Taken}

abbrev filtering : UdpClientReceiverConfig
filtering = record {
  remote = ("publisher", 5565);
  max_record_bytes = 2;
  hello_payload = none;
  hello_interval = 0;
  filter_remote_peer = true;
}

abbrev two_datagrams : List (Bytes × Address)
two_datagrams =
    (b'a' ∷ b'b' ∷ b'c' ∷ [], ("publisher", 5565)) ∷ (b'd' ∷ [], ("stranger", 5565)) ∷ []

one_record :
    let r = on_datagrams two_datagrams (init filtering) in
    (r.1 ≡ (("publisher", 5565), record { payload = b'a' ∷ b'b' ∷ []; truncated = true }) ∷ [])
    × (r.0.packets_filtered ≡ 1)
unfolding on_datagrams init is_accepted address_discrete String-discrete ℕ_discrete
one_record = (refl, refl)

on_datagrams-Taken_example :
    Taken
      ((b'a' ∷ b'b' ∷ b'c' ∷ [], ("publisher", 5565)) ∷ [])
      2
      (init filtering)
      (on_datagrams two_datagrams (init filtering)).0
      (on_datagrams two_datagrams (init filtering)).1
unfolding address_discrete String-discrete ℕ_discrete init
on_datagrams-Taken_example = on_datagrams-Taken two_datagrams (init filtering)

-- A client that says hello again and again.
abbrev greeting : UdpClientReceiverConfig
greeting = record filtering { hello_payload = some (b'h' ∷ []); hello_interval = 5 }

abbrev session : List UdpClientCall
session =
    start_call (ok 4000)
    ∷ hello_turn_call
    ∷ on_datagram_call (b'a' ∷ b'b' ∷ b'c' ∷ []) ("publisher", 5565)
    ∷ stop_call
    ∷ hello_turn_call
    ∷ []

two_hellos : (client_calls session (init greeting)).sent ≡ (b'h' ∷ []) ∷ (b'h' ∷ []) ∷ []
unfolding client_calls init is_accepted address_discrete String-discrete ℕ_discrete
two_hellos = refl
