-- ===== src/TcpServerSender/Tests.antt =====
-- The TCP server sender with one client.
use tcp_server_simulator.Prelude.{
  String-discrete, [], false, insert, lookup, none, refl, true, ◌++◌, ◌∷◌, ◌≡◌,
}
use tcp_server_simulator.TcpServerSender.{
  TcpServerSender, broadcast, client_disconnect, client_disconnected, disconnect_client, init,
  on_client_connected, queue_bytes_by_client, slow_client_timeout,
}
use tcp_server_simulator.Connections.{QueueThresholds, get_client_state}
use tcp_server_simulator.TcpServerSender.Ready.{IsReady}
use tcp_server_simulator.TcpServerSender.Calls.{
  broadcasts, connects, server_call, server_call-IsReady,
}
use tcp_server_simulator.TcpServerSender.Disconnect.{disconnect_reported_twice}

abbrev thresholds : QueueThresholds
thresholds = record {
  high_watermark_bytes = 4;
  low_watermark_bytes = 2;
  hard_cap_bytes = 8;
  slow_client_timeout = 10;
}

abbrev one_client : TcpServerSender
one_client = on_client_connected 0 "a" 1 (record (init thresholds false none) { running = true })

empty-IsReady : IsReady (record (init thresholds false none) { running = true })
unfolding init
empty-IsReady = record { registered = tt; woken = λ e. cc }

one_client-IsReady : IsReady one_client
unfolding on_client_connected server_call
one_client-IsReady =
    server_call-IsReady (connects 0 "a" 1) (record (init thresholds false none) { running = true })
      empty-IsReady

server_call-IsReady_example : IsReady (server_call (broadcasts 1 (b'x' ∷ [])) one_client)
server_call-IsReady_example =
    server_call-IsReady (broadcasts 1 (b'x' ∷ [])) one_client one_client-IsReady

disconnect_reported_twice_example :
    (disconnect_client "a" slow_client_timeout one_client).events
    ≡ (one_client.events ++ client_disconnected "a" client_disconnect ∷ [])
      ++ client_disconnected "a" slow_client_timeout ∷ []
unfolding on_client_connected get_client_state init String-discrete lookup insert
disconnect_reported_twice_example =
    disconnect_reported_twice "a" slow_client_timeout one_client refl refl

broadcast_queues : queue_bytes_by_client (broadcast 1 (b'x' ∷ []) one_client) ≡ ("a", 1) ∷ []
unfolding broadcast on_client_connected get_client_state init String-discrete queue_bytes_by_client
    lookup insert
broadcast_queues = refl
