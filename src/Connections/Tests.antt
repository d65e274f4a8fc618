-- ===== src/Connections/Tests.antt =====
-- Two clients of a connection manager with small thresholds.
use tcp_server_simulator.Prelude.{
  List, String-discrete, [], arith, insert, lookup, refl, some, ◌∷◌, ◌≡◌,
}
use tcp_server_simulator.Connections.{
  ConnectionManager, QueueThresholds, enqueue_payload, get_client_state, get_disconnect_candidates,
  hard_cap_exceeded, init, new_client, put_client,
}
use tcp_server_simulator.Connections.Queues.{IsValid, enqueues, manage, manage-IsValid}
use tcp_server_simulator.Connections.Fifo.{Flows, Traffic, serve_all, serve_all-Flows}

abbrev small : QueueThresholds
small = record {
  high_watermark_bytes = 4;
  low_watermark_bytes = 2;
  hard_cap_bytes = 6;
  slow_client_timeout = 10;
}

abbrev one_client : ConnectionManager
one_client = put_client "a" (new_client "a" 1) (init small)

one_client-IsValid : IsValid one_client
unfolding insert
one_client-IsValid = record { ordered = omega arith; each = (ground arith, tt) }

-- At 5 bytes the client is blocked, and 10 units of time later it is to be disconnected.
slow :
    get_disconnect_candidates 13 (enqueue_payload 3 "a" (1 ∷ 2 ∷ 3 ∷ 4 ∷ 5 ∷ []) one_client).0
    ≡ "a" ∷ []
unfolding get_disconnect_candidates enqueue_payload insert lookup String-discrete
slow = refl

refused :
    (enqueue_payload 3 "a" (1 ∷ 2 ∷ 3 ∷ 4 ∷ 5 ∷ 6 ∷ 7 ∷ []) one_client).1 ≡ some hard_cap_exceeded
unfolding enqueue_payload insert lookup String-discrete
refused = refl

manage-IsValid_example : IsValid (manage (enqueues 3 "a" (1 ∷ 2 ∷ [])) one_client)
manage-IsValid_example = manage-IsValid (enqueues 3 "a" (1 ∷ 2 ∷ [])) one_client one_client-IsValid

abbrev traffic : List Traffic
traffic =
    Traffic.enqueues 0 "a" (1 ∷ [])
    ∷ Traffic.enqueues 0 "b" (9 ∷ [])
    ∷ Traffic.enqueues 1 "a" (2 ∷ [])
    ∷ Traffic.pops 2 "a"
    ∷ []

serve_all-Flows_example : Flows "a" [] (serve_all "a" traffic one_client)
unfolding get_client_state lookup insert String-discrete
serve_all-Flows_example = serve_all-Flows "a" traffic one_client (new_client "a" 1) refl
