-- ===== src/TcpClientSender/Tests.antt =====
-- A client that loses its server, reaches it again, and is stopped.
use tcp_server_simulator.Prelude.{List, String-discrete, [], false, refl, true, ◌++◌, ◌∷◌, ◌≡◌}
use tcp_server_simulator.Backoff.{ReconnectBackoff}
use tcp_server_simulator.TcpClientSender.{
  TcpClientConfig, breaks, client_connect, client_disconnect, connecting, connects, drained,
  elapses, gets, init, next_attempt, reason_or_default, stop, turn,
}
use tcp_server_simulator.TcpClientSender.Outbound.{
  SenderCall, accepted, payloads, send_call, sender_calls, sender_calls-accepted, start_call,
  turn_call,
}
use tcp_server_simulator.TcpClientSender.Stop.{stop_reports_stale}

abbrev plain : TcpClientConfig
plain = record { reconnect_max_backoff = 30000; use_tls = false; tls_verify = true }

-- Two payloads, of which the second is lost in a write that breaks, and a third one.
abbrev session : List SenderCall
session =
    send_call (b'a' ∷ [])
    ∷ start_call
    ∷ turn_call connects
    ∷ turn_call gets
    ∷ turn_call drained
    ∷ send_call (b'b' ∷ [])
    ∷ send_call (b'c' ∷ [])
    ∷ turn_call gets
    ∷ turn_call (breaks "Broken pipe")
    ∷ turn_call elapses
    ∷ []

abbrev again : ReconnectBackoff
again = record { initial = 1000; max_seconds = 30000; current = 2000 }

lost_and_queued :
    let t = sender_calls session (init plain) in
    (t.written ≡ (b'a' ∷ []) ∷ (b'b' ∷ []) ∷ [])
    × ((t.outbound ≡ (b'c' ∷ []) ∷ [])
        × ((t.last_disconnect_reason ≡ "Broken pipe") × (t.task ≡ connecting again)))
unfolding sender_calls init next_attempt String-discrete
lost_and_queued = (refl, (refl, (refl, refl)))

sender_calls-accepted_example :
    accepted (sender_calls session (init plain)) ≡ accepted (init plain) ++ payloads session
sender_calls-accepted_example = sender_calls-accepted session (init plain)

session-running : (sender_calls session (init plain)).running ≡ true
unfolding sender_calls init next_attempt String-discrete
session-running = refl

stop_reports_stale_example :
    let t = sender_calls session (init plain) in
    (stop (turn connects t)).events
    ≡ t.events
      ++ client_connect
        ∷ client_disconnect (reason_or_default t.last_disconnect_reason)
        ∷ client_disconnect "client_stop"
        ∷ []
stop_reports_stale_example =
    stop_reports_stale again (sender_calls session (init plain)) lost_and_queued.1.1.1
      session-running
