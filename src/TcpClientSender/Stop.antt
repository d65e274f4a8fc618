-- ===== src/TcpClientSender/Stop.antt =====
-- What a stop reports of the TCP client sender.
use text.Mathlib.TextEquality.{eq_iff}
use tcp_server_simulator.Prelude.{
  String, String-discrete, [], ap, append_assoc, false, if_neg, if_pos, if◌then◌else◌, not, refl,
  true, ◌++◌, ◌∙◌, ◌∷◌, ◌≡◌, ◌≢◌,
}
use tcp_server_simulator.Backoff.{ReconnectBackoff, reset as backoff_reset}
use tcp_server_simulator.TcpClientSender.{
  TcpClientSender, Watch, cancel, check_watch, client_connect, client_disconnect, close_connection,
  connecting, connects, emit_event, end_attempt, next_payload, no_task, open_connection, polling,
  reason_or_default, stop, turn, turn_in, watching,
}

default-ne : ◌≢◌ {A = String} "disconnect" ""
default-ne e = let p = (eq_iff "disconnect" "").1 e in cc

stop-ne : ◌≢◌ {A = String} "client_stop" ""
stop-ne e = let p = (eq_iff "client_stop" "").1 e in cc

reason_or_default-ne : (reason : String) → reason_or_default reason ≢ ""
unfolding reason_or_default
reason_or_default-ne reason = elim (String-discrete reason "") [
  | yes p ↦ rw (if_pos _ p) default-ne
  | no ne ↦ rw (if_neg _ ne) ne
]

close_connection-report :
    (reason : String) (t : TcpClientSender)
    → reason ≢ ""
    → close_connection reason t
      ≡ emit_event
          (client_disconnect reason)
          (record t { writer = false; connected = false; last_disconnect_reason = reason })
unfolding close_connection
close_connection-report reason t ne = rw (if_neg _ ne)

next_payload-polling :
    (b : ReconnectBackoff) (t : TcpClientSender)
    → t.running ≡ true
    → next_payload b watching t ≡ record t { task = polling b watching }
unfolding next_payload check_watch
next_payload-polling b t r =
    ap (λ running. if not running then end_attempt b t else record t { task = polling b watching })
      r

cancel-events :
    (b : ReconnectBackoff) (w : Watch) (t : TcpClientSender)
    → (cancel (polling b w) t).events
      ≡ t.events ++ client_disconnect (reason_or_default t.last_disconnect_reason) ∷ []
unfolding cancel
cancel-events b w t =
    ap (λ u. u.events)
      (close_connection-report (reason_or_default t.last_disconnect_reason) t
        (reason_or_default-ne t.last_disconnect_reason))

stop-polling :
    (b : ReconnectBackoff) (w : Watch) (t : TcpClientSender)
    → t.task ≡ polling b w
    → (stop t).events
      ≡ (t.events ++ client_disconnect (reason_or_default t.last_disconnect_reason) ∷ [])
        ++ client_disconnect "client_stop" ∷ []
unfolding stop
stop-polling b w t e =
    let t' = record t { running = false } in
    let cancelled = record (cancel t.task t') { task = no_task } in
    ap (λ u. u.events) (close_connection-report "client_stop" cancelled stop-ne)
    ∙ ap (λ phase. (cancel phase t').events ++ client_disconnect "client_stop" ∷ []) e
    ∙ ap (λ es. es ++ client_disconnect "client_stop" ∷ []) (cancel-events b w t')

-- A running client that connects and is then stopped reports two disconnects: the first with the reason
-- of the disconnect before this connection, if there was one, and the second for the stop.
pub stop_reports_stale :
    (b : ReconnectBackoff) (t : TcpClientSender)
    → t.task ≡ connecting b
    → t.running ≡ true
    → (stop (turn connects t)).events
      ≡ t.events
        ++ client_connect
          ∷ client_disconnect (reason_or_default t.last_disconnect_reason)
          ∷ client_disconnect "client_stop"
          ∷ []
unfolding turn turn_in open_connection
stop_reports_stale b t e r =
    let opened = emit_event client_connect (record t { writer = true; connected = true }) in
    let now = record opened { task = polling (backoff_reset b) watching } in
    let last = client_disconnect (reason_or_default t.last_disconnect_reason) in
    let stopped = client_disconnect "client_stop" ∷ [] in
    ap (λ phase. (stop (turn_in phase connects t)).events) e
    ∙ ap (λ u. (stop u).events) (next_payload-polling (backoff_reset b) opened r)
    ∙ stop-polling (backoff_reset b) watching now refl
    ∙ append_assoc (t.events ++ client_connect ∷ []) (last ∷ []) stopped
    ∙ append_assoc t.events (client_connect ∷ []) (last ∷ stopped)
