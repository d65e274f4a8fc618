-- ===== src/TcpClientSender/Outbound.antt =====
-- The payloads of the TCP client sender: what is sent, what is still queued, and what is written.
use tcp_server_simulator.Prelude.{
  Bytes, List, String, [], ap, append-nil, append_assoc, ap₂, arith, false, length, refl, sym, true,
  ◌++◌, ◌∙◌, ◌∷◌, ◌≡◌,
}
use tcp_server_simulator.Backoff.{ReconnectBackoff, reset as backoff_reset}
use tcp_server_simulator.TcpClientSender.{
  Phase, TcpClientSender, Turn, Watch, at_end, backing_off, breaks, broken, cancel, check_watch,
  client_connect, client_reconnect_pending, client_send, close_connection, connecting, connects,
  drained, draining, elapses, emit_event, end_attempt, fail_attempt, gets, has_data, next_attempt,
  next_payload, no_task, open_connection, polling, reason_or_default, refused, send, start, stop,
  take_payload, times_out, turn, turn_in, watched, watching,
}

-- A call of a method, or a wait of the task that ends.
pub data SenderCall : Type 0 where
  start_call stop_call : SenderCall
  send_call : Bytes → SenderCall
  turn_call : Turn → SenderCall

unfoldable pub sender_call : SenderCall → TcpClientSender → TcpClientSender
unfolding start stop send turn
sender_call start_call t = start t
sender_call stop_call t = stop t
sender_call (send_call payload) t = send payload t
sender_call (turn_call u) t = turn u t

unfoldable pub sender_calls : List SenderCall → TcpClientSender → TcpClientSender
unfolding sender_call
sender_calls [] t = t
sender_calls (c ∷ cs) t = sender_calls cs (sender_call c t)

-- The payloads that the calls hand over.
abbrev pub payloads : List SenderCall → List Bytes
payloads [] = []
payloads (send_call payload ∷ cs) = payload ∷ payloads cs
payloads (start_call ∷ cs) = payloads cs
payloads (stop_call ∷ cs) = payloads cs
payloads (turn_call u ∷ cs) = payloads cs

-- All payloads of a client, in the order in which they came.
abbrev pub accepted : TcpClientSender → List Bytes
accepted t = t.written ++ t.outbound

-- A step that neither writes nor queues.
abbrev Same : TcpClientSender → TcpClientSender → Type 0
Same t t' = (t'.written ≡ t.written) × (t'.outbound ≡ t.outbound)

close_connection-Same : (reason : String) (t : TcpClientSender) → Same t (close_connection reason t)
unfolding close_connection
close_connection-Same reason t = ground arith

end_attempt-Same : (b : ReconnectBackoff) (t : TcpClientSender) → Same t (end_attempt b t)
unfolding end_attempt
end_attempt-Same b t =
    let same = close_connection-Same (reason_or_default t.last_disconnect_reason) t in
    ground (arith, same)

fail_attempt-Same :
    (reason : String) (b : ReconnectBackoff) (t : TcpClientSender)
    → Same t (fail_attempt reason b t)
unfolding fail_attempt
fail_attempt-Same reason b t = end_attempt-Same b (
    emit_event (client_reconnect_pending reason b.current)
      (record t { last_disconnect_reason = reason }))

check_watch-Same :
    (w : Watch) (b : ReconnectBackoff) (t : TcpClientSender) → Same t (check_watch w b t)
unfolding check_watch
check_watch-Same watching b t = (refl, refl)
check_watch-Same has_data b t = (refl, refl)
check_watch-Same at_end b t = fail_attempt-Same "Remote server disconnected" b t
check_watch-Same (broken reason) b t = fail_attempt-Same reason b t

next_payload-Same :
    (b : ReconnectBackoff) (w : Watch) (t : TcpClientSender) → Same t (next_payload b w t)
unfolding next_payload
next_payload-Same b w t = ground (arith, check_watch-Same w b t, end_attempt-Same b t)

take_payload-accepted :
    (outbound : List Bytes) (b : ReconnectBackoff) (w : Watch) (t : TcpClientSender)
    → t.outbound ≡ outbound
    → accepted (take_payload outbound b w t) ≡ accepted t
unfolding take_payload
take_payload-accepted [] b w t e = refl
take_payload-accepted (payload ∷ rest) b w t e =
    append_assoc t.written (payload ∷ []) rest ∙ ap (λ o. t.written ++ o) (sym e)

joined : {w w' o o' : List Bytes} → (w' ≡ w) × (o' ≡ o) → ◌≡◌ {A = List Bytes} (w' ++ o') (w ++ o)
joined h = ap₂ (λ w o. w ++ o) h.0 h.1

turn_in-accepted :
    (phase : Phase) (u : Turn) (t : TcpClientSender) → accepted (turn_in phase u t) ≡ accepted t
unfolding turn_in next_attempt open_connection
turn_in-accepted (connecting b) connects t =
    let t' = emit_event client_connect (record t { writer = true; connected = true }) in
    joined (next_payload-Same (backoff_reset b) watching t')
turn_in-accepted (connecting b) (refused reason) t = joined (fail_attempt-Same reason b t)
turn_in-accepted (backing_off b) elapses t = refl
turn_in-accepted (polling b w) gets t = take_payload-accepted t.outbound b w t refl
turn_in-accepted (polling b w) times_out t = joined (next_payload-Same b w t)
turn_in-accepted (polling b w) (watched v) t = refl
turn_in-accepted (draining b w payload) (watched v) t = refl
turn_in-accepted (draining b w payload) drained t =
    let t' = emit_event (client_send (length payload)) t in joined (next_payload-Same b w t')
turn_in-accepted (draining b w payload) (breaks reason) t = joined (fail_attempt-Same reason b t)
turn_in-accepted _ _ t = refl

pub start-accepted : (t : TcpClientSender) → accepted (start t) ≡ accepted t
unfolding start next_attempt
start-accepted t = ground arith

cancel-Same : (phase : Phase) (t : TcpClientSender) → Same t (cancel phase t)
unfolding cancel
cancel-Same (connecting b) t = close_connection-Same (reason_or_default t.last_disconnect_reason) t
cancel-Same (polling b w) t = close_connection-Same (reason_or_default t.last_disconnect_reason) t
cancel-Same (draining b w payload) t =
    close_connection-Same (reason_or_default t.last_disconnect_reason) t
cancel-Same _ t = (refl, refl)

stop-accepted : (t : TcpClientSender) → accepted (stop t) ≡ accepted t
unfolding stop
stop-accepted t =
    let t' = record t { running = false } in
    let cancelled = cancel t.task t' in
    joined (close_connection-Same "client_stop" (record cancelled { task = no_task }))
    ∙ joined (cancel-Same t.task t')

-- Whatever the attempts, losses, stops and starts of a client: the payloads that it has written to its
-- connections, in order, and then those that are queued are the earlier ones and then those that the
-- calls of send hand over. So no payload is written twice, out of order, or left out before a later one.
pub sender_calls-accepted :
    (cs : List SenderCall) (t : TcpClientSender)
    → accepted (sender_calls cs t) ≡ accepted t ++ payloads cs
unfolding sender_calls sender_call
sender_calls-accepted [] t = sym (append-nil (accepted t))
sender_calls-accepted (start_call ∷ cs) t =
    sender_calls-accepted cs (start t) ∙ ap (λ l. l ++ payloads cs) (start-accepted t)
sender_calls-accepted (stop_call ∷ cs) t =
    sender_calls-accepted cs (stop t) ∙ ap (λ l. l ++ payloads cs) (stop-accepted t)
sender_calls-accepted (turn_call u ∷ cs) t =
    sender_calls-accepted cs (turn u t)
    ∙ ap (λ l. l ++ payloads cs) (unfold turn in turn_in-accepted t.task u t)
sender_calls-accepted (send_call payload ∷ cs) t =
    sender_calls-accepted cs (send payload t)
    ∙ ap (λ l. l ++ payloads cs) (sym (append_assoc t.written t.outbound (payload ∷ [])))
    ∙ append_assoc (accepted t) (payload ∷ []) (payloads cs)
