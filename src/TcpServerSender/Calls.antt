-- ===== src/TcpServerSender/Calls.antt =====
-- Every call of the TCP server sender keeps its set of ready clients right.
use tcp_server_simulator.Prelude.{
  All, Bool, Bytes, List, Option, Result, String, String-discrete, [], ap, false, if_pos,
  if◌then◌else◌, is_some, none, not, ok, raise, refl, some, true, ℕ, ◌∙◌, ◌∷◌, ◌≡◌,
}
use tcp_server_simulator.Connections.{
  ClientState, ConnectionManager, Refusal, enqueue_payload, get_client_state,
  get_disconnect_candidates, list_client_ids, new_client, pop_found, pop_next_payload, put_client,
  register_client,
}
use tcp_server_simulator.Connections.Fifo.{state-put}
use tcp_server_simulator.TcpServerSender.{
  Reason, TcpServerSender, after_enqueue, after_header, broadcast, broadcast_to, client_disconnect,
  disconnect_all, disconnect_alone, disconnect_client, header_of, is_member, is_nonempty,
  make_ready, monitor_slow_clients, on_client_connected, refused, send_failure, send_header,
  server_stop, slow_client_timeout, start, stop, take_payload, update_header_payload, with_member,
}
use tcp_server_simulator.TcpServerSender.Ready.{
  IsReady, IsRegistered, Keeps, Keeps-IsReady, disconnect_client-IsReady, disconnect_found-IsReady,
  enqueue_payload-Keeps, pop_found-Keeps, put-Keeps,
}

pub data ServerCall : Type 0 where
  starts : Result ℕ → ServerCall
  stops : ServerCall
  updates_header : Bool → Option Bytes → ServerCall
  broadcasts : ℕ → Bytes → ServerCall
  connects : ℕ → String → ℕ → ServerCall
  reader_ends fails_to_write : String → ServerCall
  takes_payload : ℕ → String → ServerCall
  monitors : ℕ → ServerCall

unfoldable pub server_call : ServerCall → TcpServerSender → TcpServerSender
unfolding start stop broadcast on_client_connected disconnect_alone disconnect_client take_payload
    monitor_slow_clients update_header_payload
server_call (starts answer) s = (start answer s).0
server_call stops s = stop s
server_call (updates_header send header) s = update_header_payload send header s
server_call (broadcasts now payload) s = broadcast now payload s
server_call (connects now client_id writer) s = on_client_connected now client_id writer s
server_call (reader_ends client_id) s = disconnect_alone client_id client_disconnect s
server_call (fails_to_write client_id) s = disconnect_client client_id send_failure s
server_call (takes_payload now client_id) s = (take_payload now client_id s).0
server_call (monitors now) s = monitor_slow_clients now s

IsReady-if :
    (b : Bool) (s t : TcpServerSender) → IsReady s → IsReady t → IsReady (if b then s else t)
IsReady-if true s t r q = r
IsReady-if false s t r q = q

IsReady-if_pair :
    {X : Type 0} (b : Bool) (p q : TcpServerSender × X)
    → IsReady (p.0)
    → IsReady (q.0)
    → IsReady ((if b then p else q).0)
IsReady-if_pair true p q r q' = r
IsReady-if_pair false p q r q' = q'

disconnect_all-IsReady :
    (ids : List String) (reason : Reason) (s : TcpServerSender)
    → IsReady s
    → IsReady (disconnect_all ids reason s)
unfolding disconnect_all
disconnect_all-IsReady [] reason s r = r
disconnect_all-IsReady (client_id ∷ ids) reason s r =
    disconnect_all-IsReady ids reason (disconnect_client client_id reason s)
      (disconnect_client-IsReady client_id reason s r)

after_enqueue-IsReady :
    (client_id : String) (r : ConnectionManager × Option Refusal) (s : TcpServerSender)
    → Keeps s.manager (r.0)
    → IsReady s
    → IsReady (after_enqueue client_id r s)
after_enqueue-IsReady client_id (m, none) s k h = Keeps-IsReady m s k h
after_enqueue-IsReady client_id (m, some refusal) s k h =
    disconnect_client-IsReady client_id (refused refusal) (record s { manager = m })
      (Keeps-IsReady m s k h)

broadcast_to-IsReady :
    (now : ℕ) (payload : Bytes) (ids : List String) (s : TcpServerSender)
    → IsReady s
    → IsReady (broadcast_to now payload ids s)
unfolding broadcast_to
broadcast_to-IsReady now payload [] s h = h
broadcast_to-IsReady now payload (client_id ∷ ids) s h =
    broadcast_to-IsReady now payload ids
      (after_enqueue client_id (enqueue_payload now client_id payload s.manager) s)
      (after_enqueue-IsReady client_id (enqueue_payload now client_id payload s.manager) s
        (enqueue_payload-Keeps now client_id payload s.manager) h)

broadcast-IsReady :
    (now : ℕ) (payload : Bytes) (s : TcpServerSender)
    → IsReady s
    → IsReady (broadcast now payload s)
unfolding broadcast
broadcast-IsReady now [] s h = h
broadcast-IsReady now (b ∷ bs) s h = broadcast_to-IsReady now (b ∷ bs) s.broadcast_ready_clients s h

All-if :
    (b : Bool) (P : String → Type 0) (xs ys : List String)
    → All P xs
    → All P ys
    → All P (if b then xs else ys)
All-if true P xs ys h k = h
All-if false P xs ys h k = k

nonempty-if :
    (b : Bool) (xs ys : List String)
    → is_nonempty xs ≡ true
    → is_nonempty ys ≡ true
    → is_nonempty (if b then xs else ys) ≡ true
nonempty-if true xs ys h k = h
nonempty-if false xs ys h k = k

with_member-nonempty :
    (client_id : String) (js : List String) → is_nonempty (with_member client_id js) ≡ true
with_member-nonempty client_id [] = refl
with_member-nonempty client_id (j ∷ js) =
    nonempty-if (is_member client_id (j ∷ js)) (j ∷ js) (client_id ∷ j ∷ js) refl refl

with_member-All :
    (P : String → Type 0) (client_id : String) (js : List String)
    → P client_id
    → All P js
    → All P (with_member client_id js)
with_member-All P client_id js p h = All-if (is_member client_id js) P js (client_id ∷ js) h (p, h)

make_ready-IsReady :
    (client_id : String) (s : TcpServerSender)
    → IsRegistered s.manager client_id
    → IsReady s
    → IsReady (make_ready client_id s)
make_ready-IsReady client_id s p h = record {
  registered =
      with_member-All (IsRegistered s.manager) client_id s.broadcast_ready_clients p h.registered;
  woken = λ e. with_member-nonempty client_id s.broadcast_ready_clients;
}

after_header-IsReady :
    (client_id : String) (r : ConnectionManager × Option Refusal) (s : TcpServerSender)
    → Keeps s.manager (r.0)
    → IsRegistered s.manager client_id
    → IsReady s
    → IsReady (after_header client_id r s)
unfolding Keeps
after_header-IsReady client_id (m, none) s k p h =
    make_ready-IsReady client_id (record s { manager = m }) (k client_id p) (Keeps-IsReady m s k h)
after_header-IsReady client_id (m, some refusal) s k p h =
    disconnect_client-IsReady client_id (refused refusal) (record s { manager = m })
      (Keeps-IsReady m s k h)

send_header-IsReady :
    (now : ℕ) (client_id : String) (header : Option Bytes) (s : TcpServerSender)
    → IsRegistered s.manager client_id
    → IsReady s
    → IsReady (send_header now client_id header s)
send_header-IsReady now client_id none s p h = make_ready-IsReady client_id s p h
send_header-IsReady now client_id (some header) s p h =
    after_header-IsReady client_id (enqueue_payload now client_id header s.manager) s
      (enqueue_payload-Keeps now client_id header s.manager) p h

put-IsRegistered :
    (client_id : String) (state : ClientState) (m : ConnectionManager)
    → IsRegistered (put_client client_id state m) client_id
put-IsRegistered client_id state m = ap is_some (
    state-put client_id client_id state m
    ∙ if_pos (String-discrete client_id client_id) refl (some state) (get_client_state m client_id))

connect-IsReady :
    (now : ℕ) (client_id : String) (writer : ℕ) (s : TcpServerSender)
    → IsReady s
    → IsReady (on_client_connected now client_id writer s)
unfolding on_client_connected register_client
connect-IsReady now client_id writer s h =
    let m = put_client client_id (new_client client_id writer) s.manager in
    let k = Keeps-IsReady m s (put-Keeps client_id (new_client client_id writer) s.manager) h in
    send_header-IsReady now client_id (header_of s.send_header_on_connect s.header_payload) _
      (put-IsRegistered client_id (new_client client_id writer) s.manager)
      (record { registered = k.registered; woken = k.woken })

stop-IsReady : (s : TcpServerSender) → IsReady s → IsReady (stop s)
unfolding stop
stop-IsReady s h =
    let r =
      disconnect_all-IsReady (list_client_ids s.manager) server_stop (record s { running = false })
        (record { registered = h.registered; woken = h.woken }) in
    IsReady-if (not s.running) s _ h (record { registered = r.registered; woken = λ e. cc })

start-IsReady : (answer : Result ℕ) (s : TcpServerSender) → IsReady s → IsReady ((start answer s).0)
unfolding start
start-IsReady (ok port) s h =
    IsReady-if_pair s.running (s, ok tt) _ h (record { registered = h.registered; woken = h.woken })
start-IsReady (raise err) s h = IsReady-if_pair s.running (s, ok tt) (s, raise err) h h

take_payload-IsReady :
    (now : ℕ) (client_id : String) (s : TcpServerSender)
    → IsReady s
    → IsReady ((take_payload now client_id s).0)
unfolding take_payload pop_next_payload
take_payload-IsReady now client_id s h =
    let r = pop_found now client_id s.manager (get_client_state s.manager client_id) in
    IsReady-if_pair s.running (record s { manager = r.0 }, r.1) (s, none)
      (Keeps-IsReady (r.0) s
        (pop_found-Keeps now client_id s.manager (get_client_state s.manager client_id)) h)
      h

-- Under every call of the server, and every end and turn of its tasks, each client that is ready for a
-- broadcast is a connected one, and the event that announces ready clients is set only while there is
-- one.
pub server_call-IsReady :
    (c : ServerCall) (s : TcpServerSender) → IsReady s → IsReady (server_call c s)
unfolding server_call
server_call-IsReady (starts answer) s h = start-IsReady answer s h
server_call-IsReady stops s h = stop-IsReady s h
server_call-IsReady (updates_header send header) s h =
    unfold update_header_payload in (record { registered = h.registered; woken = h.woken })
server_call-IsReady (broadcasts now payload) s h = broadcast-IsReady now payload s h
server_call-IsReady (connects now client_id writer) s h = connect-IsReady now client_id writer s h
server_call-IsReady (reader_ends client_id) s h =
    unfold disconnect_alone in
    (disconnect_found-IsReady client_id client_disconnect (get_client_state s.manager client_id) s
      h)
server_call-IsReady (fails_to_write client_id) s h =
    disconnect_client-IsReady client_id send_failure s h
server_call-IsReady (takes_payload now client_id) s h = take_payload-IsReady now client_id s h
server_call-IsReady (monitors now) s h =
    unfold monitor_slow_clients in
    (IsReady-if s.running _ s
      (disconnect_all-IsReady (get_disconnect_candidates now s.manager) slow_client_timeout s h) h)
