-- ===== src/TcpServerSender.antt =====
-- src/tcp_sim/transport/tcp_server_sender.py: the TCP server that broadcasts to its clients. A call
-- runs here to its end; what other tasks do at the waits of a disconnect is left out, except the end
-- of the reader task that the disconnect itself cancels.
pub mod Ready
pub mod Calls
pub mod Disconnect
mod Tests
use tcp_server_simulator.Prelude.{
  Bool, Bytes, List, Option, Result, String, String-discrete, [], false, if◌then◌else◌, ite, ltb,
  map, none, not, ok, raise, some, true, ℕ, ◌&&◌, ◌++◌, ◌∷◌,
}
use tcp_server_simulator.Connections.{
  ClientState, ConnectionManager, QueueThresholds, Refusal, connected_clients, enqueue_payload,
  get_client_state, get_disconnect_candidates, list_client_ids, pop_next_payload, register_client,
  unregister_client,
}

pub data Reason : Type 0 where
  server_stop client_disconnect send_failure slow_client_timeout : Reason
  refused : Refusal → Reason

pub data ServerEvent : Type 0 where
  server_started : ℕ → ServerEvent
  server_stopped : ServerEvent
  client_connected : String → ServerEvent
  client_disconnected : String → Reason → ServerEvent

pub record TcpServerSender : Type 0 where
  pub manager : ConnectionManager
  pub reader_tasks : List String
  pub running : Bool
  pub send_header_on_connect : Bool
  pub header_payload : Option Bytes
  pub broadcast_ready_clients : List String
  pub broadcast_ready_event : Bool
  pub events : List ServerEvent

abbrev pub emit_event : ServerEvent → TcpServerSender → TcpServerSender
emit_event e s = record s { events = s.events ++ e ∷ [] }

-- `__init__`
unfoldable pub init : QueueThresholds → Bool → Option Bytes → TcpServerSender
init thresholds send_header_on_connect header_payload = record {
  manager = record { thresholds = thresholds; clients = [] };
  reader_tasks = [];
  running = false;
  send_header_on_connect = send_header_on_connect;
  header_payload = header_payload;
  broadcast_ready_clients = [];
  broadcast_ready_event = false;
  events = [];
}

abbrev pub is_nonempty {ℓ} : {A : Type ℓ} → List A → Bool
is_nonempty [] = false
is_nonempty (a ∷ as_) = true

unfoldable pub has_clients : TcpServerSender → Bool
unfolding connected_clients
has_clients s = ltb 0 (connected_clients s.manager)

unfoldable pub has_broadcast_clients : TcpServerSender → Bool
has_broadcast_clients s = is_nonempty s.broadcast_ready_clients

unfoldable pub queue_bytes_by_client : TcpServerSender → List (String × ℕ)
queue_bytes_by_client s = map (λ e. (e.0, e.1.queued_bytes)) s.manager.clients

unfoldable pub update_header_payload : Bool → Option Bytes → TcpServerSender → TcpServerSender
update_header_payload send header s = record s {
  send_header_on_connect = send;
  header_payload = header;
}

-- `start` with the port that `asyncio.start_server` listens on, or its exception.
unfoldable pub start : Result ℕ → TcpServerSender → TcpServerSender × Result (Unit {0})
start (ok port) s =
    if s.running
    then (s, ok tt)
    else (emit_event (server_started port) (record s { running = true }), ok tt)
start (raise err) s = if s.running then (s, ok tt) else (s, raise err)

abbrev pub is_member : String → List String → Bool
is_member client_id [] = false
is_member client_id (j ∷ js) = ite (String-discrete client_id j) true (is_member client_id js)

abbrev pub without : String → List String → List String
without client_id [] = []
without client_id (j ∷ js) =
    let rest = without client_id js in ite (String-discrete client_id j) rest (j ∷ rest)

-- `set.add`
abbrev pub with_member : String → List String → List String
with_member client_id js = if is_member client_id js then js else client_id ∷ js

-- The beginning of `_disconnect_client`: the client is no longer ready, and its tasks are taken out.
unfoldable pub leave : String → TcpServerSender → TcpServerSender
leave client_id s =
    let ready = without client_id s.broadcast_ready_clients in
    record s {
      broadcast_ready_clients = ready;
      broadcast_ready_event = is_nonempty ready && s.broadcast_ready_event;
      reader_tasks = without client_id s.reader_tasks;
    }

-- Its end.
unfoldable pub close_client : String → Reason → TcpServerSender → TcpServerSender
unfolding unregister_client
close_client client_id reason s =
    emit_event (client_disconnected client_id reason)
      (record s { manager = unregister_client client_id s.manager })

-- `_disconnect_client` by the reader task, or when there is no reader task.
unfoldable pub disconnect_found :
    String → Reason → Option ClientState → TcpServerSender → TcpServerSender
unfolding leave close_client
disconnect_found client_id reason none s = s
disconnect_found client_id reason (some state) s = close_client client_id reason (leave client_id s)

unfoldable pub disconnect_alone : String → Reason → TcpServerSender → TcpServerSender
unfolding disconnect_found get_client_state
disconnect_alone client_id reason s =
    disconnect_found client_id reason (get_client_state s.manager client_id) s

-- The reader task that is cancelled ends in the `finally` of `_reader_loop`.
abbrev pub cancel_reader : Bool → String → TcpServerSender → TcpServerSender
cancel_reader true client_id s = disconnect_alone client_id client_disconnect s
cancel_reader false client_id s = s

unfoldable pub disconnect_other :
    String → Reason → Option ClientState → TcpServerSender → TcpServerSender
unfolding leave close_client disconnect_alone
disconnect_other client_id reason none s = s
disconnect_other client_id reason (some state) s =
    close_client client_id reason
      (cancel_reader (is_member client_id s.reader_tasks) client_id (leave client_id s))

-- `_disconnect_client` by any other task.
unfoldable pub disconnect_client : String → Reason → TcpServerSender → TcpServerSender
unfolding disconnect_other get_client_state
disconnect_client client_id reason s =
    disconnect_other client_id reason (get_client_state s.manager client_id) s

unfoldable pub disconnect_all : List String → Reason → TcpServerSender → TcpServerSender
unfolding disconnect_client
disconnect_all [] reason s = s
disconnect_all (client_id ∷ ids) reason s =
    disconnect_all ids reason (disconnect_client client_id reason s)

-- `stop`
unfoldable pub stop : TcpServerSender → TcpServerSender
unfolding disconnect_all list_client_ids
stop s =
    if not s.running
    then s
    else let s' =
        disconnect_all (list_client_ids s.manager) server_stop (record s { running = false }) in
      record (emit_event server_stopped s') { broadcast_ready_event = false }

abbrev pub after_enqueue :
    String → ConnectionManager × Option Refusal → TcpServerSender → TcpServerSender
after_enqueue client_id (m, none) s = record s { manager = m }
after_enqueue client_id (m, some refusal) s =
    disconnect_client client_id (refused refusal) (record s { manager = m })

-- `broadcast`, on the clients that were ready at its beginning.
unfoldable pub broadcast_to : ℕ → Bytes → List String → TcpServerSender → TcpServerSender
unfolding enqueue_payload
broadcast_to now payload [] s = s
broadcast_to now payload (client_id ∷ ids) s =
    broadcast_to now payload ids
      (after_enqueue client_id (enqueue_payload now client_id payload s.manager) s)

unfoldable pub broadcast : ℕ → Bytes → TcpServerSender → TcpServerSender
unfolding broadcast_to
broadcast now [] s = s
broadcast now (b ∷ bs) s = broadcast_to now (b ∷ bs) s.broadcast_ready_clients s

-- `_on_client_connected` behind the header: the client is ready, and is read from.
abbrev pub make_ready : String → TcpServerSender → TcpServerSender
make_ready client_id s = record s {
  broadcast_ready_clients = with_member client_id s.broadcast_ready_clients;
  broadcast_ready_event = true;
  reader_tasks = with_member client_id s.reader_tasks;
}

abbrev pub after_header :
    String → ConnectionManager × Option Refusal → TcpServerSender → TcpServerSender
after_header client_id (m, none) s = make_ready client_id (record s { manager = m })
after_header client_id (m, some refusal) s =
    disconnect_client client_id (refused refusal) (record s { manager = m })

-- The header, if it is to be sent and is not empty.
abbrev pub header_of : Bool → Option Bytes → Option Bytes
header_of true (some (b ∷ bs)) = some (b ∷ bs)
header_of _ _ = none

abbrev pub send_header : ℕ → String → Option Bytes → TcpServerSender → TcpServerSender
send_header now client_id none s = make_ready client_id s
send_header now client_id (some header) s =
    after_header client_id (enqueue_payload now client_id header s.manager) s

-- `_on_client_connected`
unfoldable pub on_client_connected : ℕ → String → ℕ → TcpServerSender → TcpServerSender
unfolding enqueue_payload register_client disconnect_client
on_client_connected now client_id writer s =
    send_header now client_id (header_of s.send_header_on_connect s.header_payload) (
      emit_event (client_connected client_id)
        (record s { manager = register_client client_id writer s.manager }))

-- `_writer_loop`: what it takes to write next; a failure to write disconnects the client.
unfoldable pub take_payload : ℕ → String → TcpServerSender → TcpServerSender × Option Bytes
unfolding pop_next_payload
take_payload now client_id s =
    if s.running
    then (let r = pop_next_payload now client_id s.manager in (record s { manager = r.0 }, r.1))
    else (s, none)

-- A pass of `_monitor_slow_clients`.
unfoldable pub monitor_slow_clients : ℕ → TcpServerSender → TcpServerSender
unfolding get_disconnect_candidates disconnect_all
monitor_slow_clients now s =
    if s.running
    then disconnect_all (get_disconnect_candidates now s.manager) slow_client_timeout s
    else s
