-- ===== src/TcpClientSender.antt =====
-- src/tcp_sim/transport/tcp_client_sender.py: the TCP client that sends what is queued to a server, and
-- connects again when the connection ends. Its run task is a state machine over its waits; what a wait
-- ends with comes in as an argument, and a timeout is an OSError, as it is from Python 3.11 on. Seconds
-- are counted in thousandths.
pub mod Outbound
pub mod Stop
mod Tests
use tcp_server_simulator.Prelude.{
  Bool, Bytes, Error, List, Result, String, String-discrete, [], false, if◌then◌else◌, ite, length,
  not, ok, raise, raise_if, true, value_error, ℕ, ◌++◌, ◌+◌, ◌>>=◌, ◌>>◌, ◌∷◌,
}
use tcp_server_simulator.Backoff.{
  ReconnectBackoff, advance, reset as backoff_reset, init as backoff_init,
}

pub record TcpClientConfig : Type 0 where
  pub reconnect_max_backoff : ℕ
  pub use_tls : Bool
  pub tls_verify : Bool

-- `create_client_ssl_context`, of which only the refusal is modelled.
unfoldable pub create_client_ssl_context : Bool → Bool → Result (Unit {0})
create_client_ssl_context use_tls tls_verify =
    if not use_tls then ok tt else raise_if (not tls_verify) value_error

pub data SenderEvent : Type 0 where
  client_connect : SenderEvent
  client_reconnect_pending : String → ℕ → SenderEvent
  client_send : ℕ → SenderEvent
  client_disconnect : String → SenderEvent

-- `disconnect_watch`: a read of one byte that goes on, or has ended.
pub data Watch : Type 0 where
  watching has_data at_end : Watch
  broken : String → Watch

-- Where the run task waits: for a connection, for its next attempt, for a payload, for the end of a
-- write; or how it has ended.
pub data Phase : Type 0 where
  no_task ended : Phase
  connecting backing_off : ReconnectBackoff → Phase
  polling : ReconnectBackoff → Watch → Phase
  draining : ReconnectBackoff → Watch → Bytes → Phase
  failed : Error → Phase

-- `writer` is whether there is a connection, and `written` is what has been written to connections.
pub record TcpClientSender : Type 0 where
  pub config : TcpClientConfig
  pub running : Bool
  pub task : Phase
  pub writer : Bool
  pub outbound : List Bytes
  pub reconnect_count : ℕ
  pub last_disconnect_reason : String
  pub connected : Bool
  pub written : List Bytes
  pub events : List SenderEvent

abbrev pub emit_event : SenderEvent → TcpClientSender → TcpClientSender
emit_event e t = record t { events = t.events ++ e ∷ [] }

-- `__init__`
unfoldable pub init : TcpClientConfig → TcpClientSender
init config = record {
  config = config;
  running = false;
  task = no_task;
  writer = false;
  outbound = [];
  reconnect_count = 0;
  last_disconnect_reason = "";
  connected = false;
  written = [];
  events = [];
}

-- `send`
unfoldable pub send : Bytes → TcpClientSender → TcpClientSender
send payload t = record t { outbound = t.outbound ++ payload ∷ [] }

-- `reason or "disconnect"`
unfoldable pub reason_or_default : String → String
reason_or_default reason = ite (String-discrete reason "") "disconnect" reason

-- `_close_connection`
unfoldable pub close_connection : String → TcpClientSender → TcpClientSender
close_connection reason t =
    let t' = record t { writer = false; connected = false } in
    ite (String-discrete reason "") t'
      (emit_event (client_disconnect reason) (record t' { last_disconnect_reason = reason }))

-- The head of the loop.
unfoldable pub next_attempt : ReconnectBackoff → TcpClientSender → TcpClientSender
next_attempt b t = record t { task = if t.running then connecting b else ended }

-- The `finally` of an attempt, and what follows it.
unfoldable pub end_attempt : ReconnectBackoff → TcpClientSender → TcpClientSender
unfolding close_connection reason_or_default advance
end_attempt b t =
    let t' = close_connection (reason_or_default t.last_disconnect_reason) t in
    if not t'.running
    then record t' { task = ended }
    else record t' { reconnect_count = t'.reconnect_count + 1; task = backing_off (advance b).0 }

-- The `except OSError`.
unfoldable pub fail_attempt : String → ReconnectBackoff → TcpClientSender → TcpClientSender
unfolding end_attempt
fail_attempt reason b t = end_attempt b (
    emit_event (client_reconnect_pending reason b.current)
      (record t { last_disconnect_reason = reason }))

-- The head of `_connected_loop`: a watch that has ended raises, or is started again.
unfoldable pub check_watch : Watch → ReconnectBackoff → TcpClientSender → TcpClientSender
unfolding fail_attempt
check_watch watching b t = record t { task = polling b watching }
check_watch has_data b t = record t { task = polling b watching }
check_watch at_end b t = fail_attempt "Remote server disconnected" b t
check_watch (broken reason) b t = fail_attempt reason b t

unfoldable pub next_payload : ReconnectBackoff → Watch → TcpClientSender → TcpClientSender
unfolding check_watch end_attempt
next_payload b w t = if not t.running then end_attempt b t else check_watch w b t

unfoldable pub open_connection : ReconnectBackoff → TcpClientSender → TcpClientSender
unfolding next_payload backoff_reset
open_connection b t =
    next_payload (backoff_reset b) watching
      (emit_event client_connect (record t { writer = true; connected = true }))

-- A payload that `_outbound.get` gives is written at once.
unfoldable pub take_payload :
    List Bytes → ReconnectBackoff → Watch → TcpClientSender → TcpClientSender
take_payload [] b w t = t
take_payload (payload ∷ rest) b w t = record t {
  outbound = rest;
  written = t.written ++ payload ∷ [];
  task = draining b w payload;
}

-- What the wait of the task ends with, or the watch.
pub data Turn : Type 0 where
  connects elapses gets times_out drained : Turn
  refused breaks : String → Turn
  watched : Watch → Turn

-- The end of the watch, which happens once.
abbrev pub note_watch : Watch → Watch → Watch
note_watch watching w = w
note_watch old w = old

-- `_run` and `_connected_loop`, from one wait to the next.
unfoldable pub turn_in : Phase → Turn → TcpClientSender → TcpClientSender
unfolding open_connection fail_attempt next_attempt take_payload next_payload
turn_in (connecting b) connects t = open_connection b t
turn_in (connecting b) (refused reason) t = fail_attempt reason b t
turn_in (backing_off b) elapses t = next_attempt b t
turn_in (polling b w) gets t = take_payload t.outbound b w t
turn_in (polling b w) times_out t = next_payload b w t
turn_in (polling b w) (watched v) t = record t { task = polling b (note_watch w v) }
turn_in (draining b w payload) (watched v) t = record t {
  task = draining b (note_watch w v) payload;
}
turn_in (draining b w payload) drained t =
    next_payload b w (emit_event (client_send (length payload)) t)
turn_in (draining b w payload) (breaks reason) t = fail_attempt reason b t
turn_in _ _ t = t

unfoldable pub turn : Turn → TcpClientSender → TcpClientSender
unfolding turn_in
turn u t = turn_in t.task u t

abbrev pub second : ℕ
second = 1000

-- `_run` up to its loop.
unfoldable pub prepare : TcpClientConfig → Result ReconnectBackoff
unfolding backoff_init create_client_ssl_context
prepare config = do
  b ← backoff_init second config.reconnect_max_backoff
  create_client_ssl_context config.use_tls config.tls_verify
  ok b

abbrev pub run_from : Result ReconnectBackoff → TcpClientSender → TcpClientSender
unfolding next_attempt
run_from (ok b) t = next_attempt b t
run_from (raise err) t = record t { task = failed err }

-- `start`, which lets the task run to its first wait.
unfoldable pub start : TcpClientSender → TcpClientSender
unfolding prepare run_from
start t = if t.running then t else run_from (prepare t.config) (record t { running = true })

-- The cancellation of the task: an attempt that goes on has its `finally`.
unfoldable pub cancel : Phase → TcpClientSender → TcpClientSender
unfolding close_connection reason_or_default
cancel (connecting b) t = close_connection (reason_or_default t.last_disconnect_reason) t
cancel (polling b w) t = close_connection (reason_or_default t.last_disconnect_reason) t
cancel (draining b w payload) t = close_connection (reason_or_default t.last_disconnect_reason) t
cancel _ t = t

-- `stop`
unfoldable pub stop : TcpClientSender → TcpClientSender
unfolding cancel close_connection
stop t =
    let t' = cancel t.task (record t { running = false }) in
    close_connection "client_stop" (record t' { task = no_task })
