-- ===== src/TcpClientReceiver.antt =====
-- src/tcp_sim/transport/tcp_client_receiver.py: the TCP client that connects to a server, reads framed
-- records from it, and connects again when the connection ends. Its run task is a state machine over
-- its waits; what a wait ends with comes in as an argument. Seconds are counted in thousandths.
pub mod Calls
pub mod Reconnect
mod Tests
use tcp_server_simulator.Prelude.{
  Bool, Bytes, Error, List, Result, String, [], false, if◌then◌else◌, length, not, ok, raise, true,
  ℕ, ◌++◌, ◌+◌, ◌>>=◌, ◌>>◌, ◌∷◌,
}
use tcp_server_simulator.Framer.{
  FramedRecord, Framer, FramingMode, feed, flush, init as framer_init,
}
use tcp_server_simulator.Framer.Stream.{of_option}
use tcp_server_simulator.TcpClientSender.{create_client_ssl_context}
use tcp_server_simulator.Backoff.{
  ReconnectBackoff, advance, init as backoff_init, reset as backoff_reset,
}

pub data Reason : Type 0 where
  eof : Reason
  error connect_error : String → Reason

pub data ClientEvent : Type 0 where
  receiver_connected receiver_paused receiver_resumed receiver_stopped : ClientEvent
  receiver_disconnected : Reason → ClientEvent
  reconnect_pending : Reason → ℕ → ClientEvent
  record_truncated : ℕ → ClientEvent

pub record TcpClientReceiverConfig : Type 0 where
  pub reconnect_max_backoff : ℕ
  pub framing_mode : FramingMode
  pub max_record_bytes : ℕ
  pub use_tls : Bool
  pub tls_verify : Bool

-- Where the run task waits: for a connection, for its next attempt, for the end of a pause, behind the
-- end of a pause, in a read; or how it has ended.
pub data Phase : Type 0 where
  no_task ended : Phase
  connecting backing_off : ReconnectBackoff → Phase
  waiting woken reading : ReconnectBackoff → Framer → Phase
  failed : Error → Phase

-- `writer` is whether there is a connection, and `delivered` is what has gone to `on_record`.
pub record TcpClientReceiver : Type 0 where
  pub config : TcpClientReceiverConfig
  pub running : Bool
  pub task : Phase
  pub writer : Bool
  pub paused : Bool
  pub reconnect_count : ℕ
  pub records_received : ℕ
  pub bytes_received : ℕ
  pub truncations : ℕ
  pub connected : Bool
  pub delivered : List FramedRecord
  pub events : List ClientEvent

abbrev pub emit_event : ClientEvent → TcpClientReceiver → TcpClientReceiver
emit_event e t = record t { events = t.events ++ e ∷ [] }

-- `__init__`
unfoldable pub init : TcpClientReceiverConfig → TcpClientReceiver
init config = record {
  config = config;
  running = false;
  task = no_task;
  writer = false;
  paused = false;
  reconnect_count = 0;
  records_received = 0;
  bytes_received = 0;
  truncations = 0;
  connected = false;
  delivered = [];
  events = [];
}

-- `_close_writer`
abbrev pub close_writer : TcpClientReceiver → TcpClientReceiver
close_writer t = record t { writer = false }

-- `_deliver`
unfoldable pub deliver : FramedRecord → TcpClientReceiver → TcpClientReceiver
deliver framed t =
    let t' = record t {
      records_received = t.records_received + 1;
      delivered = t.delivered ++ framed ∷ [];
    } in
    if framed.truncated
    then emit_event (record_truncated (length framed.payload))
        (record t' { truncations = t.truncations + 1 })
    else t'

unfoldable pub deliver_all : List FramedRecord → TcpClientReceiver → TcpClientReceiver
unfolding deliver
deliver_all [] t = t
deliver_all (framed ∷ rest) t = deliver_all rest (deliver framed t)

-- The head of the outer loop.
unfoldable pub next_attempt : ReconnectBackoff → TcpClientReceiver → TcpClientReceiver
next_attempt b t = record t { task = if t.running then connecting b else ended }

-- The wait before the next attempt.
unfoldable pub back_off : Reason → ReconnectBackoff → TcpClientReceiver → TcpClientReceiver
unfolding advance
back_off reason b t =
    let (b', delay) = advance b in
    emit_event (reconnect_pending reason delay) (record t { task = backing_off b' })

-- The `finally` of a connection.
abbrev pub close_connection : Reason → TcpClientReceiver → TcpClientReceiver
close_connection reason t =
    emit_event (receiver_disconnected reason) (close_writer (record t { connected = false }))

-- What follows a connection that is closed.
unfoldable pub after_connection : Reason → ReconnectBackoff → TcpClientReceiver → TcpClientReceiver
unfolding back_off
after_connection reason b t =
    if not t.running
    then record t { task = ended }
    else back_off reason b (record t { reconnect_count = t.reconnect_count + 1 })

-- The end of the inner loop: the trailing record, the `finally`, and what follows.
unfoldable pub finish : Reason → ReconnectBackoff → Framer → TcpClientReceiver → TcpClientReceiver
unfolding deliver_all after_connection flush
finish reason b f t =
    after_connection reason b (close_connection reason (deliver_all (of_option (flush f).1) t))

-- The head of the inner loop.
unfoldable pub next_read : ReconnectBackoff → Framer → TcpClientReceiver → TcpClientReceiver
unfolding finish
next_read b f t =
    if not t.running
    then finish eof b f t
    else record t { task = if t.paused then waiting b f else reading b f }

-- What follows a connection: the framer may refuse its limit, which ends the task.
abbrev pub read_with : Result Framer → ReconnectBackoff → TcpClientReceiver → TcpClientReceiver
unfolding next_read
read_with (ok f) b t = next_read b f t
read_with (raise err) b t = record t { task = failed err }

unfoldable pub open_connection : ReconnectBackoff → TcpClientReceiver → TcpClientReceiver
unfolding read_with framer_init backoff_reset
open_connection b t =
    read_with (framer_init t.config.framing_mode t.config.max_record_bytes) (backoff_reset b)
      (emit_event receiver_connected (record t { writer = true; connected = true }))

-- What a read gives: bytes, none of them at the end of the stream, or an exception.
pub data Read : Type 0 where
  chunk : Bytes → Read
  fails : String → Read

unfoldable pub end_read : Read → ReconnectBackoff → Framer → TcpClientReceiver → TcpClientReceiver
unfolding finish next_read deliver_all feed
end_read (fails name) b f t = finish (error name) b f t
end_read (chunk []) b f t = finish eof b f t
end_read (chunk (x ∷ xs)) b f t =
    let fed = feed f (x ∷ xs) in
    next_read b fed.0
      (deliver_all fed.1 (record t { bytes_received = t.bytes_received + length (x ∷ xs) }))

-- What the wait of the task ends with.
pub data Turn : Type 0 where
  connects elapses : Turn
  refused : String → Turn
  reads : Read → Turn

-- `_run`, from one wait to the next.
unfoldable pub turn_in : Phase → Turn → TcpClientReceiver → TcpClientReceiver
unfolding open_connection back_off next_attempt end_read
turn_in (connecting b) connects t = open_connection b t
turn_in (connecting b) (refused name) t = back_off (connect_error name) b t
turn_in (backing_off b) elapses t = next_attempt b t
turn_in (woken b f) elapses t = record t { task = reading b f }
turn_in (reading b f) (reads r) t = end_read r b f t
turn_in _ _ t = t

unfoldable pub turn : Turn → TcpClientReceiver → TcpClientReceiver
unfolding turn_in
turn u t = turn_in t.task u t

-- `_run` up to its loop.
abbrev pub second : ℕ
second = 1000

unfoldable pub prepare : TcpClientReceiverConfig → Result ReconnectBackoff
unfolding backoff_init create_client_ssl_context
prepare config = do
  b ← backoff_init second config.reconnect_max_backoff
  create_client_ssl_context config.use_tls config.tls_verify
  ok b

abbrev pub run_from : Result ReconnectBackoff → TcpClientReceiver → TcpClientReceiver
unfolding next_attempt
run_from (ok b) t = next_attempt b t
run_from (raise err) t = record t { task = failed err }

-- `start`, which lets the task run to its first wait.
unfoldable pub start : TcpClientReceiver → TcpClientReceiver
unfolding prepare run_from
start t = if t.running then t else run_from (prepare t.config) (record t { running = true })

-- The cancellation of the task, with the exception that waiting for it raises.
unfoldable pub cancel : Phase → TcpClientReceiver → TcpClientReceiver × Result (Unit {0})
cancel (waiting b f) t = (close_connection eof t, ok tt)
cancel (woken b f) t = (close_connection eof t, ok tt)
cancel (reading b f) t = (close_connection eof t, ok tt)
cancel (failed err) t = (record t { task = failed err }, raise err)
cancel _ t = (t, ok tt)

abbrev pub stop_with : TcpClientReceiver × Result (Unit {0}) → TcpClientReceiver × Result (Unit {0})
stop_with (t, ok u) =
    (emit_event receiver_stopped (close_writer (record t { task = no_task })), ok tt)
stop_with (t, raise err) = (t, raise err)

-- `stop`
unfoldable pub stop : TcpClientReceiver → TcpClientReceiver × Result (Unit {0})
unfolding cancel
stop t =
    if not t.running then (t, ok tt) else stop_with (cancel t.task (record t { running = false }))

abbrev pub wake : Phase → Phase
wake (waiting b f) = woken b f
wake phase = phase

-- `set_paused`
unfoldable pub set_paused : Bool → TcpClientReceiver → TcpClientReceiver
set_paused true t =
    if not t.paused then emit_event receiver_paused (record t { paused = true }) else t
set_paused false t =
    if t.paused
    then emit_event receiver_resumed (record t { paused = false; task = wake t.task })
    else t
