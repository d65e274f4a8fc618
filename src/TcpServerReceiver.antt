-- ===== src/TcpServerReceiver.antt =====
-- src/tcp_sim/transport/tcp_server_receiver.py: the TCP server that reads framed records from its
-- peers. The handler of a peer is a state machine: it waits for the end of a pause, or for a read, or is
-- at its end. What the sockets do comes in as an argument.
pub mod Counts
pub mod Stream
mod Tests
use tcp_server_simulator.Prelude.{
  Bool, Bytes, List, Option, Result, String, String-discrete, [], false, if◌then◌else◌, ite, length,
  none, not, ok, raise, some, true, ℕ, ◌++◌, ◌+◌, ◌>>=◌, ◌>>◌, ◌∷◌,
}
use tcp_server_simulator.Framer.Stream.{of_option}
use tcp_server_simulator.Framer.{
  FramedRecord, Framer, FramingMode, feed, flush, init as framer_init,
}

pub data Reason : Type 0 where
  eof cancelled : Reason
  error : String → Reason

pub data ReceiverEvent : Type 0 where
  receiver_listening : ℕ → ReceiverEvent
  receiver_stopped receiver_paused receiver_resumed : ReceiverEvent
  receiver_stop_timeout : ℕ → ReceiverEvent
  peer_connected : String → ReceiverEvent
  peer_disconnected : String → Reason → ReceiverEvent
  record_truncated : String → ℕ → ReceiverEvent

pub record TcpServerReceiver : Type 0 where
  pub framing_mode : FramingMode
  pub max_record_bytes : ℕ
  pub running : Bool
  pub paused : Bool
  pub peer_tasks : List String
  pub records_received : ℕ
  pub bytes_received : ℕ
  pub truncations : ℕ
  pub events : List ReceiverEvent

abbrev pub emit_event : ReceiverEvent → TcpServerReceiver → TcpServerReceiver
emit_event e t = record t { events = t.events ++ e ∷ [] }

-- `__init__`
unfoldable pub init : FramingMode → ℕ → TcpServerReceiver
init framing_mode max_record_bytes = record {
  framing_mode = framing_mode;
  max_record_bytes = max_record_bytes;
  running = false;
  paused = false;
  peer_tasks = [];
  records_received = 0;
  bytes_received = 0;
  truncations = 0;
  events = [];
}

-- `start` with what `asyncio.start_server` answers: the port it listens on, or an exception.
unfoldable pub start : Result ℕ → TcpServerReceiver → TcpServerReceiver × Result (Unit {0})
start (ok port) t =
    if t.running
    then (t, ok tt)
    else (emit_event (receiver_listening port) (record t { running = true }), ok tt)
start (raise err) t = if t.running then (t, ok tt) else (t, raise err)

abbrev pub note_stuck : Option ℕ → TcpServerReceiver → TcpServerReceiver
note_stuck none t = t
note_stuck (some n) t = emit_event (receiver_stop_timeout n) t

-- `stop`, with the number of the peers that do not end in time, if there are any.
unfoldable pub stop : Option ℕ → TcpServerReceiver → TcpServerReceiver
stop stuck t =
    if not t.running
    then t
    else emit_event receiver_stopped
        (record (note_stuck stuck (record t { running = false })) { peer_tasks = [] })

-- `set_paused`
unfoldable pub set_paused : Bool → TcpServerReceiver → TcpServerReceiver
set_paused true t = if t.paused then t else emit_event receiver_paused (record t { paused = true })
set_paused false t =
    if t.paused then emit_event receiver_resumed (record t { paused = false }) else t

unfoldable pub peer_count : TcpServerReceiver → ℕ
peer_count t = length t.peer_tasks

-- `_deliver`: the record goes to `on_record`, under the name of its peer.
unfoldable pub deliver : String → FramedRecord → TcpServerReceiver → TcpServerReceiver
deliver src framed t =
    let t' = record t { records_received = t.records_received + 1 } in
    if framed.truncated
    then emit_event (record_truncated src (length framed.payload))
        (record t' { truncations = t.truncations + 1 })
    else t'

unfoldable pub deliver_all : String → List FramedRecord → TcpServerReceiver → TcpServerReceiver
unfolding deliver
deliver_all src [] t = t
deliver_all src (framed ∷ rest) t = deliver_all src rest (deliver src framed t)

-- Where a handler waits: for the end of a pause, or for a read; or it has ended.
pub data Phase : Type 0 where
  waiting reading : Phase
  ended : Reason → Phase

pub record Peer : Type 0 where
  pub src : String
  pub framer : Framer
  pub phase : Phase

-- What a read gives: bytes, none of them at the end of the stream; or an exception.
pub data Read : Type 0 where
  chunk : Bytes → Read
  fails : String → Read

-- The end of a wait: a pause is over, a read is done, or the task of the handler is cancelled.
pub data Turn : Type 0 where
  resumes cancels : Turn
  reads : Read → Turn

-- A turn of the handler of a peer, with the records it delivers.
pub record Served : Type 0 where
  pub server : TcpServerReceiver
  pub peer : Peer
  pub delivered : List FramedRecord

abbrev pub without : String → List String → List String
without src [] = []
without src (s ∷ ss) = let rest = without src ss in ite (String-discrete src s) rest (s ∷ rest)

-- The `finally` of the handler.
abbrev pub close_peer : Reason → Peer → TcpServerReceiver → Served
close_peer reason p t = record {
  server =
      emit_event (peer_disconnected p.src reason)
        (record t { peer_tasks = without p.src t.peer_tasks });
  peer = record p { phase = ended reason };
  delivered = [];
}

-- The end of the loop: the trailing record, then the `finally`.
unfoldable pub finish_peer : Reason → Peer → TcpServerReceiver → Served
unfolding deliver_all flush
finish_peer reason p t =
    let f = flush p.framer in
    let trailing = of_option (f.1) in
    record (close_peer reason (record p { framer = f.0 }) (deliver_all p.src trailing t)) {
      delivered = trailing;
    }

abbrev pub idle : Peer → TcpServerReceiver → Served
idle p t = record { server = t; peer = p; delivered = [] }

-- The head of the loop, up to the next wait.
unfoldable pub enter : Peer → TcpServerReceiver → Served
unfolding finish_peer
enter p t =
    if not t.running
    then finish_peer eof p t
    else if t.paused
    then idle (record p { phase = waiting }) t
    else idle (record p { phase = reading }) t

-- A chunk that is not empty, and the head of the loop behind it.
unfoldable pub read_chunk : Bytes → Peer → TcpServerReceiver → Served
unfolding deliver_all feed enter
read_chunk bs p t =
    let f = feed p.framer bs in
    let t' = deliver_all p.src (f.1) (record t { bytes_received = t.bytes_received + length bs }) in
    let next = enter (record p { framer = f.0 }) t' in
    record next { delivered = f.1 ++ next.delivered }

unfoldable pub end_read : Read → Peer → TcpServerReceiver → Served
unfolding finish_peer read_chunk
end_read (chunk []) p t = finish_peer eof p t
end_read (chunk (b ∷ bs)) p t = read_chunk (b ∷ bs) p t
end_read (fails name) p t = finish_peer (error name) p t

-- `_handle_peer`, from one wait to the next; behind a pause it reads, with no test of its own.
unfoldable pub turn_in : Phase → Turn → Peer → TcpServerReceiver → Served
unfolding end_read
turn_in waiting resumes p t = idle (record p { phase = reading }) t
turn_in waiting cancels p t = close_peer cancelled p t
turn_in reading (reads r) p t = end_read r p t
turn_in reading cancels p t = close_peer cancelled p t
turn_in _ _ p t = idle p t

unfoldable pub turn : Turn → Peer → TcpServerReceiver → Served
unfolding turn_in
turn u p t = turn_in p.phase u p t

-- `_handle_peer` up to its first wait, under the name `_format_peer` gives the peer.
unfoldable pub connect : String → TcpServerReceiver → TcpServerReceiver × Result Served
unfolding framer_init enter
connect src t =
    let t' =
      emit_event (peer_connected src) (record t { peer_tasks = src ∷ without src t.peer_tasks }) in
    (
      t',
      do
        framer ← framer_init t.framing_mode t.max_record_bytes
        ok (enter (record { src = src; framer = framer; phase = reading }) t'),
    )

-- The life of a handler: its turns, and what everybody else does to the server in between.
pub data Event : Type 0 where
  takes : Turn → Event
  meanwhile : (TcpServerReceiver → TcpServerReceiver) → Event

unfoldable pub serve : List Event → Peer → TcpServerReceiver → Served
unfolding turn
serve [] p t = idle p t
serve (takes u ∷ events) p t =
    let s = turn u p t in
    let later = serve events s.peer s.server in
    record later { delivered = s.delivered ++ later.delivered }
serve (meanwhile f ∷ events) p t = serve events p (f t)
