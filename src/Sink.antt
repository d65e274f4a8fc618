-- ===== src/Sink.antt =====
-- src/tcp_sim/engine/sink_writer.py: the sink writer, its queue and its drain loop. What the library
-- functions of Python make of a record in JSON is a parameter.
pub mod Config
pub mod Drain
pub mod Same
pub mod Accounting
pub mod Drops
pub mod Signals
pub mod Backpressure
pub mod Rotation
pub mod Archive
pub mod Waiters
mod Tests
pub mod Files
use tcp_server_simulator.Prelude.{
  Bool, Bytes, List, Option, String, String-discrete, [], false, if◌then◌else◌, ite, leb, length,
  ltb, none, not, some, true, ℕ, ◌&&◌, ◌++◌, ◌+◌, ◌∷◌,
}
use tcp_server_simulator.Framer.{FramedRecord}
use Config.{
  SinkConfig, SinkEvent, SinkFormat, SinkStats, delimited, jsonl, sink_high_watermark,
  sink_low_watermark, sink_reconfigured, sink_record_dropped, sink_rotated, sink_started,
  sink_stopped,
}
use Files.{Disk, Family, append_file, content_of, rotate_family, set_family, touch}

-- The values of a JSON object.
pub data Scalar : Type 0 where
  text : Bytes → Scalar
  number : ℕ → Scalar
  flag : Bool → Scalar

-- What `_encode` calls: the clock, the decoding of UTF-8, base64, and `json.dumps` with the encoding
-- of its result.
pub record Codec : Type 0 where
  pub now_iso : ℕ → Bytes
  pub decode : Bytes → Option Bytes
  pub b64encode : Bytes → Bytes
  pub utf8 : String → Bytes
  pub dumps : List (String × Scalar) → Bytes

pub record QueueItem : Type 0 where
  pub framed : FramedRecord
  pub src : String
  pub stop : Bool

-- A caller of `configure` waits, under a number of its own, until its configuration is applied.
pub record PendingConfig : Type 0 where
  pub cfg : SinkConfig
  pub waiter : ℕ

-- The background task: not there, created, in its loop, or at its end.
pub data Task : Type 0 where
  no_task created draining finished : Task

pub record SinkWriter : Type 0 where
  pub cfg : SinkConfig
  pub queue : List QueueItem
  pub queued_bytes : ℕ
  pub stats : SinkStats
  pub task : Task
  pub fh : Option String
  pub current_path : Option String
  pub backpressured : Bool
  pub pending_config : Option PendingConfig
  pub stopping : Bool
  pub disk : Disk
  pub events : List SinkEvent
  pub done : List ℕ

-- `__init__`
unfoldable pub init : SinkConfig → Disk → SinkWriter
init config disk = record {
  cfg = config;
  queue = [];
  queued_bytes = 0;
  stats = record {
    records_written = 0;
    bytes_written = 0;
    rotations = 0;
    records_dropped = 0;
    current_path = config.path;
    current_file_size = 0;
  };
  task = no_task;
  fh = none;
  current_path = none;
  backpressured = false;
  pending_config = none;
  stopping = false;
  disk = disk;
  events = [];
  done = [];
}

abbrev pub emit_event : SinkEvent → SinkWriter → SinkWriter
emit_event e w = record w { events = w.events ++ e ∷ [] }

-- `_update_backpressure`
unfoldable pub update_backpressure : SinkWriter → SinkWriter
update_backpressure w =
    if not w.backpressured && leb w.cfg.queue_high_watermark_bytes w.queued_bytes
    then emit_event (sink_high_watermark w.queued_bytes) (record w { backpressured = true })
    else if w.backpressured && leb w.queued_bytes w.cfg.queue_low_watermark_bytes
    then emit_event (sink_low_watermark w.queued_bytes) (record w { backpressured = false })
    else w

abbrev pub item_of : FramedRecord → String → QueueItem
item_of framed src = record { framed = framed; src = src; stop = false }

abbrev pub blank : FramedRecord
blank = record { payload = []; truncated = false }

-- The items that `configure` and `stop` put into the queue.
abbrev pub wake_up : QueueItem
wake_up = record { framed = blank; src = ""; stop = false }

abbrev pub stop_item : QueueItem
stop_item = record { framed = blank; src = ""; stop = true }

abbrev pub push_item : QueueItem → SinkWriter → SinkWriter
push_item item w = record w { queue = w.queue ++ item ∷ [] }

abbrev pub count_drop : SinkWriter → SinkWriter
count_drop w = record w { stats = record w.stats { records_dropped = w.stats.records_dropped + 1 } }

-- `submit`
unfoldable pub submit : FramedRecord → String → SinkWriter → SinkWriter × Bool
unfolding update_backpressure
submit framed src w =
    let size = length framed.payload in
    if not w.cfg.enabled
    then (w, true)
    else if ltb w.cfg.queue_max_bytes (w.queued_bytes + size)
    then (emit_event (sink_record_dropped src size) (count_drop w), false)
    else (
      update_backpressure
          (push_item (item_of framed src) (record w { queued_bytes = w.queued_bytes + size })),
      true,
    )

abbrev pub is_absent : Task → Bool
is_absent no_task = true
is_absent _ = false

-- `start`
unfoldable pub start : SinkWriter → SinkWriter
start w = if is_absent w.task then record w { stopping = false; task = created } else w

-- `configure`, up to its wait.
unfoldable pub configure : ℕ → SinkConfig → SinkWriter → SinkWriter
configure waiter new_config w =
    if is_absent w.task
    then record w {
      cfg = new_config;
      stats = record w.stats { current_path = new_config.path };
      done = waiter ∷ w.done;
    }
    else push_item wake_up
        (record w { pending_config = some (record { cfg = new_config; waiter = waiter }) })

-- `stop`, up to its wait.
unfoldable pub request_stop : SinkWriter → SinkWriter
request_stop w = if is_absent w.task then w else push_item stop_item (record w { stopping = true })

-- `_close_file`
abbrev pub close_file : SinkWriter → SinkWriter
close_file w = record w { fh = none }

-- `stop` behind its wait, whether the task has ended or was cancelled after the timeout.
unfoldable pub finish_stop : SinkWriter → SinkWriter
finish_stop w = emit_event sink_stopped (close_file (record w { task = no_task }))

abbrev pub file_size : Family → ℕ
file_size f = length (content_of (f 0))

-- `_open_file_if_enabled` for a path that is not empty.
unfoldable pub open_file : String → SinkWriter → SinkWriter
open_file path w =
    let family = touch (w.disk path) in
    record w {
      fh = some path;
      current_path = some path;
      disk = set_family path family w.disk;
      stats = record w.stats { current_path = some path; current_file_size = file_size family };
    }

abbrev pub open_path : Option String → SinkWriter → SinkWriter
open_path none w = w
open_path (some path) w = ite (String-discrete path "") w (open_file path w)

unfoldable pub open_file_if_enabled : SinkWriter → SinkWriter
unfolding open_file
open_file_if_enabled w = if not w.cfg.enabled then w else open_path w.cfg.path w
