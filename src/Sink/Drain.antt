-- ===== src/Sink/Drain.antt =====
-- The drain loop of the sink writer: encoding, rotation, writing, and a pending configuration.
use tcp_server_simulator.Prelude.{
  Bool, Bytes, List, Option, String, String-discrete, [], false, if◌then◌else◌, ite, leb, length,
  ltb, none, not, some, suc, true, zero, ℕ, ◌&&◌, ◌++◌, ◌+◌, ◌-◌, ◌||◌, ◌∷◌,
}
use tcp_server_simulator.Framer.{FramedRecord}
use tcp_server_simulator.Sink.{
  Codec, PendingConfig, QueueItem, Scalar, SinkWriter, Task, close_file, configure, created,
  draining, emit_event, finish_stop, finished, flag, number, open_file_if_enabled, request_stop,
  start, submit, text, update_backpressure,
}
use tcp_server_simulator.Sink.Config.{
  SinkConfig, SinkFormat, delimited, jsonl, sink_reconfigured, sink_rotated, sink_started,
}
use tcp_server_simulator.Sink.Files.{append_file, rotate_family, set_family}

-- `_encode`: the object of a line in JSON.
unfoldable pub json_object :
    Codec → ℕ → FramedRecord → String → Option Bytes → List (String × Scalar)
json_object codec now framed src (some payload_str) =
    ("ts", text (codec.now_iso now))
    ∷ ("src", text (codec.utf8 src))
    ∷ ("bytes_len", number (length framed.payload))
    ∷ ("payload", text payload_str)
    ∷ ("truncated", flag framed.truncated)
    ∷ []
json_object codec now framed src none =
    ("ts", text (codec.now_iso now))
    ∷ ("src", text (codec.utf8 src))
    ∷ ("bytes_len", number (length framed.payload))
    ∷ ("payload", text (codec.b64encode framed.payload))
    ∷ ("truncated", flag framed.truncated)
    ∷ ("encoding", text (codec.utf8 "base64"))
    ∷ []

unfoldable pub encode_as : SinkFormat → Codec → ℕ → Bytes → QueueItem → Bytes
unfolding json_object
encode_as delimited codec now separator item = item.framed.payload ++ separator
encode_as jsonl codec now separator item =
    codec.dumps (json_object codec now item.framed item.src (codec.decode item.framed.payload))
    ++ b'\n' ∷ []

-- `_encode`
unfoldable pub encode : Codec → ℕ → SinkConfig → QueueItem → Bytes
unfolding encode_as
encode codec now cfg item = encode_as cfg.format codec now cfg.record_separator item

abbrev pub backup_of : ℕ → Option ℕ
backup_of zero = none
backup_of (suc n) = some 1

-- `_rotate` on an open file: close it, move the files, open a new one.
unfoldable pub rotate_file : String → SinkWriter → SinkWriter
rotate_file path w =
    emit_event (sink_rotated path (backup_of w.cfg.rotation_backup_count)) (record w {
      disk = set_family path (rotate_family w.cfg.rotation_backup_count (w.disk path)) w.disk;
      stats = record w.stats { rotations = w.stats.rotations + 1; current_file_size = 0 };
    })

-- The test of `_write_record`: would the file pass its limit?
abbrev pub must_rotate : SinkWriter → Bytes → Bool
must_rotate w blob =
    ltb 0 w.stats.current_file_size
    && ltb w.cfg.rotation_max_bytes (w.stats.current_file_size + length blob)

abbrev pub write_blob : String → Bytes → SinkWriter → SinkWriter
write_blob path blob w = record w {
  disk = set_family path (append_file blob (w.disk path)) w.disk;
  stats = record w.stats {
    current_file_size = w.stats.current_file_size + length blob;
    bytes_written = w.stats.bytes_written + length blob;
    records_written = w.stats.records_written + 1;
  };
}

-- `_write_record` on the open file.
unfoldable pub write_record : Codec → ℕ → String → QueueItem → SinkWriter → SinkWriter
unfolding encode rotate_file
write_record codec now path item w =
    let blob = encode codec now w.cfg item in
    write_blob path blob (if must_rotate w blob then rotate_file path w else w)

abbrev pub path_changed : Option String → Option String → Bool
path_changed none none = false
path_changed none (some q) = true
path_changed (some p) none = true
path_changed (some p) (some q) = ite (String-discrete p q) false true

abbrev pub differs : Bool → Bool → Bool
differs true b = not b
differs false b = b

abbrev pub reopen_if : Bool → SinkWriter → SinkWriter
reopen_if true w = open_file_if_enabled (close_file w)
reopen_if false w = w

-- `_apply_pending_config` on the configuration that waits.
unfoldable pub apply_config : PendingConfig → SinkWriter → SinkWriter
unfolding open_file_if_enabled
apply_config pending w =
    let new_cfg = pending.cfg in
    let changed = path_changed new_cfg.path w.cfg.path || differs new_cfg.enabled w.cfg.enabled in
    let w' = reopen_if changed (record w { pending_config = none; cfg = new_cfg }) in
    emit_event (sink_reconfigured new_cfg.path new_cfg.format new_cfg.enabled) (record w' {
      stats = record w'.stats { current_path = new_cfg.path };
      done = pending.waiter ∷ w'.done;
    })

abbrev pub apply_pending : Option PendingConfig → SinkWriter → SinkWriter
apply_pending none w = w
apply_pending (some pending) w = apply_config pending w

-- `queued_bytes -= len(payload)`, and the watermarks.
unfoldable pub settle_item : QueueItem → SinkWriter → SinkWriter
unfolding update_backpressure
settle_item item w =
    update_backpressure (record w { queued_bytes = w.queued_bytes - length item.framed.payload })

abbrev pub is_wake_up : QueueItem → Bool
is_wake_up item = leb (length item.framed.payload) 0 && ite (String-discrete item.src "") true false

abbrev pub write_open : Codec → ℕ → Option String → QueueItem → SinkWriter → SinkWriter
write_open codec now none item w = w
write_open codec now (some path) item w =
    if w.cfg.enabled then write_record codec now path item w else w

-- A round of the drain loop behind the pending configuration.
unfoldable pub handle_item : Codec → ℕ → QueueItem → SinkWriter → SinkWriter
unfolding write_record settle_item
handle_item codec now item w =
    if item.stop
    then close_file (record w { task = finished })
    else if is_wake_up item
    then w
    else settle_item item (write_open codec now w.fh item w)

unfoldable pub drain_item : Codec → ℕ → List QueueItem → SinkWriter → SinkWriter
unfolding apply_config handle_item
drain_item codec now [] w = w
drain_item codec now (item ∷ rest) w =
    handle_item codec now item (apply_pending w.pending_config (record w { queue = rest }))

abbrev pub announce : Option String → SinkWriter → SinkWriter
announce none w = w
announce (some path) w = if w.cfg.enabled then emit_event (sink_started path w.cfg.format) w else w

-- What `_run` does when its task is next run: its beginning, or one round of its loop.
unfoldable pub run_task : Codec → ℕ → Task → SinkWriter → SinkWriter
unfolding open_file_if_enabled drain_item
run_task codec now created w =
    let w' = open_file_if_enabled (record w { task = draining }) in announce w'.current_path w'
run_task codec now draining w = drain_item codec now w.queue w
run_task codec now _ w = w

unfoldable pub run : Codec → ℕ → SinkWriter → SinkWriter
unfolding run_task
run codec now w = run_task codec now w.task w

-- The calls of the writer, the ends of its waits, and the runs of its task.
pub data Call : Type 0 where
  submits : FramedRecord → String → Call
  starts requests_stop finishes_stop : Call
  configures : ℕ → SinkConfig → Call
  runs : ℕ → Call

unfoldable pub operate : Codec → Call → SinkWriter → SinkWriter
unfolding submit start configure request_stop finish_stop run
operate codec (submits framed src) w = (submit framed src w).0
operate codec starts w = start w
operate codec requests_stop w = request_stop w
operate codec finishes_stop w = finish_stop w
operate codec (configures waiter cfg) w = configure waiter cfg w
operate codec (runs now) w = run codec now w
