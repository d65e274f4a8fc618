-- ===== src/Sink/Drops.antt =====
-- The records that the sink of src/tcp_sim/engine/sink_writer.py drops: those that a submission refuses.
use tcp_server_simulator.Prelude.{
  Bool, List, Option, String, [], arith, false, length, none, refl, some, true, ℕ, ◌+◌, ◌-◌, ◌||◌,
  ◌∙◌, ◌∷◌, ◌≡◌,
}
use tcp_server_simulator.Framer.{FramedRecord}
use tcp_server_simulator.Sink.{
  Codec, PendingConfig, QueueItem, SinkWriter, Task, configure, created, draining, finish_stop,
  open_file, open_file_if_enabled, open_path, request_stop, start, submit, update_backpressure,
}
use tcp_server_simulator.Sink.Drain.{
  Call, announce, apply_config, apply_pending, configures, differs, drain_item, finishes_stop,
  handle_item, operate, path_changed, reopen_if, requests_stop, rotate_file, run, run_task, runs,
  settle_item, starts, submits, write_open, write_record,
}

abbrev pub dropped : SinkWriter → ℕ
dropped w = w.stats.records_dropped

-- Whether a call drops a record.
abbrev pub refused : Bool → ℕ
refused true = 0
refused false = 1

abbrev pub drops_in : Call → SinkWriter → ℕ
drops_in (submits framed src) w = refused (submit framed src w).1
drops_in _ w = 0

backpressure-dropped : (w : SinkWriter) → dropped (update_backpressure w) ≡ dropped w
unfolding update_backpressure
backpressure-dropped w = ground arith

submit-dropped :
    (framed : FramedRecord) (src : String) (w : SinkWriter)
    → dropped (submit framed src w).0 ≡ dropped w + refused (submit framed src w).1
unfolding submit update_backpressure
submit-dropped framed src w = ground arith

open_path-dropped : (o : Option String) (w : SinkWriter) → dropped (open_path o w) ≡ dropped w
unfolding open_file
open_path-dropped o w = ground arith

open_file_if_enabled-dropped : (w : SinkWriter) → dropped (open_file_if_enabled w) ≡ dropped w
unfolding open_file_if_enabled open_file
open_file_if_enabled-dropped w = ground arith

reopen_if-dropped : (b : Bool) (w : SinkWriter) → dropped (reopen_if b w) ≡ dropped w
reopen_if-dropped true w = open_file_if_enabled-dropped (record w { fh = none })
reopen_if-dropped false w = refl

apply_pending-dropped :
    (o : Option PendingConfig) (w : SinkWriter) → dropped (apply_pending o w) ≡ dropped w
unfolding apply_config
apply_pending-dropped none w = refl
apply_pending-dropped (some p) w =
    reopen_if-dropped (path_changed p.cfg.path w.cfg.path || differs p.cfg.enabled w.cfg.enabled)
      (record w { pending_config = none; cfg = p.cfg })

write_open-dropped :
    (codec : Codec) (now : ℕ) (o : Option String) (item : QueueItem) (w : SinkWriter)
    → dropped (write_open codec now o item w) ≡ dropped w
unfolding write_record rotate_file
write_open-dropped codec now o item w = ground arith

handle_item-dropped :
    (codec : Codec) (now : ℕ) (item : QueueItem) (w : SinkWriter)
    → dropped (handle_item codec now item w) ≡ dropped w
unfolding handle_item settle_item
handle_item-dropped codec now item w =
    let v = write_open codec now w.fh item w in
    let p = write_open-dropped codec now w.fh item w in
    let q =
      backpressure-dropped
        (record v { queued_bytes = v.queued_bytes - length item.framed.payload }) in
    ground arith

drain_item-dropped :
    (codec : Codec) (now : ℕ) (items : List QueueItem) (w : SinkWriter)
    → dropped (drain_item codec now items w) ≡ dropped w
unfolding drain_item
drain_item-dropped codec now [] w = refl
drain_item-dropped codec now (item ∷ rest) w =
    handle_item-dropped codec now item (apply_pending w.pending_config (record w { queue = rest }))
    ∙ apply_pending-dropped w.pending_config (record w { queue = rest })

announce-dropped : (o : Option String) (w : SinkWriter) → dropped (announce o w) ≡ dropped w
announce-dropped o w = ground arith

run_task-dropped :
    (codec : Codec) (now : ℕ) (task : Task) (w : SinkWriter)
    → dropped (run_task codec now task w) ≡ dropped w
unfolding run_task
run_task-dropped codec now created w =
    let v = open_file_if_enabled (record w { task = draining }) in
    announce-dropped v.current_path v ∙ open_file_if_enabled-dropped (record w { task = draining })
run_task-dropped codec now draining w = drain_item-dropped codec now w.queue w
run_task-dropped codec now _ w = refl

-- A call of the sink, or a run of its task, counts a dropped record exactly when a submission is refused.
pub operate-dropped :
    (codec : Codec) (c : Call) (w : SinkWriter)
    → dropped (operate codec c w) ≡ dropped w + drops_in c w
unfolding operate start configure request_stop finish_stop run
operate-dropped codec (submits framed src) w = submit-dropped framed src w
operate-dropped codec (runs now) w = run_task-dropped codec now w.task w ∙ omega arith
operate-dropped codec starts w = ground arith
operate-dropped codec requests_stop w = ground arith
operate-dropped codec finishes_stop w = omega arith
operate-dropped codec (configures waiter cfg) w = ground arith
