-- ===== src/Sink/Signals.antt =====
-- The events of the sink and its backpressure signal.
use tcp_server_simulator.Prelude.{
  Bool, List, Option, String, String-discrete, [], ap, append-nil, append_assoc, false,
  if◌then◌else◌, ite, leb, length, ltb, none, not, refl, some, sym, true, ℕ, ◌&&◌, ◌++◌, ◌+◌, ◌-◌,
  ◌||◌, ◌∙◌, ◌∷◌, ◌≡◌,
}
use tcp_server_simulator.Sink.{
  Codec, PendingConfig, QueueItem, SinkWriter, Task, close_file, configure, created, draining,
  finish_stop, finished, is_absent, item_of, no_task, open_file, open_file_if_enabled, open_path,
  push_item, request_stop, start, submit, update_backpressure,
}
use tcp_server_simulator.Framer.{FramedRecord}
use tcp_server_simulator.Sink.Config.{
  SinkEvent, sink_high_watermark, sink_low_watermark, sink_reconfigured, sink_record_dropped,
  sink_rotated, sink_started, sink_stopped,
}
use tcp_server_simulator.Sink.Drain.{
  Call, announce, apply_config, apply_pending, backup_of, configures, differs, drain_item, encode,
  finishes_stop, handle_item, is_wake_up, must_rotate, operate, path_changed, reopen_if,
  requests_stop, rotate_file, run_task, runs, settle_item, starts, submits, write_open,
  write_record,
}

-- What a listener takes the signal to be after an event.
abbrev pub heard : Bool → SinkEvent → Bool
heard b (sink_high_watermark n) = true
heard b (sink_low_watermark n) = false
heard b _ = b

abbrev pub heard_all : Bool → List SinkEvent → Bool
heard_all b [] = b
heard_all b (e ∷ es) = heard_all (heard b e) es

pub heard_all-append :
    (b : Bool) (es fs : List SinkEvent) → heard_all b (es ++ fs) ≡ heard_all (heard_all b es) fs
heard_all-append b [] fs = refl
heard_all-append b (e ∷ es) fs = heard_all-append (heard b e) es fs

-- From v to w the log of events grows, and who hears what is new follows the signal.
pub record Signals (v w : SinkWriter) : Type 0 where
  pub news : List SinkEvent
  pub log_eq : w.events ≡ v.events ++ news
  pub heard_eq : heard_all v.backpressured news ≡ w.backpressured

Signals-quiet :
    (v w : SinkWriter) → w.events ≡ v.events → w.backpressured ≡ v.backpressured → Signals v w
Signals-quiet v w e b = record {
  news = [];
  log_eq = e ∙ sym (append-nil v.events);
  heard_eq = sym b;
}

Signals-trans : (u v w : SinkWriter) → Signals u v → Signals v w → Signals u w
Signals-trans u v w h k = record {
  news = h.news ++ k.news;
  log_eq = k.log_eq ∙ ap (λ es. es ++ k.news) h.log_eq ∙ append_assoc u.events h.news k.news;
  heard_eq =
      heard_all-append u.backpressured h.news k.news
      ∙ ap (λ b. heard_all b k.news) h.heard_eq
      ∙ k.heard_eq;
}

-- A step that emits one event.
Signals-emit :
    (v w : SinkWriter) (e : SinkEvent)
    → w.events ≡ v.events ++ e ∷ []
    → heard v.backpressured e ≡ w.backpressured
    → Signals v w
Signals-emit v w e l h = record { news = e ∷ []; log_eq = l; heard_eq = h }

Signals-if :
    (b : Bool) (u v w : SinkWriter) → Signals u v → Signals u w → Signals u (if b then v else w)
Signals-if true u v w h k = h
Signals-if false u v w h k = k

update_backpressure-Signals : (w : SinkWriter) → Signals w (update_backpressure w)
unfolding update_backpressure
update_backpressure-Signals w =
    Signals-if (not w.backpressured && leb w.cfg.queue_high_watermark_bytes w.queued_bytes) w _ _
      (Signals-emit w _ (sink_high_watermark w.queued_bytes) refl refl)
      (Signals-if (w.backpressured && leb w.queued_bytes w.cfg.queue_low_watermark_bytes) w _ w
        (Signals-emit w _ (sink_low_watermark w.queued_bytes) refl refl)
        (Signals-quiet w w refl refl))

open_path-Signals : (path : Option String) (w : SinkWriter) → Signals w (open_path path w)
open_path-Signals none w = Signals-quiet w w refl refl
open_path-Signals (some path) w =
    elim (String-discrete path "") as (λ d. Signals w (ite d w (open_file path w))) [
      | yes p ↦ Signals-quiet w w refl refl
      | no p ↦ unfold open_file in (Signals-quiet w _ refl refl)
    ]

open-Signals : (w : SinkWriter) → Signals w (open_file_if_enabled w)
unfolding open_file_if_enabled
open-Signals w =
    Signals-if (not w.cfg.enabled) w w _ (Signals-quiet w w refl refl)
      (open_path-Signals w.cfg.path w)

reopen-Signals : (b : Bool) (w : SinkWriter) → Signals w (reopen_if b w)
reopen-Signals true w =
    Signals-trans w (close_file w) _ (Signals-quiet w _ refl refl) (open-Signals (close_file w))
reopen-Signals false w = Signals-quiet w w refl refl

apply_config-Signals : (p : PendingConfig) (w : SinkWriter) → Signals w (apply_config p w)
unfolding apply_config
apply_config-Signals p w =
    let changed = path_changed p.cfg.path w.cfg.path || differs p.cfg.enabled w.cfg.enabled in
    let v = record w { pending_config = none; cfg = p.cfg } in
    Signals-trans w v _ (Signals-quiet w v refl refl) (
      Signals-trans v (reopen_if changed v) _ (reopen-Signals changed v) (
        Signals-emit (reopen_if changed v) _
          (sink_reconfigured p.cfg.path p.cfg.format p.cfg.enabled) refl refl))

apply_pending-Signals : (o : Option PendingConfig) (w : SinkWriter) → Signals w (apply_pending o w)
apply_pending-Signals none w = Signals-quiet w w refl refl
apply_pending-Signals (some p) w = apply_config-Signals p w

rotate-Signals : (path : String) (w : SinkWriter) → Signals w (rotate_file path w)
unfolding rotate_file
rotate-Signals path w =
    Signals-emit w _ (sink_rotated path (backup_of w.cfg.rotation_backup_count)) refl refl

write_record-Signals :
    (codec : Codec) (now : ℕ) (path : String) (item : QueueItem) (w : SinkWriter)
    → Signals w (write_record codec now path item w)
unfolding write_record
write_record-Signals codec now path item w =
    let blob = encode codec now w.cfg item in
    Signals-trans w (if must_rotate w blob then rotate_file path w else w) _
      (Signals-if (must_rotate w blob) w (rotate_file path w) w (rotate-Signals path w)
        (Signals-quiet w w refl refl))
      (Signals-quiet _ _ refl refl)

write_open-Signals :
    (codec : Codec) (now : ℕ) (fh : Option String) (item : QueueItem) (w : SinkWriter)
    → Signals w (write_open codec now fh item w)
write_open-Signals codec now none item w = Signals-quiet w w refl refl
write_open-Signals codec now (some path) item w =
    Signals-if w.cfg.enabled w _ w (write_record-Signals codec now path item w)
      (Signals-quiet w w refl refl)

settle_item-Signals : (item : QueueItem) (w : SinkWriter) → Signals w (settle_item item w)
unfolding settle_item
settle_item-Signals item w =
    let v = record w { queued_bytes = w.queued_bytes - length item.framed.payload } in
    Signals-trans w v _ (Signals-quiet w v refl refl) (update_backpressure-Signals v)

handle_item-Signals :
    (codec : Codec) (now : ℕ) (item : QueueItem) (w : SinkWriter)
    → Signals w (handle_item codec now item w)
unfolding handle_item
handle_item-Signals codec now item w = Signals-if item.stop w _ _ (Signals-quiet w _ refl refl) (
    Signals-if (is_wake_up item) w w _ (Signals-quiet w w refl refl) (
      Signals-trans w (write_open codec now w.fh item w) _
        (write_open-Signals codec now w.fh item w) (settle_item-Signals item _)))

drain_item-Signals :
    (codec : Codec) (now : ℕ) (items : List QueueItem) (w : SinkWriter)
    → Signals w (drain_item codec now items w)
unfolding drain_item
drain_item-Signals codec now [] w = Signals-quiet w w refl refl
drain_item-Signals codec now (item ∷ rest) w =
    let v = record w { queue = rest } in
    Signals-trans w v _ (Signals-quiet w v refl refl) (
      Signals-trans v (apply_pending w.pending_config v) _
        (apply_pending-Signals w.pending_config v) (handle_item-Signals codec now item _))

announce-Signals : (o : Option String) (w : SinkWriter) → Signals w (announce o w)
announce-Signals none w = Signals-quiet w w refl refl
announce-Signals (some path) w =
    Signals-if w.cfg.enabled w _ w (Signals-emit w _ (sink_started path w.cfg.format) refl refl)
      (Signals-quiet w w refl refl)

run_task-Signals :
    (codec : Codec) (now : ℕ) (task : Task) (w : SinkWriter) → Signals w (run_task codec now task w)
unfolding run_task
run_task-Signals codec now created w =
    let v = record w { task = draining } in
    let v' = open_file_if_enabled v in
    Signals-trans w v _ (Signals-quiet w v refl refl)
      (Signals-trans v v' _ (open-Signals v) (announce-Signals v'.current_path v'))
run_task-Signals codec now draining w = drain_item-Signals codec now w.queue w
run_task-Signals codec now no_task w = Signals-quiet w w refl refl
run_task-Signals codec now finished w = Signals-quiet w w refl refl

Signals-if_pair :
    (b : Bool) (w : SinkWriter) (p q : SinkWriter × Bool)
    → Signals w (p.0)
    → Signals w (q.0)
    → Signals w ((if b then p else q).0)
Signals-if_pair true w p q h k = h
Signals-if_pair false w p q h k = k

submit-Signals :
    (framed : FramedRecord) (src : String) (w : SinkWriter) → Signals w ((submit framed src w).0)
unfolding submit
submit-Signals framed src w =
    let v = record w { queued_bytes = w.queued_bytes + length framed.payload } in
    let pushed = push_item (item_of framed src) v in
    Signals-if_pair (not w.cfg.enabled) w (w, true) _ (Signals-quiet w w refl refl)
      (Signals-if_pair (ltb w.cfg.queue_max_bytes (w.queued_bytes + length framed.payload)) w _
        (update_backpressure pushed, true)
        (Signals-emit w _ (sink_record_dropped src (length framed.payload)) refl refl)
        (Signals-trans w pushed _ (Signals-quiet w pushed refl refl)
          (update_backpressure-Signals pushed)))

-- Every call of the sink, and every run of its task, adds events to the log from which a listener who
-- knew the signal before knows it afterwards.
pub operate-Signals : (codec : Codec) (c : Call) (w : SinkWriter) → Signals w (operate codec c w)
unfolding operate
operate-Signals codec (submits framed src) w = submit-Signals framed src w
operate-Signals codec starts w =
    unfold start in
    (Signals-if (is_absent w.task) w _ w (Signals-quiet w _ refl refl)
      (Signals-quiet w w refl refl))
operate-Signals codec requests_stop w =
    unfold request_stop in
    (Signals-if (is_absent w.task) w w _ (Signals-quiet w w refl refl)
      (Signals-quiet w _ refl refl))
operate-Signals codec finishes_stop w =
    unfold finish_stop in (Signals-emit w _ sink_stopped refl refl)
operate-Signals codec (configures waiter cfg) w =
    unfold configure in
    (Signals-if (is_absent w.task) w _ _ (Signals-quiet w _ refl refl)
      (Signals-quiet w _ refl refl))
operate-Signals codec (runs now) w = run_task-Signals codec now w.task w
