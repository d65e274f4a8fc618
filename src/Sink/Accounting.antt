-- ===== src/Sink/Accounting.antt =====
-- The count of queued bytes.
use tcp_server_simulator.Prelude.{
  All, All-append, Bool, List, Option, String, [], ap, arith, false, if◌then◌else◌, length, ltb,
  none, not, refl, some, subst, sym, true, ℕ, ◌++◌, ◌+◌, ◌-◌, ◌||◌, ◌∙◌, ◌∷◌, ◌≡◌,
}
use tcp_server_simulator.Sink.{
  Codec, PendingConfig, QueueItem, SinkWriter, Task, configure, created, draining, finish_stop,
  finished, init, is_absent, item_of, no_task, open_file_if_enabled, push_item, request_stop, start,
  stop_item, submit, update_backpressure, wake_up,
}
use tcp_server_simulator.Framer.{FramedRecord}
use tcp_server_simulator.Sink.Config.{SinkConfig}
use tcp_server_simulator.Sink.Drain.{
  Call, announce, apply_config, apply_pending, configures, differs, drain_item, finishes_stop,
  handle_item, is_wake_up, operate, path_changed, reopen_if, requests_stop, run_task, runs,
  settle_item, starts, submits, write_open,
}
use tcp_server_simulator.Sink.Same.{
  SameQueue, SameQueue-trans, announce-SameQueue, open-SameQueue, reopen-SameQueue,
  update_backpressure-SameButSignal, write_open-SameQueue,
}
use tcp_server_simulator.Sink.Files.{Disk}

abbrev pub queued : List QueueItem → ℕ
queued [] = 0
queued (item ∷ items) = length item.framed.payload + queued items

pub queued-append : (xs ys : List QueueItem) → queued (xs ++ ys) ≡ queued xs + queued ys
queued-append [] ys = omega arith
queued-append (x ∷ xs) ys = omega (arith, queued-append xs ys)

-- The item that stops the task carries no bytes.
abbrev pub IsBlankStop : QueueItem → Type 0
IsBlankStop item = item.stop ≡ true → length item.framed.payload ≡ 0

pub record IsCounted (w : SinkWriter) : Type 0 where
  pub counted : w.queued_bytes ≡ queued w.queue
  pub stops : All IsBlankStop w.queue

-- The count is one item ahead of the queue.
record IsAhead (item : QueueItem) (w : SinkWriter) : Type 0 where
  ahead : w.queued_bytes ≡ length item.framed.payload + queued w.queue
  stops : All IsBlankStop w.queue

SameQueue-IsAhead :
    (item : QueueItem) (v w : SinkWriter) → SameQueue v w → IsAhead item w → IsAhead item v
SameQueue-IsAhead item v w h a = record {
  ahead = h.bytes_eq ∙ a.ahead ∙ ap (λ q. length item.framed.payload + queued q) (sym h.queue_eq);
  stops = subst (All IsBlankStop) (sym h.queue_eq) a.stops;
}

SameQueue-IsCounted : (v w : SinkWriter) → SameQueue v w → IsCounted w → IsCounted v
SameQueue-IsCounted v w h c = record {
  counted = h.bytes_eq ∙ c.counted ∙ ap queued (sym h.queue_eq);
  stops = subst (All IsBlankStop) (sym h.queue_eq) c.stops;
}

IsCounted-if :
    (b : Bool) (v w : SinkWriter)
    → (b ≡ true → IsCounted v)
    → (b ≡ false → IsCounted w)
    → IsCounted (if b then v else w)
IsCounted-if true v w h k = h refl
IsCounted-if false v w h k = k refl

update_backpressure-IsCounted : (w : SinkWriter) → IsCounted w → IsCounted (update_backpressure w)
update_backpressure-IsCounted w c =
    let h = update_backpressure-SameButSignal w in
    record {
      counted = h.bytes_eq ∙ c.counted ∙ ap queued (sym h.queue_eq);
      stops = subst (All IsBlankStop) (sym h.queue_eq) c.stops;
    }

apply_config-IsAhead :
    (item : QueueItem) (p : PendingConfig) (w : SinkWriter)
    → IsAhead item w
    → IsAhead item (apply_config p w)
unfolding apply_config
apply_config-IsAhead item p w a =
    let changed = path_changed p.cfg.path w.cfg.path || differs p.cfg.enabled w.cfg.enabled in
    let v = record w { pending_config = none; cfg = p.cfg } in
    let b =
      SameQueue-IsAhead item (reopen_if changed v) v (reopen-SameQueue changed v)
        (record { ahead = a.ahead; stops = a.stops }) in
    record { ahead = b.ahead; stops = b.stops }

apply_pending-IsAhead :
    (item : QueueItem) (o : Option PendingConfig) (w : SinkWriter)
    → IsAhead item w
    → IsAhead item (apply_pending o w)
apply_pending-IsAhead item none w a = a
apply_pending-IsAhead item (some p) w a = apply_config-IsAhead item p w a

settle_item-IsCounted :
    (item : QueueItem) (w : SinkWriter) → IsAhead item w → IsCounted (settle_item item w)
unfolding settle_item
settle_item-IsCounted item w a =
    let v = record w { queued_bytes = w.queued_bytes - length item.framed.payload } in
    update_backpressure-IsCounted v (record { counted = omega (arith, a.ahead); stops = a.stops })

-- An item without bytes may be left out of the count.
IsAhead-IsCounted :
    (item : QueueItem) (w : SinkWriter)
    → length item.framed.payload ≡ 0
    → IsAhead item w
    → IsCounted w
IsAhead-IsCounted item w e a = record { counted = omega (arith, e, a.ahead); stops = a.stops }

wake_up-length : (item : QueueItem) → is_wake_up item ≡ true → length item.framed.payload ≡ 0
wake_up-length item e = ground arith

handle_item-IsCounted :
    (codec : Codec) (now : ℕ) (item : QueueItem) (w : SinkWriter)
    → IsBlankStop item
    → IsAhead item w
    → IsCounted (handle_item codec now item w)
unfolding handle_item
handle_item-IsCounted codec now item w b a =
    IsCounted-if item.stop _ _
      (λ e.
        let c = IsAhead-IsCounted item w (b e) a in record { counted = c.counted; stops = c.stops })
      (λ e.
        IsCounted-if (is_wake_up item) w _ (λ h. IsAhead-IsCounted item w (wake_up-length item h) a)
          (λ h. settle_item-IsCounted item _ (
            SameQueue-IsAhead item (write_open codec now w.fh item w) w
              (write_open-SameQueue codec now w.fh item w) a)))

drain_item-IsCounted :
    (codec : Codec) (now : ℕ) (items : List QueueItem) (w : SinkWriter)
    → w.queue ≡ items
    → IsCounted w
    → IsCounted (drain_item codec now items w)
unfolding drain_item
drain_item-IsCounted codec now [] w e c = c
drain_item-IsCounted codec now (item ∷ rest) w e c =
    let v = record w { queue = rest } in
    let s = subst (All IsBlankStop) e c.stops in
    handle_item-IsCounted codec now item (apply_pending w.pending_config v) (s.0) (
      apply_pending-IsAhead item w.pending_config v
        (record { ahead = c.counted ∙ ap queued e; stops = s.1 }))

run_task-IsCounted :
    (codec : Codec) (now : ℕ) (task : Task) (w : SinkWriter)
    → IsCounted w
    → IsCounted (run_task codec now task w)
unfolding run_task
run_task-IsCounted codec now created w c =
    let v = record w { task = draining } in
    let v' = open_file_if_enabled v in
    SameQueue-IsCounted (announce v'.current_path v') v
      (SameQueue-trans _ v' v (announce-SameQueue v'.current_path v') (open-SameQueue v))
      (record { counted = c.counted; stops = c.stops })
run_task-IsCounted codec now draining w c = drain_item-IsCounted codec now w.queue w refl c
run_task-IsCounted codec now no_task w c = c
run_task-IsCounted codec now finished w c = c

push_item-IsCounted :
    (item : QueueItem) (w : SinkWriter)
    → IsBlankStop item
    → w.queued_bytes ≡ queued w.queue + length item.framed.payload
    → All IsBlankStop w.queue
    → IsCounted (push_item item w)
push_item-IsCounted item w b e s = record {
  counted = omega (arith, e, queued-append w.queue (item ∷ []));
  stops = All-append IsBlankStop w.queue (item ∷ []) s (b, tt);
}

IsCounted-if_pair :
    (b : Bool) (p q : SinkWriter × Bool)
    → IsCounted (p.0)
    → IsCounted (q.0)
    → IsCounted ((if b then p else q).0)
IsCounted-if_pair true p q h k = h
IsCounted-if_pair false p q h k = k

submit-IsCounted :
    (framed : FramedRecord) (src : String) (w : SinkWriter)
    → IsCounted w
    → IsCounted ((submit framed src w).0)
unfolding submit
submit-IsCounted framed src w c =
    let v = record w { queued_bytes = w.queued_bytes + length framed.payload } in
    let pushed = push_item (item_of framed src) v in
    IsCounted-if_pair (not w.cfg.enabled) (w, true) _ c
      (IsCounted-if_pair (ltb w.cfg.queue_max_bytes (w.queued_bytes + length framed.payload)) _
        (update_backpressure pushed, true) (record { counted = c.counted; stops = c.stops })
        (update_backpressure-IsCounted pushed (
          push_item-IsCounted (item_of framed src) v (λ e. cc) (omega (arith, c.counted)) c.stops)))

configure-IsCounted :
    (waiter : ℕ) (cfg : SinkConfig) (w : SinkWriter)
    → IsCounted w
    → IsCounted (configure waiter cfg w)
unfolding configure
configure-IsCounted waiter cfg w c =
    IsCounted-if (is_absent w.task) _ _ (λ e. record { counted = c.counted; stops = c.stops })
      (λ e.
        push_item-IsCounted wake_up
          (record w { pending_config = some (record { cfg = cfg; waiter = waiter }) }) (λ e'. refl)
          (omega (arith, c.counted)) c.stops)

request_stop-IsCounted : (w : SinkWriter) → IsCounted w → IsCounted (request_stop w)
unfolding request_stop
request_stop-IsCounted w c =
    IsCounted-if (is_absent w.task) w _ (λ e. c)
      (λ e.
        push_item-IsCounted stop_item (record w { stopping = true }) (λ e'. refl)
          (omega (arith, c.counted)) c.stops)

start-IsCounted : (w : SinkWriter) → IsCounted w → IsCounted (start w)
unfolding start
start-IsCounted w c =
    IsCounted-if (is_absent w.task) _ w (λ e. record { counted = c.counted; stops = c.stops })
      (λ e. c)

finish_stop-IsCounted : (w : SinkWriter) → IsCounted w → IsCounted (finish_stop w)
unfolding finish_stop
finish_stop-IsCounted w c = record { counted = c.counted; stops = c.stops }

pub init-IsCounted : (cfg : SinkConfig) (disk : Disk) → IsCounted (init cfg disk)
unfolding init
init-IsCounted cfg disk = record { counted = refl; stops = tt }

-- If the count of queued bytes is the sum of the payload sizes in the queue, and the items that stop
-- the task carry no bytes, then the same holds after every call of the writer and after every run of
-- its task.
pub operate-IsCounted :
    (codec : Codec) (c : Call) (w : SinkWriter) → IsCounted w → IsCounted (operate codec c w)
unfolding operate
operate-IsCounted codec (submits framed src) w h = submit-IsCounted framed src w h
operate-IsCounted codec starts w h = start-IsCounted w h
operate-IsCounted codec requests_stop w h = request_stop-IsCounted w h
operate-IsCounted codec finishes_stop w h = finish_stop-IsCounted w h
operate-IsCounted codec (configures waiter cfg) w h = configure-IsCounted waiter cfg w h
operate-IsCounted codec (runs now) w h = run_task-IsCounted codec now w.task w h
