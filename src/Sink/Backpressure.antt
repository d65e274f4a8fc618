-- ===== src/Sink/Backpressure.antt =====
-- The watermarks of the queue, and its cap.
use tcp_server_simulator.Prelude.{
  Bool, List, String, [], arith, false, if◌then◌else◌, length, ltb, ltb-false→le, none, not, ok,
  refl, subst, sym, true, ℕ, ◌+◌, ◌-◌, ◌<◌, ◌∙◌, ◌∷◌, ◌≡◌, ◌≤◌,
}
use tcp_server_simulator.Sink.{
  Codec, QueueItem, SinkWriter, Task, created, draining, finish_stop, finished, init, is_absent,
  item_of, no_task, open_file_if_enabled, push_item, request_stop, start, submit,
  update_backpressure,
}
use tcp_server_simulator.Sink.Files.{Disk}
use tcp_server_simulator.Framer.{FramedRecord}
use tcp_server_simulator.Sink.Drain.{
  Call, announce, apply_pending, configures, drain_item, finishes_stop, handle_item, is_wake_up,
  operate, requests_stop, run_task, runs, settle_item, starts, submits, write_open,
}
use tcp_server_simulator.Sink.Same.{
  SameQueue, SameQueue-trans, announce-SameQueue, open-SameQueue, write_open-SameQueue,
}
use tcp_server_simulator.Sink.Config.{SinkConfig, post_init}

-- The signal is on only above the low watermark, and off only below the high one.
pub record IsSignalled (w : SinkWriter) : Type 0 where
  pub on : w.backpressured ≡ true → w.cfg.queue_low_watermark_bytes < w.queued_bytes
  pub off : w.backpressured ≡ false → w.queued_bytes < w.cfg.queue_high_watermark_bytes
  pub capped : w.queued_bytes ≤ w.cfg.queue_max_bytes
  pub ordered : w.cfg.queue_low_watermark_bytes < w.cfg.queue_high_watermark_bytes
  pub settled : w.pending_config ≡ none

IsSignalled-if :
    (b : Bool) (v w : SinkWriter) → IsSignalled v → IsSignalled w → IsSignalled (if b then v else w)
IsSignalled-if true v w h h' = h
IsSignalled-if false v w h h' = h'

-- Whatever the signal was, the watermarks put it right.
update_backpressure-IsSignalled :
    (w : SinkWriter)
    → w.queued_bytes ≤ w.cfg.queue_max_bytes
    → w.cfg.queue_low_watermark_bytes < w.cfg.queue_high_watermark_bytes
    → w.pending_config ≡ none
    → IsSignalled (update_backpressure w)
unfolding update_backpressure
update_backpressure-IsSignalled w c o s = record {
  on = ground (arith, c, o);
  off = ground (arith, c, o);
  capped = ground (arith, c);
  ordered = ground (arith, o);
  settled = ground (arith, s);
}

SameQueue-IsSignalled : (v w : SinkWriter) → SameQueue v w → IsSignalled w → IsSignalled v
SameQueue-IsSignalled v w h s = record {
  on = λ e.
      subst (λ n. v.cfg.queue_low_watermark_bytes < n) (sym h.bytes_eq)
        (subst (λ c. c.queue_low_watermark_bytes < w.queued_bytes) (sym h.cfg_eq)
          (s.on (sym h.signal_eq ∙ e)));
  off = λ e.
      subst (λ n. n < v.cfg.queue_high_watermark_bytes) (sym h.bytes_eq)
        (subst (λ c. w.queued_bytes < c.queue_high_watermark_bytes) (sym h.cfg_eq)
          (s.off (sym h.signal_eq ∙ e)));
  capped =
      subst (λ n. n ≤ v.cfg.queue_max_bytes) (sym h.bytes_eq)
        (subst (λ c. w.queued_bytes ≤ c.queue_max_bytes) (sym h.cfg_eq) s.capped);
  ordered =
      subst (λ c. c.queue_low_watermark_bytes < c.queue_high_watermark_bytes) (sym h.cfg_eq)
        s.ordered;
  settled = h.pending_eq ∙ s.settled;
}

settle_item-IsSignalled :
    (item : QueueItem) (w : SinkWriter) → IsSignalled w → IsSignalled (settle_item item w)
unfolding settle_item
settle_item-IsSignalled item w s =
    update_backpressure-IsSignalled
      (record w { queued_bytes = w.queued_bytes - length item.framed.payload })
      (omega (arith, s.capped)) s.ordered s.settled

handle_item-IsSignalled :
    (codec : Codec) (now : ℕ) (item : QueueItem) (w : SinkWriter)
    → IsSignalled w
    → IsSignalled (handle_item codec now item w)
unfolding handle_item
handle_item-IsSignalled codec now item w s =
    IsSignalled-if item.stop _ _
      (record {
        on = s.on;
        off = s.off;
        capped = s.capped;
        ordered = s.ordered;
        settled = s.settled;
      })
      (IsSignalled-if (is_wake_up item) w _ s (
        settle_item-IsSignalled item _ (
          SameQueue-IsSignalled (write_open codec now w.fh item w) w
            (write_open-SameQueue codec now w.fh item w) s)))

drain_item-IsSignalled :
    (codec : Codec) (now : ℕ) (items : List QueueItem) (w : SinkWriter)
    → IsSignalled w
    → IsSignalled (drain_item codec now items w)
unfolding drain_item
drain_item-IsSignalled codec now [] w s = s
drain_item-IsSignalled codec now (item ∷ rest) w s =
    let v = record w { queue = rest } in
    handle_item-IsSignalled codec now item _ (
      subst (λ o. IsSignalled (apply_pending o v)) (sym s.settled)
        (record {
          on = s.on;
          off = s.off;
          capped = s.capped;
          ordered = s.ordered;
          settled = s.settled;
        }))

run_task-IsSignalled :
    (codec : Codec) (now : ℕ) (task : Task) (w : SinkWriter)
    → IsSignalled w
    → IsSignalled (run_task codec now task w)
unfolding run_task
run_task-IsSignalled codec now created w s =
    let v = record w { task = draining } in
    let v' = open_file_if_enabled v in
    SameQueue-IsSignalled (announce v'.current_path v') v
      (SameQueue-trans _ v' v (announce-SameQueue v'.current_path v') (open-SameQueue v))
      (record {
        on = s.on;
        off = s.off;
        capped = s.capped;
        ordered = s.ordered;
        settled = s.settled;
      })
run_task-IsSignalled codec now draining w s = drain_item-IsSignalled codec now w.queue w s
run_task-IsSignalled codec now no_task w s = s
run_task-IsSignalled codec now finished w s = s

IsSignalled-if_pair :
    (b : Bool) (p q : SinkWriter × Bool)
    → IsSignalled (p.0)
    → (b ≡ false → IsSignalled (q.0))
    → IsSignalled ((if b then p else q).0)
IsSignalled-if_pair true p q h k = h
IsSignalled-if_pair false p q h k = k refl

submit-IsSignalled :
    (framed : FramedRecord) (src : String) (w : SinkWriter)
    → IsSignalled w
    → IsSignalled ((submit framed src w).0)
unfolding submit
submit-IsSignalled framed src w s =
    let v = record w { queued_bytes = w.queued_bytes + length framed.payload } in
    let pushed = push_item (item_of framed src) v in
    IsSignalled-if_pair (not w.cfg.enabled) (w, true) _ s
      (λ e.
        IsSignalled-if_pair (ltb w.cfg.queue_max_bytes (w.queued_bytes + length framed.payload)) _
          (update_backpressure pushed, true)
          (record {
            on = s.on;
            off = s.off;
            capped = s.capped;
            ordered = s.ordered;
            settled = s.settled;
          })
          (λ e'.
            update_backpressure-IsSignalled pushed
              (ltb-false→le w.cfg.queue_max_bytes (w.queued_bytes + length framed.payload) e')
              s.ordered s.settled))

-- The calls that leave the configuration as it is.
abbrev pub IsPlain : Call → Type 0
IsPlain (configures waiter cfg) = ⊥
IsPlain c = Unit

-- Under a configuration that stays, with its low watermark below its high one: if the signal is on
-- only above the low watermark and off only below the high one, the queued bytes do not pass
-- `queue_max_bytes`, and no configuration waits, then the same holds after every call but `configure`,
-- and after every run of the task.
pub operate-IsSignalled :
    (codec : Codec) (c : Call) (w : SinkWriter)
    → IsPlain c
    → IsSignalled w
    → IsSignalled (operate codec c w)
unfolding operate
operate-IsSignalled codec (submits framed src) w p s = submit-IsSignalled framed src w s
operate-IsSignalled codec starts w p s =
    unfold start in
    (IsSignalled-if (is_absent w.task) _ w
      (record {
        on = s.on;
        off = s.off;
        capped = s.capped;
        ordered = s.ordered;
        settled = s.settled;
      })
      s)
operate-IsSignalled codec requests_stop w p s =
    unfold request_stop in
    (IsSignalled-if (is_absent w.task) w _ s (record {
      on = s.on;
      off = s.off;
      capped = s.capped;
      ordered = s.ordered;
      settled = s.settled;
    }))
operate-IsSignalled codec finishes_stop w p s =
    unfold finish_stop in
    (record { on = s.on; off = s.off; capped = s.capped; ordered = s.ordered; settled = s.settled })
operate-IsSignalled codec (configures waiter cfg) w p s = elim p [ ]
operate-IsSignalled codec (runs now) w p s = run_task-IsSignalled codec now w.task w s

-- `__post_init__` puts the low watermark below the high one.
post_init-ordered :
    (c : SinkConfig)
    → post_init c ≡ ok c
    → c.queue_low_watermark_bytes < c.queue_high_watermark_bytes
unfolding post_init
post_init-ordered c e = ground arith

-- A writer begins with a right signal if `__post_init__` accepts its configuration.
pub init-IsSignalled :
    (cfg : SinkConfig) (disk : Disk) → post_init cfg ≡ ok cfg → IsSignalled (init cfg disk)
unfolding init
init-IsSignalled cfg disk e =
    let o = post_init-ordered cfg e in
    record {
      on = λ h. cc;
      off = λ h. omega (arith, o);
      capped = omega arith;
      ordered = o;
      settled = refl;
    }
