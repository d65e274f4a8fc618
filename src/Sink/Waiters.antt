-- ===== src/Sink/Waiters.antt =====
-- The callers of `configure` that wait for their configuration to be applied.
use tcp_server_simulator.Prelude.{
  All, Bool, List, Option, String, [], ap, arith, false, if◌then◌else◌, ite, length, ltb, none, not,
  refl, some, subst, sym, true, ℕ, ℕ_discrete, ◌+◌, ◌-◌, ◌||◌, ◌∙◌, ◌∷◌, ◌≡◌,
}
use tcp_server_simulator.Sink.{
  Codec, PendingConfig, QueueItem, SinkWriter, Task, configure, created, draining, finish_stop,
  finished, is_absent, item_of, no_task, open_file_if_enabled, push_item, request_stop, start,
  submit, update_backpressure, wake_up,
}
use tcp_server_simulator.Sink.Drain.{
  Call, announce, apply_config, apply_pending, configures, differs, drain_item, finishes_stop,
  handle_item, is_wake_up, operate, path_changed, reopen_if, requests_stop, run_task, runs,
  settle_item, starts, submits, write_open,
}
use tcp_server_simulator.Sink.Same.{
  SameQueue, SameQueue-trans, announce-SameQueue, open-SameQueue, reopen-SameQueue,
  update_backpressure-SameButSignal, write_open-SameQueue,
}
use tcp_server_simulator.Framer.{FramedRecord}
use tcp_server_simulator.Sink.Config.{SinkConfig}

abbrev pub is_among : ℕ → List ℕ → Bool
is_among k [] = false
is_among k (j ∷ js) = ite (ℕ_discrete k j) true (is_among k js)

abbrev pub is_pending : ℕ → Option PendingConfig → Bool
is_pending k none = false
is_pending k (some p) = ite (ℕ_discrete k p.waiter) true false

-- Nobody will wake this caller: its configuration is neither pending nor applied.
pub record IsForgotten (k : ℕ) (w : SinkWriter) : Type 0 where
  pub undone : is_among k w.done ≡ false
  pub dropped : is_pending k w.pending_config ≡ false

-- The calls other than a `configure` of this caller.
abbrev pub IsOther : ℕ → Call → Type 0
IsOther k (configures waiter cfg) = ¬ (k ≡ waiter)
IsOther k c = Unit

abbrev pub operate_all : Codec → List Call → SinkWriter → SinkWriter
operate_all codec [] w = w
operate_all codec (c ∷ cs) w = operate_all codec cs (operate codec c w)

SameQueue-IsForgotten :
    (k : ℕ) (v w : SinkWriter) → SameQueue v w → IsForgotten k w → IsForgotten k v
SameQueue-IsForgotten k v w h f = record {
  undone = ap (is_among k) h.done_eq ∙ f.undone;
  dropped = ap (is_pending k) h.pending_eq ∙ f.dropped;
}

IsForgotten-if :
    (k : ℕ) (b : Bool) (v w : SinkWriter)
    → IsForgotten k v
    → IsForgotten k w
    → IsForgotten k (if b then v else w)
IsForgotten-if k true v w h h' = h
IsForgotten-if k false v w h h' = h'

update_backpressure-IsForgotten :
    (k : ℕ) (w : SinkWriter) → IsForgotten k w → IsForgotten k (update_backpressure w)
update_backpressure-IsForgotten k w f =
    let h = update_backpressure-SameButSignal w in
    record {
      undone = ap (is_among k) h.done_eq ∙ f.undone;
      dropped = ap (is_pending k) h.pending_eq ∙ f.dropped;
    }

is_among-other :
    (k j : ℕ) (js : List ℕ)
    → ite (ℕ_discrete k j) true false ≡ false
    → is_among k js ≡ false
    → is_among k (j ∷ js) ≡ false
is_among-other k j js h e = ground arith

apply_config-IsForgotten :
    (k : ℕ) (p : PendingConfig) (w : SinkWriter)
    → is_pending k (some p) ≡ false
    → IsForgotten k w
    → IsForgotten k (apply_config p w)
unfolding apply_config
apply_config-IsForgotten k p w h f =
    let changed = path_changed p.cfg.path w.cfg.path || differs p.cfg.enabled w.cfg.enabled in
    let v = record w { pending_config = none; cfg = p.cfg } in
    let g =
      SameQueue-IsForgotten k (reopen_if changed v) v (reopen-SameQueue changed v)
        (record { undone = f.undone; dropped = refl }) in
    record { undone = is_among-other k p.waiter _ h g.undone; dropped = g.dropped }

apply_pending-IsForgotten :
    (k : ℕ) (o : Option PendingConfig) (w : SinkWriter)
    → is_pending k o ≡ false
    → IsForgotten k w
    → IsForgotten k (apply_pending o w)
apply_pending-IsForgotten k none w h f = f
apply_pending-IsForgotten k (some p) w h f = apply_config-IsForgotten k p w h f

settle_item-IsForgotten :
    (k : ℕ) (item : QueueItem) (w : SinkWriter)
    → IsForgotten k w
    → IsForgotten k (settle_item item w)
unfolding settle_item
settle_item-IsForgotten k item w f =
    let v = record w { queued_bytes = w.queued_bytes - length item.framed.payload } in
    update_backpressure-IsForgotten k v (record { undone = f.undone; dropped = f.dropped })

handle_item-IsForgotten :
    (k : ℕ) (codec : Codec) (now : ℕ) (item : QueueItem) (w : SinkWriter)
    → IsForgotten k w
    → IsForgotten k (handle_item codec now item w)
unfolding handle_item
handle_item-IsForgotten k codec now item w f =
    IsForgotten-if k item.stop _ _ (record { undone = f.undone; dropped = f.dropped })
      (IsForgotten-if k (is_wake_up item) w _ f (
        settle_item-IsForgotten k item _ (
          SameQueue-IsForgotten k (write_open codec now w.fh item w) w
            (write_open-SameQueue codec now w.fh item w) f)))

drain_item-IsForgotten :
    (k : ℕ) (codec : Codec) (now : ℕ) (items : List QueueItem) (w : SinkWriter)
    → IsForgotten k w
    → IsForgotten k (drain_item codec now items w)
unfolding drain_item
drain_item-IsForgotten k codec now [] w f = f
drain_item-IsForgotten k codec now (item ∷ rest) w f = handle_item-IsForgotten k codec now item _ (
    apply_pending-IsForgotten k w.pending_config (record w { queue = rest }) f.dropped
      (record { undone = f.undone; dropped = f.dropped }))

run_task-IsForgotten :
    (k : ℕ) (codec : Codec) (now : ℕ) (task : Task) (w : SinkWriter)
    → IsForgotten k w
    → IsForgotten k (run_task codec now task w)
unfolding run_task
run_task-IsForgotten k codec now created w f =
    let v = record w { task = draining } in
    let v' = open_file_if_enabled v in
    SameQueue-IsForgotten k (announce v'.current_path v') v
      (SameQueue-trans _ v' v (announce-SameQueue v'.current_path v') (open-SameQueue v))
      (record { undone = f.undone; dropped = f.dropped })
run_task-IsForgotten k codec now draining w f = drain_item-IsForgotten k codec now w.queue w f
run_task-IsForgotten k codec now no_task w f = f
run_task-IsForgotten k codec now finished w f = f

IsForgotten-if_pair :
    (k : ℕ) (b : Bool) (p q : SinkWriter × Bool)
    → IsForgotten k (p.0)
    → IsForgotten k (q.0)
    → IsForgotten k ((if b then p else q).0)
IsForgotten-if_pair k true p q h h' = h
IsForgotten-if_pair k false p q h h' = h'

submit-IsForgotten :
    (k : ℕ) (framed : FramedRecord) (src : String) (w : SinkWriter)
    → IsForgotten k w
    → IsForgotten k ((submit framed src w).0)
unfolding submit
submit-IsForgotten k framed src w f =
    let v = record w { queued_bytes = w.queued_bytes + length framed.payload } in
    let pushed = push_item (item_of framed src) v in
    let same : IsForgotten k pushed = record { undone = f.undone; dropped = f.dropped } in
    IsForgotten-if_pair k (not w.cfg.enabled) (w, true) _ f
      (IsForgotten-if_pair k (ltb w.cfg.queue_max_bytes (w.queued_bytes + length framed.payload)) _
        (update_backpressure pushed, true) (record { undone = f.undone; dropped = f.dropped })
        (update_backpressure-IsForgotten k pushed same))

configure-IsForgotten :
    (k waiter : ℕ) (cfg : SinkConfig) (w : SinkWriter)
    → ¬ (k ≡ waiter)
    → IsForgotten k w
    → IsForgotten k (configure waiter cfg w)
unfolding configure
configure-IsForgotten k waiter cfg w n f =
    IsForgotten-if k (is_absent w.task) _ _
      (record { undone = ground (arith, f.undone, n); dropped = f.dropped })
      (record { undone = f.undone; dropped = ground (arith, n) })

operate-IsForgotten :
    (k : ℕ) (codec : Codec) (c : Call) (w : SinkWriter)
    → IsOther k c
    → IsForgotten k w
    → IsForgotten k (operate codec c w)
unfolding operate
operate-IsForgotten k codec (submits framed src) w o f = submit-IsForgotten k framed src w f
operate-IsForgotten k codec starts w o f =
    unfold start in
    (IsForgotten-if k (is_absent w.task) _ w (record { undone = f.undone; dropped = f.dropped }) f)
operate-IsForgotten k codec requests_stop w o f =
    unfold request_stop in
    (IsForgotten-if k (is_absent w.task) w _ f (record { undone = f.undone; dropped = f.dropped }))
operate-IsForgotten k codec finishes_stop w o f =
    unfold finish_stop in (record { undone = f.undone; dropped = f.dropped })
operate-IsForgotten k codec (configures waiter cfg) w o f = configure-IsForgotten k waiter cfg w o f
operate-IsForgotten k codec (runs now) w o f = run_task-IsForgotten k codec now w.task w f

operate_all-IsForgotten :
    (k : ℕ) (codec : Codec) (cs : List Call) (w : SinkWriter)
    → All (IsOther k) cs
    → IsForgotten k w
    → IsForgotten k (operate_all codec cs w)
operate_all-IsForgotten k codec [] w o f = f
operate_all-IsForgotten k codec (c ∷ cs) w o f =
    operate_all-IsForgotten k codec cs (operate codec c w) (o.1)
      (operate-IsForgotten k codec c w (o.0) f)

configure-running :
    (waiter : ℕ) (cfg : SinkConfig) (w : SinkWriter)
    → is_absent w.task ≡ false
    → configure waiter cfg w
      ≡ push_item wake_up
          (record w { pending_config = some (record { cfg = cfg; waiter = waiter }) })
unfolding configure
configure-running waiter cfg w t = rw t

-- The configuration that waits last is the only one.
configure-last :
    (k j : ℕ) (cfg : SinkConfig) (w : SinkWriter)
    → is_absent w.task ≡ false
    → ¬ (k ≡ j)
    → is_among k w.done ≡ false
    → IsForgotten k (configure j cfg w)
configure-last k j cfg w t n u =
    subst (IsForgotten k) (sym (configure-running j cfg w t))
      (record { undone = u; dropped = ground (arith, n) })

overwrite-IsForgotten :
    (k j : ℕ) (first second : SinkConfig) (w : SinkWriter)
    → is_absent w.task ≡ false
    → ¬ (k ≡ j)
    → is_among k w.done ≡ false
    → IsForgotten k (configure j second (configure k first w))
overwrite-IsForgotten k j first second w t n u =
    let e = configure-running k first w t in
    configure-last k j second (configure k first w) (ap (λ v. is_absent v.task) e ∙ t) n
      (ap (λ v. is_among k v.done) e ∙ u)

-- While the task is there, let one caller wait for its configuration and a second caller call
-- `configure` before the task runs: whatever calls and runs come after that, short of a new call by
-- the first caller, the event that the first caller waits for is never set.
pub configure_overwrites :
    (codec : Codec) (k j : ℕ) (first second : SinkConfig) (cs : List Call) (w : SinkWriter)
    → is_absent w.task ≡ false
    → ¬ (k ≡ j)
    → is_among k w.done ≡ false
    → All (IsOther k) cs
    → is_among k ((operate_all codec cs (configure j second (configure k first w))).done) ≡ false
configure_overwrites codec k j first second cs w t n u o =
    (operate_all-IsForgotten k codec cs _ o (overwrite-IsForgotten k j first second w t n u)).undone
