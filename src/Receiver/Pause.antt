-- ===== src/Receiver/Pause.antt =====
-- The pause of the transport and the backpressure of the sink.
use tcp_server_simulator.Prelude.{
  Bool, List, Option, Result, String, [], ap, ap₂, drop, drop-append, false, if◌then◌else◌, length,
  none, not, ok, raise, refl, some, sym, true, ℕ, ◌+◌, ◌||◌, ◌∙◌, ◌∷◌, ◌≡◌,
}
use tcp_server_simulator.Sink.Config.{
  SinkEvent, sink_high_watermark, sink_low_watermark, sink_reconfigured, sink_record_dropped,
  sink_rotated, sink_started, sink_stopped,
}
use tcp_server_simulator.Sink.Signals.{heard, heard_all, operate-Signals}
use tcp_server_simulator.Receiver.{
  EngineCall, ReceiverEngine, TransportLike, begin, begins, configure_sink, configures_sink,
  count_drop, engine_call, finish_stop, finishes_engine_stop, forward, handle_record,
  handle_sink_event, handle_sink_events, handles_record, paused_by, receiver_engine_stopped,
  request_stop, requests_engine_stop, runs_sink, transport_acts, transport_event, when_begun,
  with_sink,
}
use tcp_server_simulator.Framer.{FramedRecord}
use tcp_server_simulator.Sink.{Codec, submit}
use tcp_server_simulator.Sink.Drain.{
  Call, configures, finishes_stop, operate, requests_stop, runs, starts, submits,
}

-- What a transport that can pause promises.
pub record IsPausing {T : Type 0} (ops : TransportLike T) (is_paused : T → Bool) : Type 0 where
  pub set_eq : (b : Bool) (t : T) → is_paused (ops.set_paused b t) ≡ b
  pub begin_eq : (t : T) → is_paused ((ops.begin t).0) ≡ is_paused t
  pub stop_eq : (t : T) → is_paused (ops.stop t) ≡ is_paused t
  pub drops_eq : (n : ℕ) (t : T) → is_paused (ops.set_record_drops n t) ≡ is_paused t

module _ {T : Type 0} (ops : TransportLike T) (is_paused : T → Bool)
    (laws : IsPausing ops is_paused) where
  paused_by-heard :
      (event : SinkEvent) (t : T) → is_paused (paused_by ops event t) ≡ heard (is_paused t) event
  paused_by-heard (sink_high_watermark n) t = laws.set_eq true t
  paused_by-heard (sink_low_watermark n) t = laws.set_eq false t
  paused_by-heard (sink_started path format) t = refl
  paused_by-heard sink_stopped t = refl
  paused_by-heard (sink_rotated path backup) t = refl
  paused_by-heard (sink_reconfigured path format enabled) t = refl
  paused_by-heard (sink_record_dropped src n) t = refl

  count_drop-paused : (o : Option ℕ) (t : T) → is_paused (count_drop ops o t) ≡ is_paused t
  count_drop-paused none t = refl
  count_drop-paused (some n) t = laws.drops_eq (n + 1) t

module _ {T E : Type 0} (ops : TransportLike T) (is_paused : T → Bool)
    (laws : IsPausing ops is_paused) where
  -- The transport is paused exactly while the sink signals backpressure.
  abbrev pub InStep : ReceiverEngine T E → Type 0
  InStep e = is_paused e.transport ≡ e.sink.backpressured

  -- The calls that leave the pause to the engine.
  abbrev pub IsFair : EngineCall T E → Type 0
  IsFair (transport_acts f) = (t : T) → is_paused (f t) ≡ is_paused t
  IsFair c = Unit

  handle_sink_events-heard :
      (events : List SinkEvent) (e : ReceiverEngine T E)
      → is_paused ((handle_sink_events ops events e).transport)
        ≡ heard_all (is_paused e.transport) events
  unfolding handle_sink_events handle_sink_event
  handle_sink_events-heard [] e = refl
  handle_sink_events-heard (event ∷ events) e =
      handle_sink_events-heard events (handle_sink_event ops event e)
      ∙ ap (λ b. heard_all b events) (paused_by-heard ops is_paused laws event e.transport)

  handle_sink_events-sink :
      (events : List SinkEvent) (e : ReceiverEngine T E)
      → (handle_sink_events ops events e).sink ≡ e.sink
  unfolding handle_sink_events handle_sink_event
  handle_sink_events-sink [] e = refl
  handle_sink_events-sink (event ∷ events) e =
      handle_sink_events-sink events (handle_sink_event ops event e)

  with_sink-InStep :
      (codec : Codec) (c : Call) (e : ReceiverEngine T E)
      → InStep e
      → InStep (with_sink ops codec c e)
  unfolding with_sink
  with_sink-InStep codec c e h =
      let sink' = operate codec c e.sink in
      let s = operate-Signals codec c e.sink in
      let news = drop (length e.sink.events) sink'.events in
      let e' = record e { sink = sink' } in
      handle_sink_events-heard news e'
      ∙ ap₂ heard_all h
          (ap (drop (length e.sink.events)) s.log_eq ∙ drop-append e.sink.events s.news)
      ∙ s.heard_eq
      ∙ sym (ap (λ w. w.backpressured) (handle_sink_events-sink news e'))

  InStep-if :
      (b : Bool) (u v : ReceiverEngine T E) → InStep u → InStep v → InStep (if b then u else v)
  InStep-if true u v h k = h
  InStep-if false u v h k = k

  handle_record-InStep :
      (codec : Codec) (src : String) (framed : FramedRecord) (e : ReceiverEngine T E)
      → InStep e
      → InStep (handle_record ops codec src framed e)
  unfolding handle_record
  handle_record-InStep codec src framed e h =
      let e' = with_sink ops codec (submits framed src) e in
      let h' = with_sink-InStep codec (submits framed src) e h in
      InStep-if ((submit framed src e.sink).1) e'
        (record e' { transport = count_drop ops (ops.record_drops e'.transport) e'.transport }) h'
        (count_drop-paused ops is_paused laws (ops.record_drops e'.transport) e'.transport ∙ h')

  when_begun-InStep :
      (r : Result (Unit {0})) (e : ReceiverEngine T E) → InStep e → InStep ((when_begun ops r e).0)
  when_begun-InStep (ok u) e h = h
  when_begun-InStep (raise err) e h = h

  InStep-if_pair :
      (b : Bool) (p q : ReceiverEngine T E × Result (Unit {0}))
      → InStep (p.0)
      → InStep (q.0)
      → InStep ((if b then p else q).0)
  InStep-if_pair true p q h k = h
  InStep-if_pair false p q h k = k

  begin-InStep :
      (codec : Codec) (e : ReceiverEngine T E) → InStep e → InStep ((begin ops codec e).0)
  unfolding begin
  begin-InStep codec e h =
      let e' = with_sink ops codec starts e in
      let t = ops.begin e'.transport in
      let v = record e' { transport = t.0 } in
      InStep-if_pair e.started (e, ok tt) (when_begun ops (t.1) v) h
        (when_begun-InStep (t.1) v (laws.begin_eq e'.transport ∙ with_sink-InStep codec starts e h))

  -- If a transport that can pause is paused exactly while the sink signals backpressure, then the same
  -- holds after every call of the engine, every event of the transport, every run of the sink's task,
  -- and whatever the transport does that leaves its pause alone.
  pub engine_call-InStep :
      (codec : Codec) (c : EngineCall T E) (e : ReceiverEngine T E)
      → IsFair c
      → InStep e
      → InStep (engine_call ops codec c e)
  unfolding engine_call
  engine_call-InStep codec begins e f h = begin-InStep codec e h
  engine_call-InStep codec requests_engine_stop e f h =
      unfold request_stop in
      (let v = record e { stopping = true; transport = ops.stop e.transport } in
        InStep-if (not e.started || e.stopping) e (with_sink ops codec requests_stop v) h
          (with_sink-InStep codec requests_stop v (laws.stop_eq e.transport ∙ h)))
  engine_call-InStep codec finishes_engine_stop e f h =
      unfold finish_stop in
      (let v = with_sink ops codec finishes_stop e in
        InStep-if (not e.stopping) e
          (forward ops receiver_engine_stopped (record v { started = false; stopping = false })) h
          (with_sink-InStep codec finishes_stop e h))
  engine_call-InStep codec (handles_record src framed) e f h =
      handle_record-InStep codec src framed e h
  engine_call-InStep codec (configures_sink waiter cfg) e f h =
      unfold configure_sink in (with_sink-InStep codec (configures waiter cfg) e h)
  engine_call-InStep codec (runs_sink now) e f h = with_sink-InStep codec (runs now) e h
  engine_call-InStep codec (transport_event event) e f h = h
  engine_call-InStep codec (transport_acts g) e f h = f e.transport ∙ h
