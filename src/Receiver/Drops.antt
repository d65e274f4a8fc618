-- ===== src/Receiver/Drops.antt =====
-- The counter of drops that a transport has, and the records that the sink drops.
use tcp_server_simulator.Prelude.{
  Bool, List, Option, Result, String, [], ap, arith, drop, false, if◌then◌else◌, length, none, not,
  ok, raise, refl, some, subst, sym, true, ℕ, ◌+◌, ◌||◌, ◌∙◌, ◌∷◌, ◌≡◌,
}
use tcp_server_simulator.Sink.Config.{SinkEvent, sink_high_watermark, sink_low_watermark}
use tcp_server_simulator.Sink.Drops.{dropped, drops_in, operate-dropped, refused}
use tcp_server_simulator.Sink.{Codec, submit}
use tcp_server_simulator.Sink.Drain.{
  Call, configures, finishes_stop, operate, requests_stop, runs, starts, submits,
}
use tcp_server_simulator.Framer.{FramedRecord}
use tcp_server_simulator.Receiver.{
  EngineCall, ReceiverEngine, TransportLike, begin, begins, configure_sink, configures_sink,
  count_drop, engine_call, finish_stop, finishes_engine_stop, forward, handle_record,
  handle_sink_event, handle_sink_events, handles_record, paused_by, receiver_engine_stopped,
  request_stop, requests_engine_stop, runs_sink, transport_acts, transport_event, when_begun,
  with_sink,
}

-- What a transport promises of its counter, if it has one.
pub record IsCounting {T : Type 0} (ops : TransportLike T) : Type 0 where
  pub set_eq :
      (n m : ℕ) (t : T)
      → ops.record_drops t ≡ some m
      → ops.record_drops (ops.set_record_drops n t) ≡ some n
  pub pause_eq : (b : Bool) (t : T) → ops.record_drops (ops.set_paused b t) ≡ ops.record_drops t
  pub begin_eq : (t : T) → ops.record_drops ((ops.begin t).0) ≡ ops.record_drops t
  pub stop_eq : (t : T) → ops.record_drops (ops.stop t) ≡ ops.record_drops t

-- A counter, if there is one, stands at a number.
abbrev pub StandsAt : ℕ → Option ℕ → Type 0
StandsAt n none = Unit
StandsAt n (some m) = m ≡ n

StandsAt-eq : {o o' : Option ℕ} {n n' : ℕ} → o' ≡ o → n' ≡ n → StandsAt n o → StandsAt n' o'
StandsAt-eq {o} {o'} {n} {n'} p q h =
    subst (λ x. StandsAt n' x) (sym p) (subst (λ k. StandsAt k o) (sym q) h)

module _ {T : Type 0} (ops : TransportLike T) (laws : IsCounting ops) where
  paused_by-drops :
      (event : SinkEvent) (t : T) → ops.record_drops (paused_by ops event t) ≡ ops.record_drops t
  paused_by-drops (sink_high_watermark n) t = laws.pause_eq true t
  paused_by-drops (sink_low_watermark n) t = laws.pause_eq false t
  paused_by-drops _ t = refl

  count_drop-StandsAt :
      (n : ℕ) (o : Option ℕ) (t : T)
      → ops.record_drops t ≡ o
      → StandsAt n o
      → StandsAt (n + 1) (ops.record_drops (count_drop ops o t))
  count_drop-StandsAt n none t p h = subst (StandsAt (n + 1)) (sym p) tt
  count_drop-StandsAt n (some m) t p h =
      subst (StandsAt (n + 1)) (sym (laws.set_eq (m + 1) m t p)) (ap (λ k. k + 1) h)

module _ {T E : Type 0} (ops : TransportLike T) (laws : IsCounting ops) where
  -- The counter of the transport, if it has one, is the number of records that the sink has dropped.
  abbrev pub CountsDrops : ReceiverEngine T E → Type 0
  CountsDrops e = StandsAt (dropped e.sink) (ops.record_drops e.transport)

  -- The calls that leave the counter to the engine.
  abbrev pub LeavesDrops : EngineCall T E → Type 0
  LeavesDrops (transport_acts f) = (t : T) → ops.record_drops (f t) ≡ ops.record_drops t
  LeavesDrops c = Unit

  -- The sink's events change neither the counter nor the sink.
  handle_sink_events-drops :
      (events : List SinkEvent) (e : ReceiverEngine T E)
      → (ops.record_drops (handle_sink_events ops events e).transport
          ≡ ops.record_drops e.transport)
        × ((handle_sink_events ops events e).sink ≡ e.sink)
  unfolding handle_sink_events handle_sink_event
  handle_sink_events-drops [] e = (refl, refl)
  handle_sink_events-drops (event ∷ events) e =
      let h = handle_sink_events-drops events (handle_sink_event ops event e) in
      (h.0 ∙ paused_by-drops ops laws event e.transport, h.1)

  with_sink-drops :
      (codec : Codec) (c : Call) (e : ReceiverEngine T E)
      → (ops.record_drops (with_sink ops codec c e).transport ≡ ops.record_drops e.transport)
        × (dropped (with_sink ops codec c e).sink ≡ dropped e.sink + drops_in c e.sink)
  unfolding with_sink
  with_sink-drops codec c e =
      let sink' = operate codec c e.sink in
      let h =
        handle_sink_events-drops (drop (length e.sink.events) sink'.events)
          (record e { sink = sink' }) in
      (h.0, ap dropped h.1 ∙ operate-dropped codec c e.sink)

  -- A call of the sink that submits nothing.
  with_sink-CountsDrops :
      (codec : Codec) (c : Call) (e : ReceiverEngine T E)
      → drops_in c e.sink ≡ 0
      → CountsDrops e
      → CountsDrops (with_sink ops codec c e)
  with_sink-CountsDrops codec c e z h =
      let k = with_sink-drops codec c e in StandsAt-eq k.0 (k.1 ∙ omega (arith, z)) h

  settled-CountsDrops :
      (submitted : Bool) (n : ℕ) (e : ReceiverEngine T E)
      → StandsAt n (ops.record_drops e.transport)
      → dropped e.sink ≡ n + refused submitted
      → CountsDrops (
          if submitted
          then e
          else record e { transport = count_drop ops (ops.record_drops e.transport) e.transport })
  settled-CountsDrops true n e h p = StandsAt-eq refl (p ∙ omega arith) h
  settled-CountsDrops false n e h p =
      StandsAt-eq refl p
        (count_drop-StandsAt ops laws n (ops.record_drops e.transport) e.transport refl h)

  handle_record-CountsDrops :
      (codec : Codec) (src : String) (framed : FramedRecord) (e : ReceiverEngine T E)
      → CountsDrops e
      → CountsDrops (handle_record ops codec src framed e)
  unfolding handle_record
  handle_record-CountsDrops codec src framed e h =
      let k = with_sink-drops codec (submits framed src) e in
      settled-CountsDrops (submit framed src e.sink).1 (dropped e.sink)
        (with_sink ops codec (submits framed src) e) (StandsAt-eq k.0 refl h) k.1

  CountsDrops-if :
      (b : Bool) (v w : ReceiverEngine T E)
      → CountsDrops v
      → CountsDrops w
      → CountsDrops (if b then v else w)
  CountsDrops-if true v w h k = h
  CountsDrops-if false v w h k = k

  when_begun-CountsDrops :
      (r : Result (Unit {0})) (e : ReceiverEngine T E)
      → CountsDrops e
      → CountsDrops (when_begun ops r e).0
  when_begun-CountsDrops (ok u) e h = h
  when_begun-CountsDrops (raise err) e h = h

  pair-CountsDrops :
      (b : Bool) (p q : ReceiverEngine T E × Result (Unit {0}))
      → CountsDrops p.0
      → CountsDrops q.0
      → CountsDrops ((if b then p else q).0)
  pair-CountsDrops true p q h k = h
  pair-CountsDrops false p q h k = k

  begin-CountsDrops :
      (codec : Codec) (e : ReceiverEngine T E) → CountsDrops e → CountsDrops ((begin ops codec e).0)
  unfolding begin
  begin-CountsDrops codec e h =
      let e' = with_sink ops codec starts e in
      let t = ops.begin e'.transport in
      let v = record e' { transport = t.0 } in
      pair-CountsDrops e.started (e, ok tt) (when_begun ops t.1 v) h
        (when_begun-CountsDrops t.1 v (
          StandsAt-eq (laws.begin_eq e'.transport) refl
            (with_sink-CountsDrops codec starts e refl h)))

  request_stop-CountsDrops :
      (codec : Codec) (e : ReceiverEngine T E)
      → CountsDrops e
      → CountsDrops (request_stop ops codec e)
  unfolding request_stop
  request_stop-CountsDrops codec e h =
      let v = record e { stopping = true; transport = ops.stop e.transport } in
      CountsDrops-if (not e.started || e.stopping) e (with_sink ops codec requests_stop v) h (
        with_sink-CountsDrops codec requests_stop v refl
          (StandsAt-eq (laws.stop_eq e.transport) refl h))

  finish_stop-CountsDrops :
      (codec : Codec) (e : ReceiverEngine T E)
      → CountsDrops e
      → CountsDrops (finish_stop ops codec e)
  unfolding finish_stop
  finish_stop-CountsDrops codec e h =
      let v = with_sink ops codec finishes_stop e in
      CountsDrops-if (not e.stopping) e
        (forward ops receiver_engine_stopped (record v { started = false; stopping = false })) h
        (with_sink-CountsDrops codec finishes_stop e refl h)

  pub engine_call-CountsDrops :
      (codec : Codec) (c : EngineCall T E) (e : ReceiverEngine T E)
      → LeavesDrops c
      → CountsDrops e
      → CountsDrops (engine_call ops codec c e)
  unfolding engine_call configure_sink
  engine_call-CountsDrops codec begins e f h = begin-CountsDrops codec e h
  engine_call-CountsDrops codec requests_engine_stop e f h = request_stop-CountsDrops codec e h
  engine_call-CountsDrops codec finishes_engine_stop e f h = finish_stop-CountsDrops codec e h
  engine_call-CountsDrops codec (handles_record src framed) e f h =
      handle_record-CountsDrops codec src framed e h
  engine_call-CountsDrops codec (configures_sink waiter cfg) e f h =
      with_sink-CountsDrops codec (configures waiter cfg) e refl h
  engine_call-CountsDrops codec (runs_sink now) e f h =
      with_sink-CountsDrops codec (runs now) e refl h
  engine_call-CountsDrops codec (transport_event event) e f h = h
  engine_call-CountsDrops codec (transport_acts g) e f h = StandsAt-eq (f e.transport) refl h
