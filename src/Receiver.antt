-- ===== src/Receiver.antt =====
-- src/tcp_sim/engine/receiver.py: the engine that joins a receiver transport to the sink writer.
pub mod Pause
pub mod Drops
mod Tests
use tcp_server_simulator.Prelude.{
  Bool, List, Option, Result, String, [], drop, false, if◌then◌else◌, length, none, not, ok, raise,
  some, true, ℕ, ◌++◌, ◌+◌, ◌||◌, ◌∷◌,
}
use tcp_server_simulator.Framer.{FramedRecord}
use tcp_server_simulator.Sink.{Codec, SinkWriter, submit}
use tcp_server_simulator.Sink.Config.{
  SinkConfig, SinkEvent, sink_high_watermark, sink_low_watermark,
}
use tcp_server_simulator.Sink.Drain.{
  Call, configures, finishes_stop, operate, requests_stop, runs, starts, submits,
}

-- `_TransportLike`, and the counter `record_drops`, which some transports have. A start may raise.
pub record TransportLike (T : Type 0) : Type 0 where
  pub begin : T → T × Result (Unit {0})
  pub stop : T → T
  pub set_paused : Bool → T → T
  pub record_drops : T → Option ℕ
  pub set_record_drops : ℕ → T → T

pub data EngineEvent (E : Type 0) : Type 0 where
  from_transport : E → EngineEvent E
  from_sink : SinkEvent → EngineEvent E
  receiver_engine_started receiver_engine_stopped : EngineEvent E

pub record ReceiverEngine (T E : Type 0) : Type 0 where
  pub transport : T
  pub sink : SinkWriter
  pub started : Bool
  pub stopping : Bool
  pub events : List (EngineEvent E)

module _ {T : Type 0} (ops : TransportLike T) where
  -- `_handle_sink_event`
  abbrev pub paused_by : SinkEvent → T → T
  paused_by (sink_high_watermark n) t = ops.set_paused true t
  paused_by (sink_low_watermark n) t = ops.set_paused false t
  paused_by _ t = t

  abbrev pub count_drop : Option ℕ → T → T
  count_drop none t = t
  count_drop (some counter) t = ops.set_record_drops (counter + 1) t

module _ {T E : Type 0} (ops : TransportLike T) where
  -- `_forward`
  abbrev pub forward : EngineEvent E → ReceiverEngine T E → ReceiverEngine T E
  forward event e = record e { events = e.events ++ event ∷ [] }

  unfoldable pub handle_sink_event : SinkEvent → ReceiverEngine T E → ReceiverEngine T E
  handle_sink_event event e =
      forward (from_sink event) (record e { transport = paused_by ops event e.transport })

  unfoldable pub handle_sink_events : List SinkEvent → ReceiverEngine T E → ReceiverEngine T E
  unfolding handle_sink_event
  handle_sink_events [] e = e
  handle_sink_events (event ∷ events) e = handle_sink_events events (handle_sink_event event e)

  -- A call of the sink, or a run of its task: the sink tells the engine what it adds to its log.
  unfoldable pub with_sink : Codec → Call → ReceiverEngine T E → ReceiverEngine T E
  unfolding operate handle_sink_events
  with_sink codec c e =
      let sink' = operate codec c e.sink in
      handle_sink_events (drop (length e.sink.events) sink'.events) (record e { sink = sink' })

  -- `_handle_record`
  unfoldable pub handle_record :
      Codec → String → FramedRecord → ReceiverEngine T E → ReceiverEngine T E
  unfolding with_sink submit
  handle_record codec src framed e =
      let submitted = (submit framed src e.sink).1 in
      let e' = with_sink codec (submits framed src) e in
      if submitted
      then e'
      else record e' { transport = count_drop ops (ops.record_drops e'.transport) e'.transport }

  abbrev pub when_begun :
      Result (Unit {0}) → ReceiverEngine T E → ReceiverEngine T E × Result (Unit {0})
  when_begun (ok u) e = (forward receiver_engine_started (record e { started = true }), ok tt)
  when_begun (raise err) e = (e, raise err)

  -- `start`
  unfoldable pub begin : Codec → ReceiverEngine T E → ReceiverEngine T E × Result (Unit {0})
  unfolding with_sink
  begin codec e =
      if e.started
      then (e, ok tt)
      else let e' = with_sink codec starts e in
        let t = ops.begin e'.transport in when_begun (t.1) (record e' { transport = t.0 })

  -- `stop`, up to the wait for the end of the sink's task, and behind it.
  unfoldable pub request_stop : Codec → ReceiverEngine T E → ReceiverEngine T E
  unfolding with_sink
  request_stop codec e =
      if not e.started || e.stopping
      then e
      else with_sink codec requests_stop
          (record e { stopping = true; transport = ops.stop e.transport })

  unfoldable pub finish_stop : Codec → ReceiverEngine T E → ReceiverEngine T E
  unfolding with_sink
  finish_stop codec e =
      if not e.stopping
      then e
      else let e' = with_sink codec finishes_stop e in
        forward receiver_engine_stopped (record e' { started = false; stopping = false })

  -- `configure_sink`
  unfoldable pub configure_sink : Codec → ℕ → SinkConfig → ReceiverEngine T E → ReceiverEngine T E
  unfolding with_sink
  configure_sink codec waiter cfg e = with_sink codec (configures waiter cfg) e

-- The calls of the engine, the ends of its waits, the runs of the sink's task, and what the transport
-- does for itself.
pub data EngineCall (T E : Type 0) : Type 0 where
  begins requests_engine_stop finishes_engine_stop : EngineCall T E
  handles_record : String → FramedRecord → EngineCall T E
  configures_sink : ℕ → SinkConfig → EngineCall T E
  runs_sink : ℕ → EngineCall T E
  transport_event : E → EngineCall T E
  transport_acts : (T → T) → EngineCall T E

unfoldable pub engine_call :
    {T E : Type 0}
    → TransportLike T
    → Codec
    → EngineCall T E
    → ReceiverEngine T E
    → ReceiverEngine T E
unfolding begin request_stop finish_stop handle_record configure_sink with_sink
engine_call ops codec begins e = (begin ops codec e).0
engine_call ops codec requests_engine_stop e = request_stop ops codec e
engine_call ops codec finishes_engine_stop e = finish_stop ops codec e
engine_call ops codec (handles_record src framed) e = handle_record ops codec src framed e
engine_call ops codec (configures_sink waiter cfg) e = configure_sink ops codec waiter cfg e
engine_call ops codec (runs_sink now) e = with_sink ops codec (runs now) e
engine_call ops codec (transport_event event) e = forward ops (from_transport event) e
engine_call ops codec (transport_acts f) e = record e { transport = f e.transport }
