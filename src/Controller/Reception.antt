-- ===== src/Controller/Reception.antt =====
-- The receiver's side of src/tcp_sim/gui/controller.py. The peers of a transport end in time, and the format
-- of the sink is already read from its name.
use tcp_server_simulator.Prelude.{
  Bool, Option, Result, [], false, if◌then◌else◌, is_some, none, ok, raise, some, true, value_error,
  ℕ, ◌>>=◌, ◌||◌, ◌∷◌,
}
use tcp_server_simulator.Sink.Config.{SinkConfig, post_init}
use tcp_server_simulator.Sink.Files.{Disk}
use tcp_server_simulator.Sink.{Codec, init as sink_init}
use tcp_server_simulator.Receiver.{begin, configure_sink as engine_configure_sink}
use tcp_server_simulator.Controller.Transports.{RuntimeSettings}
use tcp_server_simulator.Controller.Receivers.{
  ReceiverSettings, ReceiverTransport, build_receiver_transport, receiver_ops,
}
use tcp_server_simulator.Controller.{
  Controller, Outcome, Receiving, Role, caught, emit, emit_all, no_active_receiver, receiver,
  receiver_counters_zero, reception_failed, reception_started, reception_stopped, sender,
  sink_disabled, sink_settings_taken, stop_timed_out, stop_transport_async, switching_to_receiver,
}

-- `_stop_reception_async`, with whether the engine stops in time. The engine is dropped before it stops.
unfoldable pub detach : Option Receiving → Bool → Controller → Controller
detach none in_time c = c
detach (some e) in_time c =
    emit_all
      ((if in_time then reception_stopped else stop_timed_out)
        ∷ receiver_counters_zero
        ∷ sink_disabled
        ∷ [])
      (record c { receiver_engine = none })

unfoldable pub leave_role : Role → Controller → Controller
leave_role sender c = c
leave_role receiver c = record c { active_role = sender; active_settings = none }

unfoldable pub stop_reception : Bool → Controller → Controller
unfolding detach leave_role
stop_reception in_time c =
    let c' = detach c.receiver_engine in_time (record c { receiver_stats_task = false }) in
    leave_role c'.active_role c'

-- `_start_reception_async`: what runs is stopped first.
unfoldable pub leave_sender : Controller → Controller
unfolding stop_transport_async
leave_sender c =
    if is_some c.active_transport || is_some c.engine
    then stop_transport_async (emit switching_to_receiver c)
    else c

unfoldable pub leave_receiver : Bool → Controller → Controller
unfolding stop_reception
leave_receiver in_time c = if is_some c.receiver_engine then stop_reception in_time c else c

-- `ReceiverEngine(transport, sink_config)`
unfoldable pub new_engine : Disk → ReceiverTransport → SinkConfig → Receiving
unfolding sink_init
new_engine disk t cfg = record {
  transport = t;
  sink = sink_init cfg disk;
  started = false;
  stopping = false;
  events = [];
}

unfoldable pub build_engine :
    Disk → RuntimeSettings → ReceiverSettings → SinkConfig → Result Receiving
unfolding build_receiver_transport post_init new_engine
build_engine disk settings r sink_settings = do
  t ← build_receiver_transport settings r
  cfg ← post_init sink_settings
  ok (new_engine disk t cfg)

abbrev pub begun : Receiving × Result (Unit {0}) → Controller → Outcome
begun (e, raise err) c = (record c { receiver_engine = some e }, raise err)
begun (e, ok u) c = (
  emit reception_started (record c { receiver_engine = some e; receiver_stats_task = true }),
  ok tt,
)

unfoldable pub receive :
    Codec → Result ℕ → RuntimeSettings → Result Receiving → Controller → Outcome
unfolding begin
receive codec answer settings (raise err) c = (c, raise err)
receive codec answer settings (ok e) c =
    begun (begin (receiver_ops answer) codec e) (record c {
      receiver_engine = some e;
      active_settings = some settings;
      active_role = receiver;
    })

-- `_start_reception_async`
unfoldable pub start_reception :
    Codec
    → Disk
    → Bool
    → Result ℕ
    → RuntimeSettings
    → ReceiverSettings
    → SinkConfig
    → Controller
    → Controller
unfolding leave_sender leave_receiver build_engine receive stop_reception
start_reception codec disk in_time answer settings r sink_settings c =
    caught reception_failed (stop_reception in_time) (
      receive codec answer settings (build_engine disk settings r sink_settings)
        (leave_receiver in_time (leave_sender c)))

-- `_configure_sink_async`: the settings of the sink may be refused, which nothing catches.
abbrev pub reconfigured : Codec → ℕ → Receiving → Result SinkConfig → Controller → Outcome
unfolding engine_configure_sink
reconfigured codec waiter e (raise err) c = (c, raise err)
reconfigured codec waiter e (ok cfg) c =
    let e' = engine_configure_sink (receiver_ops (raise value_error)) codec waiter cfg e in
    (emit sink_settings_taken (record c { receiver_engine = some e' }), ok tt)

unfoldable pub configure_sink_of : Option Receiving → Codec → ℕ → SinkConfig → Controller → Outcome
unfolding reconfigured post_init
configure_sink_of none codec waiter sink_settings c = (emit no_active_receiver c, ok tt)
configure_sink_of (some e) codec waiter sink_settings c =
    reconfigured codec waiter e (post_init sink_settings) c

unfoldable pub configure_sink : Codec → ℕ → SinkConfig → Controller → Outcome
unfolding configure_sink_of
configure_sink codec waiter sink_settings c =
    configure_sink_of c.receiver_engine codec waiter sink_settings c

-- `_stop_everything_async`
unfoldable pub stop_everything : Bool → Controller → Controller
unfolding stop_reception stop_transport_async
stop_everything in_time c = stop_transport_async (stop_reception in_time c)
