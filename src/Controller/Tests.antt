-- ===== src/Controller/Tests.antt =====
-- A receiver that is started, and a sender that is started while it runs.
use tcp_server_simulator.Prelude.{
  List, String-discrete, [], arith, false, is_some, none, ok, refl, some, true, ◌∷◌, ◌≡◌,
}
use tcp_server_simulator.Sink.Config.{SinkConfig, jsonl}
use tcp_server_simulator.Sink.Files.{Disk}
use tcp_server_simulator.Sink.{Codec, init as sink_init, start as sink_start}
use tcp_server_simulator.Controller.Transports.{RuntimeSettings, kind_of, udp_client_kind}
use tcp_server_simulator.Controller.Receivers.{
  ReceiverSettings, ReceiverTransport, build_receiver_transport, drops_of, pause_receiver,
  set_drops, start_receiver, udp_server_receiver,
}
use tcp_server_simulator.Controller.Loading.{
  Source, StreamSettings, has_rows, load_records, velocity_preset,
}
use tcp_server_simulator.Controller.Reception.{start_reception, stop_reception}
use tcp_server_simulator.Controller.Transmission.{taken_of, wake_all}
use tcp_server_simulator.Controller.Delivery.{Delivered, transmission-Sent}
use tcp_server_simulator.Scheduler.Active.{active, check_line_controls}
use tcp_server_simulator.Receiver.{EngineCall, engine_call, handles_record, receiver_engine_started}
use tcp_server_simulator.Sink.Drops.{dropped}
use tcp_server_simulator.Receiver.Drops.{StandsAt}
use tcp_server_simulator.UdpServerReceiver.{start as udp_server_start, init as udp_server_init}
use tcp_server_simulator.Controller.Drops.{engine_calls, start_reception-drops}
use tcp_server_simulator.Controller.Calls.{
  Command, perform, perform_all, starts_reception, starts_transmission, steps_once, stops_transport,
  toggles_pause,
}
use tcp_server_simulator.Controller.Sides.{IsReceiving, IsValid}
use tcp_server_simulator.Controller.Sharing.{Shares, start_transmission-both}
use tcp_server_simulator.Controller.Receiving.{start_reception-exclusive}
use tcp_server_simulator.Controller.Roles.{init-IsValid, perform_all-IsValid}
use tcp_server_simulator.Controller.{Controller, Receiving, init}
use tcp_server_simulator.Controller.Starting.{start_transmission}

abbrev plain_codec : Codec
plain_codec = record {
  now_iso = λ now. [];
  decode = λ bs. some bs;
  b64encode = λ bs. bs;
  utf8 = λ s. [];
  dumps = λ fields. [];
}

abbrev empty_disk : Disk
empty_disk path i = none

abbrev no_sink : SinkConfig
no_sink = record {
  enabled = false;
  path = none;
  format = jsonl;
  record_separator = b'\n' ∷ [];
  rotation_max_bytes = 100;
  rotation_backup_count = 1;
  queue_high_watermark_bytes = 20;
  queue_low_watermark_bytes = 10;
  queue_max_bytes = 40;
}

abbrev local : RuntimeSettings
local = record {
  mode = "server";
  protocol = "udp";
  send_timeout = 10;
  reconnect_max_backoff = 30;
  use_tls = false;
  tls_verify = true;
}

abbrev lines_of : ReceiverSettings
lines_of = record {
  framing_mode = "lf";
  max_record_bytes = 100;
  remote = ("publisher", 5565);
  udp_client_hello_payload = none;
  udp_client_hello_interval = 0;
  udp_client_filter_remote_peer = false;
}

abbrev steady : StreamSettings
steady = record {
  has_header = false;
  send_header = false;
  rate = 10000;
  loop = true;
  strip_lf = true;
  strip_cr = false;
  velocity_compatibility_mode = false;
}

abbrev two_rows : Source
two_rows = has_rows (
    record { raw_row_number = 1; raw_text = b'a' ∷ b'\n' ∷ []; fields = (b'a' ∷ []) ∷ [] }
    ∷ record { raw_row_number = 2; raw_text = b'b' ∷ b'\n' ∷ []; fields = (b'b' ∷ []) ∷ [] }
    ∷ [])

abbrev receiving : Controller
receiving =
    perform (starts_reception plain_codec empty_disk true (ok 5565) local lines_of no_sink) init

abbrev session : List Command
session =
    starts_reception plain_codec empty_disk true (ok 5565) local lines_of no_sink
    ∷ starts_transmission (ok 5566) 4 two_rows local steady
    ∷ toggles_pause
    ∷ steps_once 7
    ∷ stops_transport
    ∷ []

perform_all-IsValid_example : IsValid (perform_all session init)
perform_all-IsValid_example = perform_all-IsValid session init init-IsValid

-- Both sides run.
both_run :
    let c = start_transmission (ok 5566) 4 two_rows local steady receiving in
    (is_some c.engine ≡ true) × (is_some c.receiver_engine ≡ true)
unfolding perform start_transmission init start_receiver String-discrete
both_run = (refl, refl)

abbrev sending : Controller
sending = start_transmission (ok 5566) 4 two_rows local steady init

start_reception-exclusive_example :
    let c = start_reception plain_codec empty_disk true (ok 5565) local lines_of no_sink sending in
    (c.engine ≡ none) × (c.active_transport ≡ none) × IsReceiving c
start_reception-exclusive_example =
    start_reception-exclusive plain_codec empty_disk true (ok 5565) local lines_of no_sink sending

abbrev to_server : RuntimeSettings
to_server = record local { mode = "client" }

abbrev transmitting : Controller
transmitting = wake_all (5 ∷ []) (start_transmission (ok 5566) 4 two_rows to_server steady init)

transmission-Sent_example : Delivered ((b'a' ∷ []) ∷ (b'b' ∷ []) ∷ []) transmitting
unfolding init kind_of load_records velocity_preset check_line_controls active String-discrete
transmission-Sent_example =
    transmission-Sent udp_client_kind 5566 4 two_rows to_server steady init (5 ∷ [])
      {records = (b'a' ∷ []) ∷ (b'b' ∷ []) ∷ []} {header = none} refl refl refl refl (omega arith)

-- One record is sent when the start returns.
one_sent :
    let c = start_transmission (ok 5566) 4 two_rows to_server steady init in
    taken_of c.active_transport ≡ (b'a' ∷ []) ∷ []
unfolding start_transmission init tcp_server_simulator.Scheduler.step
one_sent = refl

-- A sink that holds two bytes at most: the second record is dropped, and counted by the transport.
abbrev small_sink : SinkConfig
small_sink = record no_sink {
  enabled = true;
  path = some "out";
  queue_high_watermark_bytes = 2;
  queue_low_watermark_bytes = 1;
  queue_max_bytes = 2;
}

abbrev overload : List (EngineCall ReceiverTransport (Unit {0}))
overload =
    handles_record "peer" (record { payload = b'a' ∷ b'b' ∷ []; truncated = false })
    ∷ handles_record "peer" (record { payload = b'c' ∷ []; truncated = false })
    ∷ []

abbrev small_receiver : Receiving
small_receiver = record {
  transport = udp_server_receiver (udp_server_start (ok 5565) (udp_server_init 100)).0;
  sink = sink_start (sink_init small_sink empty_disk);
  started = true;
  stopping = false;
  events = receiver_engine_started ∷ [];
}

abbrev overloaded : Receiving
overloaded = engine_calls (ok 5565) plain_codec overload small_receiver

start_reception-drops_example : StandsAt (dropped overloaded.sink) (drops_of overloaded.transport)
unfolding start_reception init kind_of build_receiver_transport start_receiver String-discrete
start_reception-drops_example =
    start_reception-drops plain_codec empty_disk true (ok 5565) local lines_of small_sink init
      small_receiver overload refl (tt, (tt, tt))

one_dropped : drops_of overloaded.transport ≡ some 1
unfolding engine_call drops_of sink_init pause_receiver set_drops udp_server_start udp_server_init
one_dropped = refl

abbrev receiving_engine : Receiving
receiving_engine = record {
  transport = udp_server_receiver (udp_server_start (ok 5565) (udp_server_init 100)).0;
  sink = sink_start (sink_init no_sink empty_disk);
  started = true;
  stopping = false;
  events = receiver_engine_started ∷ [];
}

start_transmission-both_example :
    let c = start_transmission (ok 5566) 4 two_rows to_server steady receiving in
    Shares c (stop_reception true c)
unfolding perform init kind_of load_records velocity_preset check_line_controls active
    start_receiver String-discrete
start_transmission-both_example =
    start_transmission-both udp_client_kind 5566 4 two_rows to_server steady receiving true
      {records = (b'a' ∷ []) ∷ (b'b' ∷ []) ∷ []} {header = none} refl refl refl refl (omega arith)
      refl refl
