-- ===== src/Receiver/Tests.antt =====
-- The engine over a TCP server receiver.
use tcp_server_simulator.Prelude.{[], false, none, ok, refl, some, true, ◌∷◌, ◌≡◌}
use tcp_server_simulator.Framer.{FramedRecord, lf}
use tcp_server_simulator.Sink.{Codec, init as sink_init}
use tcp_server_simulator.Sink.Config.{SinkConfig, delimited}
use tcp_server_simulator.Receiver.{ReceiverEngine, engine_call, handles_record}
use tcp_server_simulator.Receiver.Pause.{InStep, engine_call-InStep}
use tcp_server_simulator.TcpServerReceiver.{
  ReceiverEvent, TcpServerReceiver, set_paused, init as receiver_init,
}
use tcp_server_simulator.TcpServerReceiver.Counts.{is_paused, transport, transport-IsPausing}

abbrev small : SinkConfig
small = record {
  enabled = true;
  path = some "out";
  format = delimited;
  record_separator = b'\n' ∷ [];
  rotation_max_bytes = 4;
  rotation_backup_count = 2;
  queue_high_watermark_bytes = 2;
  queue_low_watermark_bytes = 1;
  queue_max_bytes = 8;
}

abbrev codec : Codec
codec = record {
  now_iso = λ n. [];
  decode = λ bs. none;
  b64encode = λ bs. bs;
  utf8 = λ s. [];
  dumps = λ o. [];
}

abbrev engine : ReceiverEngine TcpServerReceiver ReceiverEvent
engine = record {
  transport = receiver_init lf 8;
  sink = sink_init small (λ path i. none);
  started = true;
  stopping = false;
  events = [];
}

engine-InStep :
    InStep (transport (ok 5565) none) is_paused (transport-IsPausing (ok 5565) none) engine
unfolding receiver_init sink_init
engine-InStep = refl

-- A record that reaches the high watermark pauses the transport.
abbrev ab : FramedRecord
ab = record { payload = b'a' ∷ b'b' ∷ []; truncated = false }

engine_call-InStep_example :
    InStep
      (transport (ok 5565) none)
      is_paused
      (transport-IsPausing (ok 5565) none)
      (engine_call (transport (ok 5565) none) codec (handles_record "peer" ab) engine)
engine_call-InStep_example =
    engine_call-InStep (transport (ok 5565) none) is_paused (transport-IsPausing (ok 5565) none)
      codec (handles_record "peer" ab) engine tt engine-InStep

record_pauses :
    (engine_call
      (transport (ok 5565) none)
      codec
      (handles_record "peer" ab)
      engine).transport.paused
    ≡ true
unfolding engine_call receiver_init sink_init set_paused
record_pauses = refl
