-- ===== src/Controller/Receivers.antt =====
-- The four transports of the receiver, as `_build_receiver_transport` of src/tcp_sim/gui/controller.py makes
-- them, and as the transport of the receiver engine.
use tcp_server_simulator.Prelude.{
  Bool, Bytes, Option, Result, String, String-discrete, ite, none, ok, raise, some, value_error, ℕ,
  ◌>>=◌,
}
use tcp_server_simulator.Framer.{FramingMode, crlf, lf, raw_chunk}
use tcp_server_simulator.Recipients.{Address}
use tcp_server_simulator.Receiver.{TransportLike}
use tcp_server_simulator.TcpServerReceiver.{
  TcpServerReceiver, init as tcp_server_init, start as tcp_server_start, stop as tcp_server_stop,
  set_paused as tcp_server_set_paused,
}
use tcp_server_simulator.TcpClientReceiver.{
  TcpClientReceiver, init as tcp_client_init, start as tcp_client_start, stop as tcp_client_stop,
  set_paused as tcp_client_set_paused,
}
use tcp_server_simulator.UdpServerReceiver.{
  UdpServerReceiver, init as udp_server_init, start as udp_server_start, stop as udp_server_stop,
  set_paused as udp_server_set_paused,
}
use tcp_server_simulator.UdpClientReceiver.{
  UdpClientReceiver, init as udp_client_init, start as udp_client_start, stop as udp_client_stop,
  set_paused as udp_client_set_paused,
}
use tcp_server_simulator.Controller.Transports.{
  Kind, RuntimeSettings, kind_of, tcp_client_kind, tcp_server_kind, udp_client_kind,
  udp_server_kind,
}

-- `ReceiverSettings`, and the address of the settings.
pub record ReceiverSettings : Type 0 where
  pub framing_mode : String
  pub max_record_bytes : ℕ
  pub remote : Address
  pub udp_client_hello_payload : Option Bytes
  pub udp_client_hello_interval : ℕ
  pub udp_client_filter_remote_peer : Bool

pub data ReceiverTransport : Type 0 where
  tcp_server_receiver : TcpServerReceiver → ReceiverTransport
  tcp_client_receiver : TcpClientReceiver → ReceiverTransport
  udp_server_receiver : UdpServerReceiver → ReceiverTransport
  udp_client_receiver : UdpClientReceiver → ReceiverTransport

-- `FramingMode(text)`
unfoldable pub framing_of : String → Result FramingMode
unfolding String-discrete
framing_of name = ite (String-discrete name "lf") (ok lf) (
    ite (String-discrete name "crlf") (ok crlf)
      (ite (String-discrete name "raw_chunk") (ok raw_chunk) (raise value_error)))

unfoldable pub build_receiver_kind :
    Option Kind → FramingMode → RuntimeSettings → ReceiverSettings → Result ReceiverTransport
unfolding tcp_server_init tcp_client_init udp_server_init udp_client_init
build_receiver_kind none framing settings r = raise value_error
build_receiver_kind (some tcp_server_kind) framing settings r =
    ok (tcp_server_receiver (tcp_server_init framing r.max_record_bytes))
build_receiver_kind (some tcp_client_kind) framing settings r = ok (
    tcp_client_receiver (
      tcp_client_init (record {
        reconnect_max_backoff = settings.reconnect_max_backoff;
        framing_mode = framing;
        max_record_bytes = r.max_record_bytes;
        use_tls = settings.use_tls;
        tls_verify = settings.tls_verify;
      })))
build_receiver_kind (some udp_server_kind) framing settings r =
    ok (udp_server_receiver (udp_server_init r.max_record_bytes))
build_receiver_kind (some udp_client_kind) framing settings r = ok (
    udp_client_receiver (
      udp_client_init (record {
        remote = r.remote;
        max_record_bytes = r.max_record_bytes;
        hello_payload = r.udp_client_hello_payload;
        hello_interval = r.udp_client_hello_interval;
        filter_remote_peer = r.udp_client_filter_remote_peer;
      })))

-- `_build_receiver_transport`
unfoldable pub build_receiver_transport :
    RuntimeSettings → ReceiverSettings → Result ReceiverTransport
unfolding kind_of framing_of build_receiver_kind
build_receiver_transport settings r = do
  framing ← framing_of r.framing_mode
  build_receiver_kind (kind_of settings.protocol settings.mode) framing settings r

abbrev pub receiver_under {ℓ} :
    {A : Type 0} {R : Type ℓ} → (A → ReceiverTransport) → A × R → ReceiverTransport × R
receiver_under wrap (a, r) = (wrap a, r)

unfoldable pub start_receiver : Result ℕ → ReceiverTransport → ReceiverTransport × Result (Unit {0})
unfolding tcp_server_start tcp_client_start udp_server_start udp_client_start
start_receiver answer (tcp_server_receiver t) =
    receiver_under tcp_server_receiver (tcp_server_start answer t)
start_receiver answer (tcp_client_receiver t) = (tcp_client_receiver (tcp_client_start t), ok tt)
start_receiver answer (udp_server_receiver t) =
    receiver_under udp_server_receiver (udp_server_start answer t)
start_receiver answer (udp_client_receiver t) =
    receiver_under udp_client_receiver (udp_client_start answer t)

-- The stop of a transport, whose peers end in time.
unfoldable pub stop_receiver : ReceiverTransport → ReceiverTransport
unfolding tcp_server_stop tcp_client_stop udp_server_stop udp_client_stop
stop_receiver (tcp_server_receiver t) = tcp_server_receiver (tcp_server_stop none t)
stop_receiver (tcp_client_receiver t) = tcp_client_receiver (tcp_client_stop t).0
stop_receiver (udp_server_receiver t) = udp_server_receiver (udp_server_stop t)
stop_receiver (udp_client_receiver t) = udp_client_receiver (udp_client_stop t)

unfoldable pub pause_receiver : Bool → ReceiverTransport → ReceiverTransport
unfolding tcp_server_set_paused tcp_client_set_paused udp_server_set_paused udp_client_set_paused
pause_receiver paused (tcp_server_receiver t) = tcp_server_receiver (tcp_server_set_paused paused t)
pause_receiver paused (tcp_client_receiver t) = tcp_client_receiver (tcp_client_set_paused paused t)
pause_receiver paused (udp_server_receiver t) = udp_server_receiver (udp_server_set_paused paused t)
pause_receiver paused (udp_client_receiver t) = udp_client_receiver (udp_client_set_paused paused t)

-- `getattr(transport, "record_drops")`: the TCP transports have no such counter.
unfoldable pub drops_of : ReceiverTransport → Option ℕ
drops_of (udp_server_receiver t) = some t.record_drops
drops_of (udp_client_receiver t) = some t.record_drops
drops_of _ = none

unfoldable pub set_drops : ℕ → ReceiverTransport → ReceiverTransport
set_drops n (udp_server_receiver t) = udp_server_receiver (record t { record_drops = n })
set_drops n (udp_client_receiver t) = udp_client_receiver (record t { record_drops = n })
set_drops n t = t

abbrev pub receiver_ops : Result ℕ → TransportLike ReceiverTransport
receiver_ops answer = record {
  begin = start_receiver answer;
  stop = stop_receiver;
  set_paused = pause_receiver;
  record_drops = drops_of;
  set_record_drops = set_drops;
}
