-- ===== src/Controller/Transports.antt =====
-- The four transports of the sender, as `_build_transport` of src/tcp_sim/gui/controller.py makes them. The
-- mode and the protocol of the settings are in lower case. What the system answers is an argument.
use tcp_server_simulator.Prelude.{
  Bool, Bytes, Option, Result, String, String-discrete, false, ite, none, not, ok, raise, some,
  value_error, ℕ,
}
use tcp_server_simulator.Connections.{QueueThresholds}
use tcp_server_simulator.TcpServerSender.{
  TcpServerSender, broadcast, has_broadcast_clients, send_header, update_header_payload,
  init as tcp_server_init, start as tcp_server_start, stop as tcp_server_stop,
}
use tcp_server_simulator.TcpClientSender.{
  TcpClientSender, init as tcp_client_init, start as tcp_client_start, stop as tcp_client_stop,
  send as tcp_client_send,
}
use tcp_server_simulator.Recipients.{
  UdpServerConfig, UdpServerSender, init as udp_server_init, start as udp_server_start,
  stop as udp_server_stop, send as udp_server_send,
}
use tcp_server_simulator.UdpClientSender.{
  UdpClientSender, init as udp_client_init, start as udp_client_start, stop as udp_client_stop,
  send as udp_client_send,
}

-- Host, port and certificates are the system's business.
pub record RuntimeSettings : Type 0 where
  pub mode : String
  pub protocol : String
  pub send_timeout : ℕ
  pub reconnect_max_backoff : ℕ
  pub use_tls : Bool
  pub tls_verify : Bool

pub data Transport : Type 0 where
  tcp_server : TcpServerSender → Transport
  tcp_client : TcpClientSender → Transport
  udp_server : UdpServerSender → Transport
  udp_client : UdpClientSender → Transport

pub data Kind : Type 0 where
  tcp_server_kind tcp_client_kind udp_server_kind udp_client_kind : Kind

-- The tests of the protocol and the mode.
unfoldable pub kind_of : String → String → Option Kind
unfolding String-discrete
kind_of protocol mode =
    ite (String-discrete protocol "tcp")
      (ite (String-discrete mode "server") (some tcp_server_kind)
        (ite (String-discrete mode "client") (some tcp_client_kind) none))
      (ite (String-discrete protocol "udp")
        (ite (String-discrete mode "server") (some udp_server_kind)
          (ite (String-discrete mode "client") (some udp_client_kind) none))
        none)

-- The defaults of `TcpServerConfig` and of `UdpServerConfig`.
abbrev pub default_thresholds : ℕ → QueueThresholds
default_thresholds seconds = record {
  high_watermark_bytes = 262144;
  low_watermark_bytes = 131072;
  hard_cap_bytes = 524288;
  slow_client_timeout = seconds;
}

abbrev pub default_udp_config : UdpServerConfig
default_udp_config = record {
  multicast = false;
  multicast_address = ("239.255.0.1", 5565);
  recipient_cache_ttl = 300;
  recipient_cache_max_entries = 256;
}

unfoldable pub build_kind : Option Kind → RuntimeSettings → Bool → Option Bytes → Result Transport
unfolding tcp_server_init tcp_client_init udp_server_init udp_client_init
build_kind none settings send_header header = raise value_error
build_kind (some tcp_server_kind) settings send_header header =
    ok (tcp_server (tcp_server_init (default_thresholds settings.send_timeout) send_header header))
build_kind (some tcp_client_kind) settings send_header header = ok (
    tcp_client (
      tcp_client_init (record {
        reconnect_max_backoff = settings.reconnect_max_backoff;
        use_tls = settings.use_tls;
        tls_verify = settings.tls_verify;
      })))
build_kind (some udp_server_kind) settings send_header header =
    ok (udp_server (udp_server_init default_udp_config))
build_kind (some udp_client_kind) settings send_header header = ok (udp_client udp_client_init)

-- `_build_transport`
unfoldable pub build_transport : RuntimeSettings → Bool → Option Bytes → Result Transport
unfolding kind_of build_kind
build_transport settings send_header_on_connect header_payload =
    build_kind (kind_of settings.protocol settings.mode) settings send_header_on_connect
      header_payload

-- The result of a method, under the transport's constructor.
abbrev pub under {ℓ} : {A : Type 0} {R : Type ℓ} → (A → Transport) → A × R → Transport × R
under wrap (a, r) = (wrap a, r)

-- A UDP server whose socket the system refuses is not started.
abbrev pub start_udp_server : Result ℕ → UdpServerSender → UdpServerSender × Result (Unit {0})
unfolding udp_server_start
start_udp_server (ok port) u = (udp_server_start port u, ok tt)
start_udp_server (raise err) u = (u, raise err)

-- `start`, with the port of the socket, or the exception of its creation.
unfoldable pub start_transport : Result ℕ → Transport → Transport × Result (Unit {0})
unfolding tcp_server_start tcp_client_start udp_client_start start_udp_server
start_transport answer (tcp_server t) = under tcp_server (tcp_server_start answer t)
start_transport answer (tcp_client t) = (tcp_client (tcp_client_start t), ok tt)
start_transport answer (udp_server t) = under udp_server (start_udp_server answer t)
start_transport answer (udp_client t) = under udp_client (udp_client_start answer t)

-- `stop`
unfoldable pub stop_transport : Transport → Transport
unfolding tcp_server_stop tcp_client_stop udp_server_stop udp_client_stop
stop_transport (tcp_server t) = tcp_server (tcp_server_stop t)
stop_transport (tcp_client t) = tcp_client (tcp_client_stop t)
stop_transport (udp_server t) = udp_server (udp_server_stop t)
stop_transport (udp_client t) = udp_client (udp_client_stop t)

-- `send`, which for the TCP server is a broadcast.
unfoldable pub send_to : ℕ → Bytes → Transport → Transport × Result (Unit {0})
unfolding broadcast tcp_client_send udp_server_send udp_client_send
send_to now payload (tcp_server t) = (tcp_server (broadcast now payload t), ok tt)
send_to now payload (tcp_client t) = (tcp_client (tcp_client_send payload t), ok tt)
send_to now payload (udp_server t) = under udp_server (udp_server_send payload now t)
send_to now payload (udp_client t) = under udp_client (udp_client_send payload t)

-- Whether a TCP server has no client that is ready for a broadcast.
unfoldable pub has_no_reader : Transport → Bool
unfolding has_broadcast_clients
has_no_reader (tcp_server t) = not (has_broadcast_clients t)
has_no_reader _ = false

unfoldable pub update_header : Bool → Option Bytes → Transport → Transport
unfolding update_header_payload
update_header send_header header (tcp_server t) =
    tcp_server (update_header_payload send_header header t)
update_header send_header header t = t
