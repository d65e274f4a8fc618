-- ===== src/UdpClientReceiver.antt =====
-- src/tcp_sim/transport/udp_client_receiver.py: the UDP client that says hello to a publisher and takes
-- datagrams as records. A sender is its address, where the code writes it as text.
pub mod Calls
pub mod Datagrams
mod Tests
use tcp_server_simulator.Framer.{FramedRecord}
use tcp_server_simulator.Recipients.{Address, address_discrete}
use tcp_server_simulator.Prelude.{
  Bool, Bytes, List, Option, Result, [], false, if◌then◌else◌, ite, length, ltb, none, not, ok,
  raise, some, take, true, ℕ, ◌&&◌, ◌++◌, ◌+◌, ◌∷◌,
}

pub data UdpClientEvent : Type 0 where
  receiver_bound : ℕ → UdpClientEvent
  receiver_stopped : UdpClientEvent
  udp_hello_sent : Address → UdpClientEvent
  record_truncated : Address → ℕ → UdpClientEvent

pub record UdpClientReceiverConfig : Type 0 where
  pub remote : Address
  pub max_record_bytes : ℕ
  pub hello_payload : Option Bytes
  pub hello_interval : ℕ
  pub filter_remote_peer : Bool

-- The fields of the class, with `transport` for whether there is a socket, `hello_task` for whether the
-- task runs, and what the socket has sent.
pub record UdpClientReceiver : Type 0 where
  pub config : UdpClientReceiverConfig
  pub transport : Bool
  pub hello_task : Bool
  pub running : Bool
  pub records_received : ℕ
  pub bytes_received : ℕ
  pub truncations : ℕ
  pub record_drops : ℕ
  pub packets_filtered : ℕ
  pub sent : List Bytes
  pub events : List UdpClientEvent

abbrev pub emit_event : UdpClientEvent → UdpClientReceiver → UdpClientReceiver
emit_event e u = record u { events = u.events ++ e ∷ [] }

-- `__init__`
unfoldable pub init : UdpClientReceiverConfig → UdpClientReceiver
init config = record {
  config = config;
  transport = false;
  hello_task = false;
  running = false;
  records_received = 0;
  bytes_received = 0;
  truncations = 0;
  record_drops = 0;
  packets_filtered = 0;
  sent = [];
  events = [];
}

-- A payload to send: the code's test takes an empty one for none.
abbrev pub hello_of : Option Bytes → Option Bytes
hello_of none = none
hello_of (some []) = none
hello_of (some (b ∷ bs)) = some (b ∷ bs)

abbrev pub send_payload : Option Bytes → UdpClientReceiver → UdpClientReceiver
send_payload none u = u
send_payload (some payload) u =
    emit_event (udp_hello_sent u.config.remote) (record u { sent = u.sent ++ payload ∷ [] })

-- `_send_hello`
unfoldable pub send_hello : UdpClientReceiver → UdpClientReceiver
send_hello u = if u.transport then send_payload (hello_of u.config.hello_payload) u else u

-- What `start` does behind `receiver_bound`.
unfoldable pub start_hello : Option Bytes → UdpClientReceiver → UdpClientReceiver
unfolding send_hello
start_hello none u = u
start_hello (some payload) u =
    let u' = send_hello u in
    if ltb 0 u.config.hello_interval then record u' { hello_task = true } else u'

-- `start`, with the port of the socket or the exception of its creation.
unfoldable pub start : Result ℕ → UdpClientReceiver → UdpClientReceiver × Result (Unit {0})
unfolding start_hello
start (ok port) u =
    let u' = emit_event (receiver_bound port) (record u { transport = true; running = true }) in
    if u.running then (u, ok tt) else (start_hello (hello_of u.config.hello_payload) u', ok tt)
start (raise err) u = if u.running then (u, ok tt) else (u, raise err)

-- `stop`
unfoldable pub stop : UdpClientReceiver → UdpClientReceiver
stop u =
    if not u.running
    then u
    else emit_event receiver_stopped
        (record u { running = false; hello_task = false; transport = false })

-- `set_paused`
unfoldable pub set_paused : Bool → UdpClientReceiver → UdpClientReceiver
set_paused paused u = u

-- One turn of `_hello_loop`, behind its sleep.
unfoldable pub hello_turn : UdpClientReceiver → UdpClientReceiver
unfolding send_hello
hello_turn u = if u.hello_task && u.running then send_hello u else u

-- Whether the filter lets an address pass.
unfoldable pub is_accepted : UdpClientReceiverConfig → Address → Bool
unfolding address_discrete
is_accepted config src =
    if config.filter_remote_peer then ite (address_discrete src config.remote) true false else true

-- `_on_datagram`: the record that goes to `on_record`, if the datagram is not filtered.
unfoldable pub on_datagram :
    Bytes → Address → UdpClientReceiver → UdpClientReceiver × Option (Address × FramedRecord)
on_datagram data_ src u =
    let u' = record u {
      bytes_received = u.bytes_received + length data_;
      records_received = u.records_received + 1;
    } in
    let max_record_bytes = u.config.max_record_bytes in
    if not (is_accepted u.config src)
    then (record u { packets_filtered = u.packets_filtered + 1 }, none)
    else if ltb max_record_bytes (length data_)
    then (
      emit_event (record_truncated src (length (take max_record_bytes data_)))
          (record u' { truncations = u.truncations + 1 }),
      some (src, record { payload = take max_record_bytes data_; truncated = true }),
    )
    else (u', some (src, record { payload = data_; truncated = false }))
