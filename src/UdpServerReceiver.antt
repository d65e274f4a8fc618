-- ===== src/UdpServerReceiver.antt =====
-- src/tcp_sim/transport/udp_server_receiver.py: the UDP server for which each datagram is a record.
pub mod Datagrams
mod Tests
use tcp_server_simulator.Prelude.{
  Bool, Bytes, List, Result, String, [], false, if◌then◌else◌, length, ltb, not, ok, raise, take,
  true, ℕ, ◌++◌, ◌+◌, ◌∷◌,
}
use tcp_server_simulator.Framer.{FramedRecord}

pub data UdpReceiverEvent : Type 0 where
  receiver_listening : ℕ → UdpReceiverEvent
  receiver_stopped : UdpReceiverEvent
  record_truncated : String → ℕ → UdpReceiverEvent

pub record UdpServerReceiver : Type 0 where
  pub max_record_bytes : ℕ
  pub running : Bool
  pub records_received : ℕ
  pub bytes_received : ℕ
  pub truncations : ℕ
  pub record_drops : ℕ
  pub events : List UdpReceiverEvent

abbrev pub emit_event : UdpReceiverEvent → UdpServerReceiver → UdpServerReceiver
emit_event e u = record u { events = u.events ++ e ∷ [] }

-- `__init__`
unfoldable pub init : ℕ → UdpServerReceiver
init max_record_bytes = record {
  max_record_bytes = max_record_bytes;
  running = false;
  records_received = 0;
  bytes_received = 0;
  truncations = 0;
  record_drops = 0;
  events = [];
}

-- `start`, with the port of the socket or the exception of its creation.
unfoldable pub start : Result ℕ → UdpServerReceiver → UdpServerReceiver × Result (Unit {0})
start (ok port) u =
    if u.running
    then (u, ok tt)
    else (emit_event (receiver_listening port) (record u { running = true }), ok tt)
start (raise err) u = if u.running then (u, ok tt) else (u, raise err)

-- `stop`
unfoldable pub stop : UdpServerReceiver → UdpServerReceiver
stop u = if not u.running then u else emit_event receiver_stopped (record u { running = false })

-- `set_paused`
unfoldable pub set_paused : Bool → UdpServerReceiver → UdpServerReceiver
set_paused paused u = u

-- `_on_datagram` of a sender under the name it gives it: the record that goes to `on_record`.
unfoldable pub on_datagram : Bytes → String → UdpServerReceiver → UdpServerReceiver × FramedRecord
on_datagram data_ src u =
    let u' = record u {
      bytes_received = u.bytes_received + length data_;
      records_received = u.records_received + 1;
    } in
    if ltb u.max_record_bytes (length data_)
    then (
      emit_event (record_truncated src (length (take u.max_record_bytes data_)))
          (record u' { truncations = u.truncations + 1 }),
      record { payload = take u.max_record_bytes data_; truncated = true },
    )
    else (u', record { payload = data_; truncated = false })
