-- ===== src/UdpClientSender.antt =====
-- src/tcp_sim/transport/udp_client_sender.py: the UDP client that sends datagrams to its destination.
use tcp_server_simulator.Prelude.{
  Bool, Bytes, List, Result, [], false, if◌then◌else◌, not, ok, raise, runtime_error, true, ℕ, ◌++◌,
  ◌∷◌,
}

-- `transport` is whether there is a socket, and `sent` is what has gone to the destination.
pub record UdpClientSender : Type 0 where
  pub transport : Bool
  pub sent : List Bytes

-- `__init__`
unfoldable pub init : UdpClientSender
init = record { transport = false; sent = [] }

-- `start`, with what the creation of the socket answers.
unfoldable pub start : Result ℕ → UdpClientSender → UdpClientSender × Result (Unit {0})
start (ok port) u = if u.transport then (u, ok tt) else (record u { transport = true }, ok tt)
start (raise err) u = if u.transport then (u, ok tt) else (u, raise err)

-- `stop`
unfoldable pub stop : UdpClientSender → UdpClientSender
stop u = record u { transport = false }

-- `send`
unfoldable pub send : Bytes → UdpClientSender → UdpClientSender × Result (Unit {0})
send payload u =
    if not u.transport
    then (u, raise runtime_error)
    else (record u { sent = u.sent ++ payload ∷ [] }, ok tt)
