-- ===== src/Recipients.antt =====
-- src/tcp_sim/transport/udp_server_sender.py: the UDP sender that replies to whoever has sent to it,
-- with its cache of recipients. The clock is an argument; a configuration counts in the clock's unit.
pub mod Cache
pub mod Recent
mod Tests
use tcp_server_simulator.Prelude.{
  Bool, Bytes, List, Result, String, String-discrete, [], ap, false, if◌then◌else◌, length, ltb,
  max, not, ok, raise, remove, runtime_error, true, ℕ, ℕ_discrete, ◌++◌, ◌-◌, ◌∷◌,
}

abbrev pub Address : Type 0
Address = String × ℕ

pub record UdpServerConfig : Type 0 where
  pub multicast : Bool
  pub multicast_address : Address
  pub recipient_cache_ttl : ℕ
  pub recipient_cache_max_entries : ℕ

pub data SenderEvent : Type 0 where
  udp_server_started : ℕ → SenderEvent
  udp_server_stopped udp_recipient_evicted : SenderEvent
  udp_recipient_expired udp_send_multicast : ℕ → SenderEvent
  udp_send_reply : ℕ → ℕ → SenderEvent

-- The cache is in the order of the last datagrams, the oldest first. `sent` is what went out.
pub record UdpServerSender : Type 0 where
  pub config : UdpServerConfig
  pub running : Bool
  pub recipient_cache : List (Address × ℕ)
  pub sent : List (Bytes × Address)
  pub events : List SenderEvent

abbrev pub emit_event : SenderEvent → UdpServerSender → UdpServerSender
emit_event e s = record s { events = s.events ++ e ∷ [] }

unfoldable pub address_discrete : Discrete Address
unfolding String-discrete ℕ_discrete
address_discrete a b = elim (String-discrete a.0 b.0) [
  | yes p ↦ elim (ℕ_discrete a.1 b.1) [
    | yes q ↦ yes (λ i. (p i, q i))
    | no n ↦ no (λ r. n (ap (λ x. x.1) r))
  ]
  | no n ↦ no (λ r. n (ap (λ x. x.0) r))
]

-- `__init__`
unfoldable pub init : UdpServerConfig → UdpServerSender
init config = record {
  config = config;
  running = false;
  recipient_cache = [];
  sent = [];
  events = [];
}

-- `start`, on a socket that is bound to the port.
unfoldable pub start : ℕ → UdpServerSender → UdpServerSender
start port s =
    if s.running then s else emit_event (udp_server_started port) (record s { running = true })

-- `stop`
unfoldable pub stop : UdpServerSender → UdpServerSender
stop s =
    if not s.running
    then s
    else emit_event udp_server_stopped (record s { running = false; recipient_cache = [] })

-- `move_to_end` and the assignment behind it.
unfoldable pub refresh : Address → ℕ → List (Address × ℕ) → List (Address × ℕ)
unfolding remove
refresh addr now cache = remove address_discrete addr cache ++ (addr, now) ∷ []

-- The loop `while len(cache) > max: cache.popitem(last=False)`.
unfoldable pub evict :
    ℕ → List (Address × ℕ) → List SenderEvent → List (Address × ℕ) × List SenderEvent
evict max [] events = ([], events)
evict max (e ∷ cache) events =
    let rest = evict max cache (events ++ udp_recipient_evicted ∷ []) in
    if ltb max (length (e ∷ cache)) then rest else (e ∷ cache, events)

-- `register_sender`
unfoldable pub register_sender : Address → ℕ → UdpServerSender → UdpServerSender
unfolding refresh evict
register_sender addr now s =
    let r =
      evict s.config.recipient_cache_max_entries (refresh addr now s.recipient_cache) s.events in
    record s { recipient_cache = r.0; events = r.1 }

abbrev pub is_expired : ℕ → ℕ → Address × ℕ → Bool
is_expired ttl now e = ltb ttl (now - e.1)

-- The first loop of `cleanup_expired`, and its second.
unfoldable pub expired : ℕ → ℕ → List (Address × ℕ) → List Address
expired ttl now [] = []
expired ttl now (e ∷ cache) =
    let rest = expired ttl now cache in if is_expired ttl now e then e.0 ∷ rest else rest

unfoldable pub remove_all : List Address → List (Address × ℕ) → List (Address × ℕ)
unfolding remove
remove_all [] cache = cache
remove_all (addr ∷ addrs) cache = remove_all addrs (remove address_discrete addr cache)

abbrev pub note_expired : List Address → UdpServerSender → UdpServerSender
note_expired [] s = s
note_expired (addr ∷ addrs) s = emit_event (udp_recipient_expired (length (addr ∷ addrs))) s

-- `cleanup_expired`
unfoldable pub cleanup_expired : ℕ → UdpServerSender → UdpServerSender
unfolding expired remove_all
cleanup_expired now s =
    let gone = expired s.config.recipient_cache_ttl now s.recipient_cache in
    note_expired gone (record s { recipient_cache = remove_all gone s.recipient_cache })

abbrev pub datagrams : Bytes → List (Address × ℕ) → List (Bytes × Address)
datagrams payload [] = []
datagrams payload (e ∷ cache) = (payload, e.0) ∷ datagrams payload cache

-- `send`
unfoldable pub send : Bytes → ℕ → UdpServerSender → UdpServerSender × Result (Unit {0})
unfolding cleanup_expired
send payload now s =
    if not s.running
    then (s, raise runtime_error)
    else let s' = cleanup_expired now s in
      if s.config.multicast
      then (
        emit_event (udp_send_multicast (length payload))
            (record s' { sent = s'.sent ++ (payload, s'.config.multicast_address) ∷ [] }),
        ok tt,
      )
      else (
        emit_event (udp_send_reply (length s'.recipient_cache) (length payload))
            (record s' { sent = s'.sent ++ datagrams payload s'.recipient_cache }),
        ok tt,
      )
