-- ===== src/Recipients/Tests.antt =====
-- A UDP sender with room for two recipients.
use tcp_server_simulator.Prelude.{[], false, refl, remove, true, ◌∷◌, ◌≡◌}
use tcp_server_simulator.Recipients.{Address, UdpServerSender, address_discrete, send}

abbrev one : Address
one = ("10.0.0.1", 1)

abbrev two : Address
two = ("10.0.0.2", 2)

abbrev two_recipients : UdpServerSender
two_recipients = record {
  config = record {
    multicast = false;
    multicast_address = ("239.255.0.1", 5565);
    recipient_cache_ttl = 10;
    recipient_cache_max_entries = 2;
  };
  running = true;
  recipient_cache = (one, 1) ∷ (two, 9) ∷ [];
  sent = [];
  events = [];
}

two_recipients_sends : (send (b'a' ∷ []) 12 two_recipients).0.sent ≡ (b'a' ∷ [], two) ∷ []
unfolding send address_discrete remove
two_recipients_sends = refl
