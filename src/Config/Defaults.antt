-- ===== src/Config/Defaults.antt =====
-- The default values of the configuration.
use tcp_server_simulator.Prelude.{[], false, true, ℕ, ◌∷◌}
use tcp_server_simulator.Config.Dictionaries.{
  Atom, Dict, Node, atom, boolean, from_items, integer, null, object, other, pos, string,
}

-- What is in the receiver's settings, what is in the configuration, and a configuration.
abbrev pub Item : Type 0
Item = Node Atom

abbrev pub Value : Type 0
Value = Node Item

abbrev pub Config : Type 0
Config = Dict Value

abbrev pub current_schema_version : ℕ
current_schema_version = 2

unfoldable pub default_sink : Dict Atom
unfolding from_items
default_sink = from_items (
    ("enabled", boolean false)
    ∷ ("path", null)
    ∷ ("format", string "jsonl")
    ∷ ("record_separator", string "\n")
    ∷ ("rotation_max_bytes", integer (pos 104857600))
    ∷ ("rotation_backup_count", integer (pos 5))
    ∷ ("queue_high_watermark_bytes", integer (pos 8388608))
    ∷ ("queue_low_watermark_bytes", integer (pos 2097152))
    ∷ ("queue_max_bytes", integer (pos 33554432))
    ∷ [])

unfoldable pub default_receiver_config : Dict Item
unfolding from_items default_sink
default_receiver_config = from_items (
    ("framing_mode", atom (string "lf"))
    ∷ ("max_record_bytes", atom (integer (pos 1048576)))
    ∷ ("udp_multicast_group", atom null)
    ∷ ("udp_multicast_interface", atom (string "0.0.0.0"))
    ∷ ("udp_client_hello_payload", atom null)
    ∷ ("udp_client_hello_interval_seconds", atom (other "0.0"))
    ∷ ("udp_client_filter_remote_peer", atom (boolean false))
    ∷ ("sink", object default_sink)
    ∷ [])

unfoldable pub default_config : Config
unfolding from_items default_receiver_config
default_config = from_items (
    ("schema_version", atom (integer (pos current_schema_version)))
    ∷ ("role", atom (string "sender"))
    ∷ ("mode", atom (string "server"))
    ∷ ("protocol", atom (string "tcp"))
    ∷ ("host", atom (string "0.0.0.0"))
    ∷ ("port", atom (integer (pos 5565)))
    ∷ ("file", atom (string "data/sample.csv"))
    ∷ ("delimiter", atom (string ","))
    ∷ ("has_header", atom (boolean true))
    ∷ ("send_header", atom (boolean true))
    ∷ ("rate_features_per_second", atom (integer (pos 10)))
    ∷ ("loop", atom (boolean true))
    ∷ ("timestamp_field", atom (integer (pos 3)))
    ∷ ("timestamp_format", atom (string "iso8601"))
    ∷ ("replace_timestamp", atom (boolean true))
    ∷ ("start_line", atom null)
    ∷ ("end_line", atom null)
    ∷ ("first_n_lines", atom null)
    ∷ ("line_ending", atom (string "\n"))
    ∷ ("log_file", atom (string "tcp-sim.log"))
    ∷ ("log_level", atom (string "INFO"))
    ∷ ("connect_timeout_seconds", atom (integer (pos 10)))
    ∷ ("send_timeout_seconds", atom (integer (pos 10)))
    ∷ ("slow_client_timeout_seconds", atom (integer (pos 10)))
    ∷ ("reconnect_max_backoff_seconds", atom (integer (pos 30)))
    ∷ ("client_queue_high_watermark_bytes", atom (integer (pos 262144)))
    ∷ ("client_queue_low_watermark_bytes", atom (integer (pos 131072)))
    ∷ ("client_queue_hard_cap_bytes", atom (integer (pos 524288)))
    ∷ ("use_tls", atom (boolean false))
    ∷ ("tls_certfile", atom null)
    ∷ ("tls_keyfile", atom null)
    ∷ ("tls_ca_file", atom null)
    ∷ ("tls_verify", atom (boolean true))
    ∷ ("tls_server_hostname", atom null)
    ∷ ("log_rotation_max_bytes", atom (integer (pos 10485760)))
    ∷ ("log_rotation_backup_count", atom (integer (pos 5)))
    ∷ ("udp_recipient_mode", atom (string "reply_to_senders"))
    ∷ ("udp_recipient_cache_ttl_seconds", atom (integer (pos 300)))
    ∷ ("udp_recipient_cache_max_entries", atom (integer (pos 256)))
    ∷ ("udp_recipient_cache_cleanup_interval_seconds", atom (integer (pos 30)))
    ∷ ("udp_recipient_cache_eviction_policy", atom (string "lru"))
    ∷ ("receiver", object default_receiver_config)
    ∷ [])

-- `load_default_config`
unfoldable pub load_default_config : Config
unfolding default_config
load_default_config = default_config
