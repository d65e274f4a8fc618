-- ===== src/Sink/Config.antt =====
-- src/tcp_sim/engine/sink_writer.py: the configuration of the sink, its statistics and its events.
use tcp_server_simulator.Prelude.{
  Bool, Bytes, Option, Result, String, leb, ltb, ok, raise_if, value_error, ℕ, ◌>>◌,
}

pub data SinkFormat : Type 0 where
  delimited jsonl : SinkFormat

pub record SinkConfig : Type 0 where
  pub enabled : Bool
  pub path : Option String
  pub format : SinkFormat
  pub record_separator : Bytes
  pub rotation_max_bytes : ℕ
  pub rotation_backup_count : ℕ
  pub queue_high_watermark_bytes : ℕ
  pub queue_low_watermark_bytes : ℕ
  pub queue_max_bytes : ℕ

-- `__post_init__`; the tests for negative numbers have no counterpart.
unfoldable pub post_init : SinkConfig → Result SinkConfig
post_init c = do
  raise_if (leb c.rotation_max_bytes 0) value_error
  raise_if (leb c.queue_high_watermark_bytes c.queue_low_watermark_bytes) value_error
  raise_if (ltb c.queue_max_bytes c.queue_high_watermark_bytes) value_error
  ok c

pub record SinkStats : Type 0 where
  pub records_written : ℕ
  pub bytes_written : ℕ
  pub rotations : ℕ
  pub records_dropped : ℕ
  pub current_path : Option String
  pub current_file_size : ℕ

pub data SinkEvent : Type 0 where
  sink_started : String → SinkFormat → SinkEvent
  sink_stopped : SinkEvent
  sink_rotated : String → Option ℕ → SinkEvent
  sink_reconfigured : Option String → SinkFormat → Bool → SinkEvent
  sink_high_watermark sink_low_watermark : ℕ → SinkEvent
  sink_record_dropped : String → ℕ → SinkEvent
