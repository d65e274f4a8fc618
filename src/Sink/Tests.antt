-- ===== src/Sink/Tests.antt =====
-- The sink writer on small files.
use tcp_server_simulator.Prelude.{
  String-discrete, [], arith, false, length, none, refl, some, suc, true, zero, ℕ_discrete, ◌++◌,
  ◌∷◌, ◌≡◌, ◌≤◌, ◌⊎◌,
}
use tcp_server_simulator.Sink.{
  Codec, QueueItem, SinkWriter, configure, draining, init, item_of, stop_item,
}
use tcp_server_simulator.Framer.{FramedRecord}
use tcp_server_simulator.Sink.Config.{SinkConfig, delimited}
use tcp_server_simulator.Sink.Files.{Family, append_file, rotate_family, set_family}
use tcp_server_simulator.Sink.Drain.{
  encode, encode_as, must_rotate, operate, rotate_file, run, runs, write_record,
}
use tcp_server_simulator.Sink.Accounting.{IsCounted, operate-IsCounted}
use tcp_server_simulator.Sink.Archive.{
  IsOpenAt, archive, lost, write_record-IsOpenAt, write_record-archive, written,
}
use tcp_server_simulator.Sink.Waiters.{configure_overwrites, is_among, operate_all}
use tcp_server_simulator.Sink.Backpressure.{IsSignalled, operate-IsSignalled}

abbrev small : SinkConfig
small = record {
  enabled = true;
  path = some "out";
  format = delimited;
  record_separator = b'\n' ∷ [];
  rotation_max_bytes = 4;
  rotation_backup_count = 2;
  queue_high_watermark_bytes = 4;
  queue_low_watermark_bytes = 1;
  queue_max_bytes = 8;
}

abbrev codec : Codec
codec = record {
  now_iso = λ n. [];
  decode = λ bs. none;
  b64encode = λ bs. bs;
  utf8 = λ s. [];
  dumps = λ o. [];
}

abbrev ab : FramedRecord
ab = record { payload = b'a' ∷ b'b' ∷ []; truncated = false }

-- A base file of two bytes, and one backup.
abbrev files : Family
files zero = some (b'x' ∷ b'\n' ∷ [])
files (suc zero) = some (b'y' ∷ [])
files (suc (suc j)) = none

-- The task in its loop, with a record and a stop in its queue.
abbrev busy : SinkWriter
busy = record {
  cfg = small;
  queue = item_of ab "peer" ∷ stop_item ∷ [];
  queued_bytes = 2;
  stats = record {
    records_written = 0;
    bytes_written = 0;
    rotations = 0;
    records_dropped = 0;
    current_path = some "out";
    current_file_size = 2;
  };
  task = draining;
  fh = some "out";
  current_path = some "out";
  backpressured = true;
  pending_config = none;
  stopping = true;
  disk = λ path. files;
  events = [];
  done = [];
}

busy-IsCounted : IsCounted busy
busy-IsCounted = record { counted = refl; stops = ((λ e. cc), ((λ e. refl), tt)) }

operate-IsCounted_example : IsCounted (operate codec (runs 0) busy)
operate-IsCounted_example = operate-IsCounted codec (runs 0) busy busy-IsCounted

busy-IsSignalled : IsSignalled busy
busy-IsSignalled = record {
  on = λ e. omega arith;
  off = λ e. cc;
  capped = omega arith;
  ordered = omega arith;
  settled = refl;
}

operate-IsSignalled_example : IsSignalled (operate codec (runs 0) busy)
operate-IsSignalled_example = operate-IsSignalled codec (runs 0) busy tt busy-IsSignalled

busy-IsOpenAt : IsOpenAt "out" (b'x' ∷ b'\n' ∷ []) busy
busy-IsOpenAt = record { here = refl; size = refl }

abbrev item : QueueItem
item = item_of ab "peer"

write_record-archive_example :
    lost (must_rotate busy (encode codec 0 small item)) 2 files
      ++ archive 2 ((write_record codec 0 "out" item busy).disk "out")
    ≡ archive 2 files ++ encode codec 0 small item
write_record-archive_example =
    write_record-archive codec 0 "out" item (b'x' ∷ b'\n' ∷ []) busy busy-IsOpenAt

write_record-IsOpenAt_example :
    let content' =
      written
        (must_rotate busy (encode codec 0 small item))
        (b'x' ∷ b'\n' ∷ [])
        (encode codec 0 small item) in
    IsOpenAt "out" content' (write_record codec 0 "out" item busy)
    × ((length content' ≤ 4) ⊎ (content' ≡ encode codec 0 small item))
write_record-IsOpenAt_example =
    write_record-IsOpenAt codec 0 "out" item (b'x' ∷ b'\n' ∷ []) busy busy-IsOpenAt

configure_overwrites_example :
    is_among 1
      ((operate_all codec (runs 0 ∷ runs 0 ∷ []) (configure 2 small (configure 1 small busy))).done)
    ≡ false
configure_overwrites_example =
    configure_overwrites codec 1 2 small small (runs 0 ∷ runs 0 ∷ []) busy refl
      (λ e. omega (arith, e)) refl (tt, (tt, tt))

-- A record that does not fit: the file before it becomes the first backup.
write_record_rotates :
    (write_record codec 0 "out" item busy).disk "out" 1 ≡ some (b'x' ∷ b'\n' ∷ [])
unfolding write_record encode encode_as append_file rotate_family rotate_file set_family
    String-discrete ℕ_discrete
write_record_rotates = refl

-- Without a task both callers are served at once.
two_configures :
    (operate_all codec
      (runs 0 ∷ runs 0 ∷ [])
      (configure 2 small (configure 1 small (init small (λ path. files))))).done
    ≡ 2 ∷ 1 ∷ []
unfolding operate configure init run
two_configures = refl
