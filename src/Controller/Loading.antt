-- ===== src/Controller/Loading.antt =====
-- `_load_records`, its filters, and the velocity preset, of src/tcp_sim/gui/controller.py.
use tcp_server_simulator.Prelude.{
  Bool, Bytes, Error, List, Option, Result, [], false, if◌then◌else◌, map, none, not, ok, raise,
  some, true, value_error, ℕ, ◌==◌, ◌>>=◌, ◌∷◌,
}
use tcp_server_simulator.FileReader.{
  Row, RowRecord, iter_valid_raw_rows, take_header, init as reader_init,
}

-- The path of the file is not here: what it leads to is the source.
pub record StreamSettings : Type 0 where
  pub has_header : Bool
  pub send_header : Bool
  pub rate : ℕ
  pub loop : Bool
  pub strip_lf : Bool
  pub strip_cr : Bool
  pub velocity_compatibility_mode : Bool

-- What the path leads to: it is blank, there is no such file, it cannot be read, or it has rows.
pub data Source : Type 0 where
  blank_path not_found : Source
  unreadable : Error → Source
  has_rows : List Row → Source

-- `payload.replace(byte, b"")`
unfoldable pub without_byte : ℕ → Bytes → Bytes
without_byte b [] = []
without_byte b (x ∷ xs) = let rest = without_byte b xs in if x == b then rest else x ∷ rest

-- `_apply_payload_filters`
unfoldable pub apply_payload_filters : StreamSettings → Bytes → Bytes
unfolding without_byte
apply_payload_filters stream payload =
    let filtered = if stream.strip_cr then without_byte b'\r' payload else payload in
    if stream.strip_lf then without_byte b'\n' filtered else filtered

-- `reader.header_raw`, behind the iteration.
unfoldable pub header_raw_of : Bool → List Row → Option Bytes
unfolding reader_init
header_raw_of has_header [] = none
header_raw_of has_header (row ∷ rows) =
    if has_header then (take_header true row (reader_init has_header)).header_raw else none

abbrev pub text_or_empty : Option Bytes → Bytes
text_or_empty none = []
text_or_empty (some raw_text) = raw_text

unfoldable pub payloads_of : StreamSettings → List RowRecord → List Bytes
unfolding apply_payload_filters
payloads_of stream =
    map (λ (row : RowRecord). apply_payload_filters stream (text_or_empty row.raw_text))

abbrev pub filtered_header : StreamSettings → Option Bytes → Option Bytes
unfolding apply_payload_filters
filtered_header stream none = none
filtered_header stream (some raw) =
    if stream.send_header then some (apply_payload_filters stream raw) else none

-- `_load_records`
unfoldable pub load_records : StreamSettings → Source → Result (List Bytes × Option Bytes)
unfolding payloads_of filtered_header header_raw_of iter_valid_raw_rows reader_init
load_records stream blank_path = raise value_error
load_records stream not_found = raise value_error
load_records stream (unreadable err) = raise err
load_records stream (has_rows rows) = do
  records ← iter_valid_raw_rows none none none rows (reader_init stream.has_header)
  ok (payloads_of stream records, filtered_header stream (header_raw_of stream.has_header rows))

-- The settings behind the preset, what it changed, and whether it is on.
pub record Velocity : Type 0 where
  pub adjusted : StreamSettings
  pub dropped_header : Bool
  pub kept_lf : Bool
  pub noted : Bool

-- `_apply_velocity_compatibility_preset`
unfoldable pub velocity_preset : StreamSettings → Velocity
velocity_preset stream =
    if not stream.velocity_compatibility_mode
    then record { adjusted = stream; dropped_header = false; kept_lf = false; noted = false }
    else record {
      adjusted = record stream { send_header = false; strip_lf = false };
      dropped_header = stream.send_header;
      kept_lf = stream.strip_lf;
      noted = true;
    }
