-- ===== src/Timestamp.antt =====
-- src/tcp_sim/engine/timestamp.py: the rewriting of the timestamps of rows. What the datetime module makes of a
-- stripped text, the text that it makes of an instant, and an offset behind its passage through the seconds of a
-- float, are arguments. An instant is a number of microseconds since the beginning of the year 1, in UTC.
pub mod Drift
mod Tests
use tcp_server_simulator.Prelude.{
  Bytes, Option, Result, if◌then◌else◌, leb, none, ok, overflow_error, raise, some, value_error, ℕ,
  ◌&&◌, ◌+◌, ◌-◌,
}

pub data Format : Type 0 where
  iso8601 epoch_millis epoch_seconds_int epoch_seconds_fractional unsupported : Format

-- `datetime.fromisoformat` and `datetime.fromtimestamp`, the texts of an instant, and the microseconds of
-- `timedelta(seconds=offset.total_seconds())` for an offset of so many, or for its negation, by sign.
pub record Datetime : Type 0 where
  pub parse_iso8601 : Bytes → Result ℕ
  pub parse_millis : Bytes → Result ℕ
  pub parse_seconds : Bytes → Result ℕ
  pub parse_fractional : Bytes → Result ℕ
  pub format_iso8601 : ℕ → Bytes
  pub format_millis : ℕ → Bytes
  pub format_seconds : ℕ → Bytes
  pub format_fractional : ℕ → Bytes
  pub through_float : ℕ → ℕ

unfoldable pub parse_timestamp : Datetime → Format → Bytes → Result ℕ
parse_timestamp d iso8601 value = d.parse_iso8601 value
parse_timestamp d epoch_millis value = d.parse_millis value
parse_timestamp d epoch_seconds_int value = d.parse_seconds value
parse_timestamp d epoch_seconds_fractional value = d.parse_fractional value
parse_timestamp d unsupported value = raise value_error

unfoldable pub format_timestamp : Datetime → Format → ℕ → Result Bytes
format_timestamp d iso8601 instant = ok (d.format_iso8601 instant)
format_timestamp d epoch_millis instant = ok (d.format_millis instant)
format_timestamp d epoch_seconds_int instant = ok (d.format_seconds instant)
format_timestamp d epoch_seconds_fractional instant = ok (d.format_fractional instant)
format_timestamp d unsupported instant = raise value_error

pub record TimestampRewriter : Type 0 where
  pub timestamp_format : Format
  pub base_original : Option ℕ
  pub base_monotonic : Option ℕ

unfoldable pub init : Format → TimestampRewriter
init timestamp_format = record {
  timestamp_format = timestamp_format;
  base_original = none;
  base_monotonic = none;
}

-- The last microsecond of the year 9999.
abbrev pub last_instant : ℕ
last_instant = 315537897599999999

-- `current_utc + timedelta_seconds(offset_seconds)`
unfoldable pub shifted : Datetime → ℕ → ℕ → ℕ → Result ℕ
shifted d current_utc parsed base_original =
    let later = current_utc + d.through_float (parsed - base_original) in
    let earlier = d.through_float (base_original - parsed) in
    if leb base_original parsed
    then if leb later last_instant then ok later else raise overflow_error
    else if leb earlier current_utc
    then ok (current_utc - earlier)
    else raise overflow_error

-- The base, which the first value sets.
abbrev pub with_base : Option ℕ → ℕ → ℕ → TimestampRewriter → TimestampRewriter
with_base none parsed monotonic r = record r {
  base_original = some parsed;
  base_monotonic = some monotonic;
}
with_base (some base) parsed monotonic r = r

abbrev pub base_of : Option ℕ → ℕ → ℕ
base_of none parsed = parsed
base_of (some base) parsed = base

abbrev pub formatted : Datetime → Format → Result ℕ → Result Bytes
unfolding format_timestamp
formatted d f (ok instant) = format_timestamp d f instant
formatted d f (raise err) = raise err

unfoldable pub rewrite_parsed :
    Datetime → ℕ → ℕ → Result ℕ → TimestampRewriter → TimestampRewriter × Result Bytes
unfolding shifted formatted
rewrite_parsed d monotonic current_utc (raise err) r = (r, raise err)
rewrite_parsed d monotonic current_utc (ok parsed) r = (
  with_base r.base_original parsed monotonic r,
  formatted d r.timestamp_format (shifted d current_utc parsed (base_of r.base_original parsed)),
)

-- `rewrite`, with the two clocks.
unfoldable pub rewrite :
    Datetime → ℕ → ℕ → Bytes → TimestampRewriter → TimestampRewriter × Result Bytes
unfolding rewrite_parsed parse_timestamp
rewrite d monotonic current_utc raw_value r =
    rewrite_parsed d monotonic current_utc (parse_timestamp d r.timestamp_format raw_value) r

unfoldable pub rewrite_timestamp : Datetime → ℕ → ℕ → Bytes → Format → Result Bytes
unfolding rewrite init
rewrite_timestamp d monotonic current_utc raw_value timestamp_format =
    (rewrite d monotonic current_utc raw_value (init timestamp_format)).1
