-- ===== src/Config.antt =====
-- src/tcp_sim/config/config.py: the schema of the configuration, its migrations, and its file. What json
-- reads and writes, and the type of a file's are arguments.
pub mod Dictionaries
pub mod Defaults
pub mod Normal
pub mod Migrations
pub mod Files
mod Tests
use tcp_server_simulator.Prelude.{
  Error, os_error, Bool, List, Option, Result, String, [], config_error, false, none, ok, raise,
  some, suc, true, value_error, zero, ◌>>=◌, ◌>>◌, ◌∷◌,
}
use tcp_server_simulator.Config.Dictionaries.{
  Atom, Dict, Node, as_dict, atom, boolean, integer, negsuc, object, pop, pos, set, set_default,
  string, update, ℤ,
}
use tcp_server_simulator.Config.Defaults.{
  Config, Item, Value, current_schema_version, default_receiver_config, default_sink,
  load_default_config,
}

-- `_normalize_config`
unfoldable pub normalize_sink : Dict Item → Dict Atom
unfolding update default_sink
normalize_sink receiver = update default_sink (as_dict (receiver "sink"))

unfoldable pub normalize_receiver : Dict Item → Dict Item
unfolding update set normalize_sink default_receiver_config
normalize_receiver receiver =
    set "sink" (object (normalize_sink receiver)) (update default_receiver_config receiver)

unfoldable pub normalize_config : Config → Config
unfolding update set normalize_receiver load_default_config
normalize_config raw =
    let merged =
      set "schema_version" (atom (integer (pos current_schema_version)))
        (update load_default_config raw) in
    set "receiver" (object (normalize_receiver (as_dict (merged "receiver")))) merged

-- `d[new] = d.pop(old)`, if there is an old key and no new one.
unfoldable pub rename : String → String → Config → Config
unfolding set pop
rename old new d = elim (d old) [
  | none ↦ d
  | some v ↦ elim (d new) [ none ↦ set new v (pop old d) | some w ↦ d ]
]

-- `_migrate_v0_to_v1`
unfoldable pub migrate_v0_to_v1 : Config → Config
unfolding rename set
migrate_v0_to_v1 raw = set "schema_version" (atom (integer (pos 1))) (
    rename "max_reconnect_backoff_seconds" "reconnect_max_backoff_seconds"
      (rename "rate_fps" "rate_features_per_second" raw))

-- `_migrate_v1_to_v2`
unfoldable pub migrate_v1_to_v2 : Config → Config
unfolding set set_default default_receiver_config
migrate_v1_to_v2 raw = set "schema_version" (atom (integer (pos 2))) (
    set_default "receiver" (object default_receiver_config)
      (set_default "role" (atom (string "sender")) raw))

pub data Warning : Type 0 where
  migrated_v0_to_v1 migrated_v1_to_v2 file_not_found invalid_json not_an_object falling_back :
      Warning

-- The integer of a value, where Python's True and False are integers too.
unfoldable pub as_int : Option Value → Result ℤ
as_int none = ok (pos 0)
as_int (some (atom (integer n))) = ok n
as_int (some (atom (boolean true))) = ok (pos 1)
as_int (some (atom (boolean false))) = ok (pos 0)
as_int (some _) = raise config_error

-- What `migrate_config` returns.
pub record Migrated : Type 0 where
  pub config : Config
  pub warnings : List Warning
  pub migrated : Bool
  pub source_version : ℤ

-- The part of `migrate_config` behind its test of the type, by the version.
unfoldable pub migrate_from : ℤ → Config → Result Migrated
unfolding normalize_config migrate_v0_to_v1 migrate_v1_to_v2
migrate_from (pos zero) raw = ok (record {
  config = normalize_config (migrate_v1_to_v2 (migrate_v0_to_v1 raw));
  warnings = migrated_v0_to_v1 ∷ migrated_v1_to_v2 ∷ [];
  migrated = true;
  source_version = pos 0;
})
migrate_from (pos (suc zero)) raw = ok (record {
  config = normalize_config (migrate_v1_to_v2 raw);
  warnings = migrated_v1_to_v2 ∷ [];
  migrated = true;
  source_version = pos 1;
})
migrate_from (pos (suc (suc zero))) raw = ok (record {
  config = normalize_config raw;
  warnings = [];
  migrated = false;
  source_version = pos 2;
})
migrate_from (pos (suc (suc (suc n)))) raw = raise config_error
migrate_from (negsuc n) raw = raise config_error

-- `migrate_config`
unfoldable pub migrate_config : Config → Result Migrated
unfolding as_int migrate_from
migrate_config raw = do
  version_value ← as_int (raw "schema_version")
  migrate_from version_value raw

pub record ConfigLoadResult : Type 0 where
  pub config : Config
  pub warnings : List Warning
  pub used_defaults : Bool
  pub migrated : Bool
  pub source_version : Option ℤ

-- The default configuration, under a warning.
unfoldable pub defaults_for : Warning → ConfigLoadResult
unfolding load_default_config
defaults_for warning = record {
  config = load_default_config;
  warnings = warning ∷ [];
  used_defaults = true;
  migrated = false;
  source_version = none;
}

-- A file: it may be missing, it may not be read, as a directory or for want of permission, and what it
-- holds may be no UTF-8.
pub data File (Text : Type 0) : Type 0 where
  missing unreadable undecodable : File Text
  holds : Text → File Text

-- What `json.loads` makes of a text: a value; JSONDecodeError; or another exception, as for a text that is
-- nested too deeply.
pub data Parsed : Type 0 where
  parsed : Node Value → Parsed
  not_json : Parsed
  fails : Error → Parsed

unfoldable pub load_migrated : Result Migrated → ConfigLoadResult
unfolding defaults_for
load_migrated (raise err) = defaults_for falling_back
load_migrated (ok m) = record {
  config = m.config;
  warnings = m.warnings;
  used_defaults = false;
  migrated = m.migrated;
  source_version = some m.source_version;
}

unfoldable pub load_payload : Parsed → Result ConfigLoadResult
unfolding defaults_for load_migrated migrate_config
load_payload not_json = ok (defaults_for invalid_json)
load_payload (fails err) = raise err
load_payload (parsed (atom a)) = ok (defaults_for not_an_object)
load_payload (parsed (object raw)) = ok (load_migrated (migrate_config raw))

-- `load_config_file`, which catches no OSError of the reading, and no UnicodeDecodeError, a ValueError.
unfoldable pub load_config_file :
    {Text : Type 0} → (Text → Parsed) → File Text → Result ConfigLoadResult
unfolding defaults_for load_payload
load_config_file json_loads missing = ok (defaults_for file_not_found)
load_config_file json_loads unreadable = raise os_error
load_config_file json_loads undecodable = raise value_error
load_config_file json_loads (holds content) = load_payload (json_loads content)

-- `save_config_file`
unfoldable pub save_config_file : {Text : Type 0} → (Config → Text) → Config → File Text
unfolding normalize_config
save_config_file json_dumps config = holds (json_dumps (normalize_config config))
