-- ===== src/Config/Files.antt =====
-- The file of the configuration: what is saved is loaded again, and what is loaded is complete.
use tcp_server_simulator.Prelude.{
  Error, Result, [], ap, false, ok, raise, refl, some, suc, zero, ◌>>=◌, ◌∙◌, ◌≡◌, ◌≢◌,
}
use tcp_server_simulator.Config.Dictionaries.{atom, negsuc, object, pos, ℤ}
use tcp_server_simulator.Config.Defaults.{Config}
use tcp_server_simulator.Config.Normal.{
  IsComplete, default_config-IsComplete, normalize_config-IsComplete, normalize_config-again,
  normalize_config-version,
}
use tcp_server_simulator.Config.{
  ConfigLoadResult, File, Parsed, as_int, defaults_for, fails, file_not_found, holds, invalid_json,
  load_config_file, load_migrated, load_payload, migrate_config, migrate_from, migrate_v0_to_v1,
  migrate_v1_to_v2, missing, normalize_config, not_an_object, not_json, parsed, save_config_file,
  undecodable, unreadable,
}

-- A configuration that is saved and loaded again is the normalized one, with no warning and no migration,
-- if json reads back the normalized dictionary that it has written.
pub load-save :
    {Text : Type 0} (json_loads : Text → Parsed) (json_dumps : Config → Text) (config : Config)
    → json_loads (json_dumps (normalize_config config)) ≡ parsed (object (normalize_config config))
    → load_config_file json_loads (save_config_file json_dumps config)
      ≡ ok (record {
        config = normalize_config config;
        warnings = [];
        used_defaults = false;
        migrated = false;
        source_version = some (pos 2);
      })
unfolding load_config_file save_config_file load_payload migrate_config as_int migrate_from
    load_migrated
load-save json_loads json_dumps config json =
    let saved = normalize_config config in
    ap load_payload json
    ∙ ap (λ version. ok (load_migrated (version >>= λ n. migrate_from n saved)))
        (ap as_int (normalize_config-version config))
    ∙ ap
        (λ c. ok (record {
          config = c;
          warnings = [];
          used_defaults = false;
          migrated = false;
          source_version = some (pos 2);
        }))
        (normalize_config-again config)

migrate_from-IsComplete :
    (version : ℤ) (raw : Config) → IsComplete (load_migrated (migrate_from version raw)).config
unfolding migrate_from load_migrated defaults_for
migrate_from-IsComplete (pos zero) raw =
    normalize_config-IsComplete (migrate_v1_to_v2 (migrate_v0_to_v1 raw))
migrate_from-IsComplete (pos (suc zero)) raw = normalize_config-IsComplete (migrate_v1_to_v2 raw)
migrate_from-IsComplete (pos (suc (suc zero))) raw = normalize_config-IsComplete raw
migrate_from-IsComplete (pos (suc (suc (suc n)))) raw = default_config-IsComplete
migrate_from-IsComplete (negsuc n) raw = default_config-IsComplete

versioned-IsComplete :
    (version : Result ℤ) (raw : Config)
    → IsComplete (load_migrated (version >>= λ v. migrate_from v raw)).config
unfolding load_migrated defaults_for
versioned-IsComplete (ok version) raw = migrate_from-IsComplete version raw
versioned-IsComplete (raise err) raw = default_config-IsComplete

-- The file can be read, if there is one, and json finds a value in it, or that it is no JSON.
abbrev pub IsReadable : {Text : Type 0} → (Text → Parsed) → File Text → Type 0
IsReadable json_loads missing = Unit
IsReadable json_loads unreadable = ⊥
IsReadable json_loads undecodable = ⊥
IsReadable json_loads (holds content) = (err : Error) → json_loads content ≢ fails err

load_payload-IsComplete :
    (payload : Parsed)
    → ((err : Error) → payload ≢ fails err)
    → (r : ConfigLoadResult) × (load_payload payload ≡ ok r) × IsComplete r.config
unfolding load_payload defaults_for migrate_config
load_payload-IsComplete not_json h = (defaults_for invalid_json, refl, default_config-IsComplete)
load_payload-IsComplete (fails err) h = absurd (h err refl)
load_payload-IsComplete (parsed (atom a)) h =
    (defaults_for not_an_object, refl, default_config-IsComplete)
load_payload-IsComplete (parsed (object raw)) h = (
  load_migrated (migrate_config raw),
  refl,
  versioned-IsComplete (as_int (raw "schema_version")) raw,
)

-- When there is no file, or it can be read and json raises nothing but JSONDecodeError, loading raises
-- nothing, and gives a configuration in which no default is missing, in the receiver's settings and in the
-- sink's neither, under the current version, whatever the file holds.
pub load_config_file-IsComplete :
    {Text : Type 0} (json_loads : Text → Parsed) (file : File Text)
    → IsReadable json_loads file
    → (r : ConfigLoadResult) × (load_config_file json_loads file ≡ ok r) × IsComplete r.config
unfolding load_config_file defaults_for
load_config_file-IsComplete json_loads missing h =
    (defaults_for file_not_found, refl, default_config-IsComplete)
load_config_file-IsComplete json_loads unreadable h = absurd h
load_config_file-IsComplete json_loads undecodable h = absurd h
load_config_file-IsComplete json_loads (holds content) h =
    load_payload-IsComplete (json_loads content) h
