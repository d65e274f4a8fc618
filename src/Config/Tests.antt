-- ===== src/Config/Tests.antt =====
-- A configuration of version 0, and a file.
use text.Mathlib.TextEquality.{eq_iff}
use text.Mathlib.Text.{◌==◌ as str_eq}
use tcp_server_simulator.Prelude.{
  Error, ite, String, String-discrete, [], false, none, ok, refl, some, true, ◌∷◌, ◌≡◌, ◌≢◌,
}
use tcp_server_simulator.Config.Dictionaries.{atom, from_items, integer, null, object, pos}
use tcp_server_simulator.Config.Defaults.{Config}
use tcp_server_simulator.Config.Normal.{IsComplete}
use tcp_server_simulator.Config.Migrations.{IsPlain, migrate_config-keeps}
use tcp_server_simulator.Config.Files.{load-save, load_config_file-IsComplete}
use tcp_server_simulator.Config.{
  Parsed, parsed, not_json, fails, ConfigLoadResult, Migrated, holds, load_config_file,
  migrate_config, migrate_v0_to_v1, migrate_v1_to_v2, migrated_v0_to_v1, migrated_v1_to_v2,
  normalize_config, save_config_file,
}

abbrev old_config : Config
old_config = from_items (
    ("rate_fps", atom (integer (pos 25)))
    ∷ ("port", atom (integer (pos 7000)))
    ∷ ("receiver", object (from_items (("sink", atom null) ∷ [])))
    ∷ [])

-- The text of one file, and what json makes of it, and of any other text.
abbrev saved_text : String
saved_text = "the saved file"

abbrev dumps : Config → String
dumps config = saved_text

unfoldable reads_back : String → Parsed
unfolding String-discrete
reads_back t =
    ite (String-discrete t saved_text) (parsed (object (normalize_config old_config))) not_json

load-save_example :
    load_config_file reads_back (save_config_file dumps old_config)
    ≡ ok (record {
      config = normalize_config old_config;
      warnings = [];
      used_defaults = false;
      migrated = false;
      source_version = some (pos 2);
    })
unfolding reads_back
load-save_example = load-save reads_back dumps old_config refl

never_fails : (err : Error) → reads_back saved_text ≢ fails err
unfolding reads_back
never_fails err e = cc

load_config_file-IsComplete_example :
    (r : ConfigLoadResult) × (load_config_file reads_back (holds saved_text) ≡ ok r)
    × IsComplete r.config
load_config_file-IsComplete_example =
    load_config_file-IsComplete reads_back (holds saved_text) never_fails

abbrev migrated_config : Migrated
migrated_config = record {
  config = normalize_config (migrate_v1_to_v2 (migrate_v0_to_v1 old_config));
  warnings = migrated_v0_to_v1 ∷ migrated_v1_to_v2 ∷ [];
  migrated = true;
  source_version = pos 0;
}

old_config-migrated : migrate_config old_config ≡ ok migrated_config
unfolding migrate_config from_items String-discrete
old_config-migrated = refl

differs : (s t : String) → str_eq s t ≡ false → s ≢ t
differs s t h e = let p = (eq_iff s t).1 e in cc

port-IsPlain : IsPlain "port"
port-IsPlain = (differs _ _ refl, differs _ _ refl, differs _ _ refl, differs _ _ refl)

migrate_config-keeps_example :
    normalize_config (migrate_v1_to_v2 (migrate_v0_to_v1 old_config)) "port"
    ≡ some (atom (integer (pos 7000)))
migrate_config-keeps_example =
    migrate_config-keeps old_config "port" (atom (integer (pos 7000))) old_config-migrated
      port-IsPlain (unfold from_items in unfold String-discrete in refl)

-- The rate has its new name, and no longer its old one.
rate-renamed :
    let d = migrate_v0_to_v1 old_config in
    (d "rate_features_per_second" ≡ some (atom (integer (pos 25)))) × (d "rate_fps" ≡ none)
unfolding migrate_v0_to_v1 from_items String-discrete
rate-renamed = (refl, refl)
