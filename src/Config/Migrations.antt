-- ===== src/Config/Migrations.antt =====
-- What the migrations keep of an older configuration.
use tcp_server_simulator.Prelude.{
  Result, String, ap, arith, ok, raise, some, subst, suc, zero, ◌>>=◌, ◌∙◌, ◌≡◌, ◌≢◌,
}
use tcp_server_simulator.Config.Dictionaries.{
  as_dict, atom, integer, negsuc, object, or_else, pop, pos, set, set-other, set_default, string,
  update, ℤ,
}
use tcp_server_simulator.Config.Defaults.{
  Config, Value, current_schema_version, default_receiver_config, load_default_config,
}
use tcp_server_simulator.Config.{
  Migrated, as_int, migrate_config, migrate_from, migrate_v0_to_v1, migrate_v1_to_v2,
  normalize_config, normalize_receiver, rename,
}

-- A key whose entry the migrations and the normalization leave alone.
abbrev pub IsPlain : String → Type 0
IsPlain k =
    (k ≢ "schema_version")
    × (k ≢ "receiver")
    × (k ≢ "rate_fps")
    × (k ≢ "max_reconnect_backoff_seconds")

rename-keeps :
    (old new : String) (d : Config) (k : String) {v : Value}
    → k ≢ old
    → d k ≡ some v
    → rename old new d k ≡ some v
unfolding rename set pop
rename-keeps old new d k ne h = ground arith

set_default-keeps :
    (j : String) (w : Value) (d : Config) (k : String) {v : Value}
    → d k ≡ some v
    → set_default j w d k ≡ some v
unfolding set_default set
set_default-keeps j w d k h = ground arith

set-keeps :
    (j : String) (w : Value) (d : Config) (k : String) {v : Value}
    → k ≢ j
    → d k ≡ some v
    → set j w d k ≡ some v
set-keeps j w d k ne h = set-other j k w d ne ∙ h

v0_to_v1-keeps :
    (raw : Config) (k : String) {v : Value}
    → IsPlain k
    → raw k ≡ some v
    → migrate_v0_to_v1 raw k ≡ some v
unfolding migrate_v0_to_v1
v0_to_v1-keeps raw k p h =
    let first = rename "rate_fps" "rate_features_per_second" raw in
    let second = rename "max_reconnect_backoff_seconds" "reconnect_max_backoff_seconds" first in
    set-keeps "schema_version" (atom (integer (pos 1))) second k p.0 (
      rename-keeps "max_reconnect_backoff_seconds" "reconnect_max_backoff_seconds" first k p.3
        (rename-keeps "rate_fps" "rate_features_per_second" raw k p.2 h))

v1_to_v2-keeps :
    (raw : Config) (k : String) {v : Value}
    → IsPlain k
    → raw k ≡ some v
    → migrate_v1_to_v2 raw k ≡ some v
unfolding migrate_v1_to_v2
v1_to_v2-keeps raw k p h =
    let first = set_default "role" (atom (string "sender")) raw in
    let second = set_default "receiver" (object default_receiver_config) first in
    set-keeps "schema_version" (atom (integer (pos 2))) second k p.0 (
      set_default-keeps "receiver" (object default_receiver_config) first k
        (set_default-keeps "role" (atom (string "sender")) raw k h))

normalize-keeps :
    (raw : Config) (k : String) {v : Value}
    → IsPlain k
    → raw k ≡ some v
    → normalize_config raw k ≡ some v
unfolding normalize_config update
normalize-keeps raw k p h =
    let version = atom (integer (pos current_schema_version)) in
    let merged = set "schema_version" version (update load_default_config raw) in
    set-keeps "receiver" (object (normalize_receiver (as_dict (merged "receiver")))) merged k p.1 (
      set-keeps "schema_version" version (update load_default_config raw) k p.0
        (ap (λ o. or_else o (load_default_config k)) h))

-- A migration, if the configuration has a version that has one: `Keeps` is what it keeps.
abbrev Keeps : String → Value → Result Migrated → Type 0
Keeps k v (ok m) = m.config k ≡ some v
Keeps k v (raise err) = Unit

migrate_from-Keeps :
    (version : ℤ) (raw : Config) (k : String) (v : Value)
    → IsPlain k
    → raw k ≡ some v
    → Keeps k v (migrate_from version raw)
unfolding migrate_from
migrate_from-Keeps (pos zero) raw k v p h =
    let first = migrate_v0_to_v1 raw in
    normalize-keeps (migrate_v1_to_v2 first) k p
      (v1_to_v2-keeps first k p (v0_to_v1-keeps raw k p h))
migrate_from-Keeps (pos (suc zero)) raw k v p h =
    normalize-keeps (migrate_v1_to_v2 raw) k p (v1_to_v2-keeps raw k p h)
migrate_from-Keeps (pos (suc (suc zero))) raw k v p h = normalize-keeps raw k p h
migrate_from-Keeps (pos (suc (suc (suc n)))) raw k v p h = tt
migrate_from-Keeps (negsuc n) raw k v p h = tt

versioned-Keeps :
    (version : Result ℤ) (raw : Config) (k : String) (v : Value)
    → IsPlain k
    → raw k ≡ some v
    → Keeps k v (version >>= λ n. migrate_from n raw)
versioned-Keeps (ok version) raw k v p h = migrate_from-Keeps version raw k v p h
versioned-Keeps (raise err) raw k v p h = tt

-- A configuration of any version that is accepted keeps each of its entries through the migrations and
-- the normalization, but those of the version, of the receiver, and of the two keys of version 0 that
-- have new names.
pub migrate_config-keeps :
    (raw : Config) (k : String) (v : Value) {m : Migrated}
    → migrate_config raw ≡ ok m
    → IsPlain k
    → raw k ≡ some v
    → m.config k ≡ some v
unfolding migrate_config
migrate_config-keeps raw k v e p h =
    subst (Keeps k v) e (versioned-Keeps (as_int (raw "schema_version")) raw k v p h)
