-- ===== src/Config/Normal.antt =====
-- Normalized configurations: an entry for each default, and nothing more to normalize.
use text.Mathlib.TextEquality.{eq_iff}
use mathlib.Core.Path.{fun_ext}
use tcp_server_simulator.Prelude.{
  Bool, Option, String, String-discrete, ap, arith, false, lookup, none, refl, some, sym, true, ◌∙◌,
  ◌≡◌, ◌≢◌,
}
use tcp_server_simulator.Config.Dictionaries.{
  Atom, Dict, as_dict, atom, integer, object, or_else, or_else-again, pos, set, set-other, set_self,
  set-update-set, update, update-again,
}
use tcp_server_simulator.Config.Defaults.{
  Config, Item, Value, current_schema_version, default_config, default_receiver_config,
  default_sink, load_default_config,
}
use tcp_server_simulator.Config.{normalize_config, normalize_receiver, normalize_sink}

receiver-ne : ◌≢◌ {A = String} "receiver" "schema_version"
receiver-ne e = let p = (eq_iff "receiver" "schema_version").1 e in cc

update-found :
    {V : Type 0} (d e : Dict V) (k : String) {v : V} → e k ≡ some v → update d e k ≡ some v
unfolding update
update-found d e k h = ap (λ o. or_else o (d k)) h

set-set-update :
    {V : Type 0} (k k' : String) (v v' : V) (d e : Dict V)
    → set k v (set k' v' (update d (set k v (set k' v' (update d e)))))
      ≡ set k v (set k' v' (update d e))
unfolding set update
set-set-update k k' v v' d e = fun_ext λ j. ground (arith, or_else-again (e j) (d j))

normalize_receiver-sink :
    (r : Dict Item) → normalize_receiver r "sink" ≡ some (object (normalize_sink r))
unfolding normalize_receiver
normalize_receiver-sink r =
    set_self "sink" (object (normalize_sink r)) (update default_receiver_config r)

normalize_sink-again : (r : Dict Item) → normalize_sink (normalize_receiver r) ≡ normalize_sink r
unfolding normalize_sink
normalize_sink-again r =
    ap (λ o. update default_sink (as_dict o)) (normalize_receiver-sink r)
    ∙ update-again default_sink (as_dict (r "sink"))

normalize_receiver-again :
    (r : Dict Item) → normalize_receiver (normalize_receiver r) ≡ normalize_receiver r
unfolding normalize_receiver
normalize_receiver-again r =
    ap (λ s. set "sink" (object s) (update default_receiver_config (normalize_receiver r)))
      (normalize_sink-again r)
    ∙ set-update-set "sink" (object (normalize_sink r)) default_receiver_config r

abbrev pub version_2 : Value
version_2 = atom (integer (pos current_schema_version))

-- The configuration with its defaults and its version, and the receiver's settings that it holds.
abbrev pub merged : Config → Config
merged raw = set "schema_version" version_2 (update load_default_config raw)

abbrev pub receiver_of : Config → Dict Item
receiver_of raw = normalize_receiver (as_dict (merged raw "receiver"))

normalize_config-receiver :
    (raw : Config) → normalize_config raw "receiver" ≡ some (object (receiver_of raw))
unfolding normalize_config
normalize_config-receiver raw = set_self "receiver" (object (receiver_of raw)) (merged raw)

merged-receiver :
    (raw : Config) → merged (normalize_config raw) "receiver" ≡ some (object (receiver_of raw))
merged-receiver raw =
    set-other "schema_version" "receiver" version_2
      (update load_default_config (normalize_config raw)) receiver-ne
    ∙ update-found load_default_config (normalize_config raw) "receiver"
        (normalize_config-receiver raw)

pub normalize_config-again :
    (raw : Config) → normalize_config (normalize_config raw) ≡ normalize_config raw
unfolding normalize_config
normalize_config-again raw =
    ap
      (λ r.
        set "receiver" (object (normalize_receiver (as_dict r))) (merged (normalize_config raw)))
      (merged-receiver raw)
    ∙ ap (λ r. set "receiver" (object r) (merged (normalize_config raw)))
        (normalize_receiver-again (as_dict (merged raw "receiver")))
    ∙ set-set-update "receiver" "schema_version" (object (receiver_of raw)) version_2
        load_default_config raw

pub normalize_config-version :
    (raw : Config) → normalize_config raw "schema_version" ≡ some version_2
unfolding normalize_config
normalize_config-version raw =
    set-other "receiver" "schema_version" (object (receiver_of raw)) (merged raw)
      (λ e. receiver-ne (sym e))
    ∙ set_self "schema_version" version_2 (update load_default_config raw)

-- Whether a default is missing.
abbrev pub lacks {ℓ} : {V : Type ℓ} → Option V → Option V → Bool
lacks (some v) none = true
lacks _ _ = false

-- No default is missing, in the configuration, in the receiver's settings, and in those of the sink, and
-- the version is the current one.
pub record IsComplete (config : Config) : Type 0 where
  pub version_eq : config "schema_version" ≡ some version_2
  pub none_missing : (k : String) → lacks (default_config k) (config k) ≡ false
  pub receiver : Dict Item
  pub receiver_eq : config "receiver" ≡ some (object receiver)
  pub none_missing_in_receiver :
      (k : String) → lacks (default_receiver_config k) (receiver k) ≡ false
  pub sink : Dict Atom
  pub sink_eq : receiver "sink" ≡ some (object sink)
  pub none_missing_in_sink : (k : String) → lacks (default_sink k) (sink k) ≡ false

lacks_self : {V : Type 0} (o : Option V) → lacks o o ≡ false
lacks_self none = refl
lacks_self (some v) = refl

lacks-or_else : {V : Type 0} (o e : Option V) → lacks o (or_else e o) ≡ false
lacks-or_else none none = refl
lacks-or_else none (some w) = refl
lacks-or_else (some v) none = refl
lacks-or_else (some v) (some w) = refl

lacks-set :
    {V : Type 0} (j : String) (v : V) (d e : Dict V) (k : String)
    → lacks (d k) (e k) ≡ false
    → lacks (d k) (set j v e k) ≡ false
unfolding set
lacks-set j v d e k h = ground arith

pub normalize_config-IsComplete : (raw : Config) → IsComplete (normalize_config raw)
unfolding normalize_config update
normalize_config-IsComplete raw =
    let r = as_dict (merged raw "receiver") in
    record {
      version_eq = normalize_config-version raw;
      none_missing = λ k.
          lacks-set "receiver" (object (receiver_of raw)) load_default_config (merged raw) k (
            lacks-set "schema_version" version_2 load_default_config
              (update load_default_config raw) k (lacks-or_else (load_default_config k) (raw k)));
      receiver = receiver_of raw;
      receiver_eq = normalize_config-receiver raw;
      none_missing_in_receiver = λ k.
          lacks-set "sink" (object (normalize_sink r)) default_receiver_config
            (update default_receiver_config r) k (lacks-or_else (default_receiver_config k) (r k));
      sink = normalize_sink r;
      sink_eq = normalize_receiver-sink r;
      none_missing_in_sink = λ k. lacks-or_else (default_sink k) (as_dict (r "sink") k);
    }

pub default_config-IsComplete : IsComplete load_default_config
unfolding load_default_config default_receiver_config String-discrete lookup
default_config-IsComplete = record {
  version_eq = refl;
  none_missing = λ k. lacks_self (default_config k);
  receiver = default_receiver_config;
  receiver_eq = refl;
  none_missing_in_receiver = λ k. lacks_self (default_receiver_config k);
  sink = default_sink;
  sink_eq = refl;
  none_missing_in_sink = λ k. lacks_self (default_sink k);
}
