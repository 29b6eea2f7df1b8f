-- ===== src/ConfigFile.antt =====
-- Load, Save, Reload, SaveDefaultLocalConfig, UpdateValue and UpdateHostname of
-- packages/config/config.go: the configuration in memory and its file. A file is one that the daemon
-- wrote, so it has every key.
pub mod Saving
use pulseha.Base.{
  String, List, [], ◌∷◌, Bool, true, false, Option, none, some, if◌then◌else◌, is_some,
}
use pulseha.Exec.{Exec, pure, panic, exit, gets, modify, skip, deref, ◌>>=◌, ◌>>◌}
use pulseha.Base.Int.{ℤ, pos}
use pulseha.GoMap.{GoMap, get, put, merge, lookup}
use pulseha.Config.{Config, Local, Node, Error, validate, default_config}
use pulseha.JsonHelper.{
  Field, text, flag, number, Outcome, updated, invalid_value, invalid_key, set_struct_field_by_tag,
}
use pulseha.World.{World, Env, Daemon, Stored, absent, garbled, holds, file_written, log_event}

-- json.Unmarshal into a map that may have entries.
abbrev pub decode_map {ℓ} : {V : Type ℓ} → GoMap V → GoMap V → GoMap V
decode_map old new =
    if new.made then record { made = true; entries = merge old.entries new.entries } else new

-- json.Unmarshal of a whole file into the configuration in memory: a node, group or section that the file no
-- longer has stays. What json prints is taken to read back as it was, and the sections of plugins as texts.
abbrev pub decode : Config → Config → Config
decode old new = record {
  pulse = new.pulse;
  groups = decode_map old.groups new.groups;
  nodes = decode_map old.nodes new.nodes;
  plugins = decode_map old.plugins new.plugins;
}

module _ (env : Env) where
  -- WriteFile on the config's location
  write_file : Config → Daemon Error
  write_file c = do
    able ← gets (λ w. env.can_write w.trace)
    modify (log_event (file_written able))
    if able then (do modify (λ w. record w { file = holds c }); pure none) else (do
      modify (λ w. record w { file = env.torn_file w.trace c w.file })
      pure (some "unable to write the config file"))

  save_valid : Error → Daemon Error
  unfolding write_file
  save_valid (some e) = pure (some e)
  save_valid none = do c ← gets (λ w. w.config); write_file c

  -- Save
  unfoldable pub save : Daemon Error
  unfolding save_valid
  save = do v ← gets (λ w. validate (env.hostname w.trace) w.config); save_valid v

  -- SaveDefaultLocalConfig
  unfoldable pub save_default : Daemon Error
  unfolding write_file
  save_default = do modify (λ w. record w { config = default_config }); write_file default_config

  -- Fatal ends the process.
  or_exit : Error → Daemon Unit
  or_exit none = skip
  or_exit (some e) = exit

  load_file : Stored → Daemon Unit
  unfolding or_exit save_default
  load_file (holds c) = do
    modify (λ w. record w { config = decode w.config c })
    e ← gets (λ w. validate (env.hostname w.trace) w.config)
    or_exit e
  load_file garbled = exit
  load_file absent = do e ← save_default; or_exit e

  -- Load, which returns nil or does not return; and so Reload.
  unfoldable pub load : Daemon Unit
  unfolding load_file
  load = do f ← gets (λ w. w.file); load_file f

-- The tagged fields of type Local.
abbrev pub local_fields : Local → List (String × Field)
local_fields l =
    ("hcs_interval", number l.health_check_interval)
    ∷ ("fos_interval", number l.fail_over_interval)
    ∷ ("fo_limit", number l.fail_over_limit)
    ∷ ("local_node", text l.local_node)
    ∷ ("cluster_token", text l.cluster_token)
    ∷ ("logging_level", text l.logging_level)
    ∷ ("auto_failback", flag l.auto_failback)
    ∷ ("log_to_file", flag l.log_to_file)
    ∷ ("log_file_location", text l.log_file_location)
    ∷ []

abbrev number_at : String → List (String × Field) → ℤ
number_at tag fs = elim (lookup tag fs) [ some (number z) ↦ z | _ ↦ pos 0 ]

abbrev text_at : String → List (String × Field) → String
text_at tag fs = elim (lookup tag fs) [ some (text s) ↦ s | _ ↦ "" ]

abbrev flag_at : String → List (String × Field) → Bool
flag_at tag fs = elim (lookup tag fs) [ some (flag b) ↦ b | _ ↦ false ]

-- The struct that the tagged fields make up.
abbrev pub local_of : List (String × Field) → Local
local_of fs = record {
  health_check_interval = number_at "hcs_interval" fs;
  fail_over_interval = number_at "fos_interval" fs;
  fail_over_limit = number_at "fo_limit" fs;
  local_node = text_at "local_node" fs;
  cluster_token = text_at "cluster_token" fs;
  logging_level = text_at "logging_level" fs;
  auto_failback = flag_at "auto_failback" fs;
  log_to_file = flag_at "log_to_file" fs;
  log_file_location = text_at "log_file_location" fs;
}

module _ (env : Env) where
  check_and_save : Error → Daemon Error
  check_and_save (some e) = pure (some "invalid configuration value")
  check_and_save none = save env

  store_fields : Outcome → Daemon Error
  unfolding check_and_save
  store_fields invalid_key = pure (some "invalid config key")
  store_fields invalid_value = pure (some "invalid config value")
  store_fields (updated fs) = do
    modify (λ w. record w { config = record w.config { pulse = local_of fs } })
    e ← gets (λ w. validate (env.hostname w.trace) w.config)
    check_and_save e

  -- UpdateValue
  unfoldable pub update_value : String → String → Daemon Error
  unfolding store_fields
  update_value key value = do
    o ← gets (λ w. set_struct_field_by_tag key value (local_fields w.config.pulse))
    store_fields o

-- UpdateHostname: without a local node this writes through a nil pointer.
unfoldable pub update_hostname : String → Daemon Unit
update_hostname h = do
  n ← (λ w. deref (get w.config.nodes w.config.pulse.local_node) w)
  modify (λ w. record w {
    config = record w.config {
      nodes = put w.config.nodes w.config.pulse.local_node (record n { hostname = h });
    };
  })
