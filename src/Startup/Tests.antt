-- ===== src/Startup/Tests.antt =====
-- A start in a directory that holds one configuration.
use redis_web.Prelude.{ℕ, true, false, ◌||◌, none, List, [], ◌∷◌, any, Result, ok, ◌≡◌, ◌⊎◌, refl}
use redis_web.Text.{Bytes, eq_bytes}
use redis_web.Http.Json.{null}
use redis_web.Config.Env.{expand_env_vars_in_json}
use redis_web.Config.Settings.{
  Config, rest, default_settings, apply_legacy_aliases, from_json_value,
}
use redis_web.Startup.{
  canonical, Args, System, exits, load_config, config_path_for, config_new, canonical_config_name,
}
use redis_web.Startup.Launch.{debug, run, log_level}
use redis_web.Startup.Choices.{load_config_keeps, run_serves}

-- Files are the names of those that exist.
abbrev system : System
system = record {
  Files = List Bytes;
  exists = λ path files. any (eq_bytes path) files;
  write = λ path text files. (ok _, path ∷ files);
  env = λ _. none;
  to_string_pretty = λ _. ok [];
  load_file = λ path files. ok null;
  deserialize = λ _. ok default_settings;
}

abbrev directory : List Bytes
directory = canonical_config_name ∷ []

abbrev writing : Args
writing = record {
  config = none;
  config_path = none;
  write_default_config = true;
  write_minimal_config = false;
}

load_config_keeps_example :
    ((load_config system canonical writing directory).1 ≡ directory)
    ⊎ ((any (eq_bytes (config_path_for system canonical writing directory)) directory ≡ false)
        × ((false ≡ false)
            × ((true ≡ true)
                × ((status : ℕ) × ((message : Bytes) × ((load_config system canonical writing
                          directory).0
                        ≡ exits status message))))))
load_config_keeps_example = load_config_keeps system canonical writing directory

abbrev serving : Args
serving = record writing { write_default_config = false }

run_serves_example :
    (rest ≡ rest)
    × ((default_settings.transport_mode ≡ rest)
        × ((config_new system (config_path_for system canonical serving directory) directory
              ≡ ok default_settings)
            × ((false || false) ≡ false)))
unfolding run load_config config_new from_json_value expand_env_vars_in_json apply_legacy_aliases
    log_level
run_serves_example =
    run_serves system rest rest canonical serving directory debug none default_settings refl

-- A server that is built, and ends without an error.
abbrev builds : Config → Result Bytes ℕ
builds config = ok 3

abbrev ends : Config → ℕ → Result {0, 0} Bytes Unit
ends config components = ok _
