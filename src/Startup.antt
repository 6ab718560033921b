-- ===== src/Startup.antt =====
-- Where a process begins: crates/redis-web-compat/src/lib.rs, crates/redis-web/src/lib.rs, and the server
-- that crates/redis-web-runtime/src/server.rs builds. What a process prints is left out; where it exits,
-- its status and the message are kept.
pub mod Launch
pub mod Server
pub mod Routes
pub mod Choices
pub mod Main
mod Tests
use redis_web.Prelude.{
  ℕ, Bool, true, false, not, ◌&&◌, ◌||◌, Option, none, some, ◌++◌, [], ◌∷◌, if◌then◌else◌,
  unwrap_or, Result, ok, err, ◌>>=◌,
}
use redis_web.Text.{Bytes, codes, eq_bytes}
use redis_web.Http.Json.{Json}
use redis_web.Config.Settings.{Config, from_json_value}
use redis_web.Config.Documents.{default_document, starter_document}

pub data InvocationKind : Type 0 where
  canonical legacy_alias : InvocationKind

abbrev pub canonical_config_name : Bytes
canonical_config_name = codes "redis-web.json"

abbrev canonical_minimal_config_name : Bytes
canonical_minimal_config_name = codes "redis-web.min.json"

abbrev legacy_config_name : Bytes
legacy_config_name = codes "webdis.json"

abbrev default_config_name : InvocationKind → Bytes
default_config_name canonical = canonical_config_name
default_config_name legacy_alias = legacy_config_name

abbrev default_minimal_config_name : InvocationKind → Bytes
default_minimal_config_name canonical = canonical_minimal_config_name
default_minimal_config_name legacy_alias = codes "webdis.min.json"

abbrev pub default_schema_path : InvocationKind → Bytes
default_schema_path canonical = codes "./redis-web.schema.json"
default_schema_path legacy_alias = codes "./webdis.schema.json"

-- The command line, as `clap` reads it.
pub record Args : Type 0 where
  pub config : Option Bytes
  pub config_path : Option Bytes
  pub write_default_config : Bool
  pub write_minimal_config : Bool

-- The surroundings: the file system `Files`, the environment, JSON text, and the configuration
-- loader, of a file and of a JSON value.
pub record System : Type 1 where
  pub Files : Type 0
  pub exists : Bytes → Files → Bool
  pub write : Bytes → Bytes → Files → Result {0, 0} Bytes Unit × Files
  pub env : Bytes → Option Bytes
  pub to_string_pretty : Json → Result Bytes Bytes
  pub load_file : Bytes → Files → Result Bytes Json
  pub deserialize : Json → Result Bytes Config

-- The process exits, or has its configuration and goes on.
pub data Loading : Type 0 where
  exits : ℕ → Bytes → Loading
  loaded : Config → Bytes → Loading

module _ (system : System) where
  open system use {Files, exists, write, env, to_string_pretty, load_file, deserialize}

  unfoldable pub resolve_default_config : InvocationKind → Files → Bytes
  resolve_default_config canonical files =
      if exists canonical_config_name files
      then canonical_config_name
      else if exists canonical_minimal_config_name files
      then canonical_minimal_config_name
      else if exists legacy_config_name files
      then legacy_config_name
      else canonical_config_name
  resolve_default_config legacy_alias files = legacy_config_name

  -- `Config::new`
  unfoldable pub config_new : Bytes → Files → Result Bytes Config
  config_new path files = load_file path files >>= λ json. from_json_value env deserialize json

  abbrev pub already_exists : Bytes → Bytes
  already_exists path = path ++ codes " already exists"

  abbrev write_text : Bytes → Result Bytes Bytes → Files → Result {0, 0} Bytes Unit × Files
  write_text path (err e) files = (err e, files)
  write_text path (ok json) files = write path (json ++ 10 ∷ []) files

  abbrev pub write_document : Bytes → Json → Files → Result {0, 0} Bytes Unit × Files
  write_document path document files =
      if exists path files
      then (err (already_exists path), files)
      else write_text path (to_string_pretty document) files

  unfoldable pub write_default_config :
      Bytes → InvocationKind → Files → Result {0, 0} Bytes Unit × Files
  write_default_config path kind files =
      write_document path (default_document (default_schema_path kind)) files

  unfoldable pub write_minimal_config :
      Bytes → InvocationKind → Files → Result {0, 0} Bytes Unit × Files
  write_minimal_config path kind files =
      write_document path (starter_document (default_schema_path kind)) files

  -- `args.config_path.or(args.config)`
  abbrev explicit_config : Option Bytes → Option Bytes → Option Bytes
  explicit_config (some path) positional = some path
  explicit_config none positional = positional

  unfoldable pub config_path_for : InvocationKind → Args → Files → Bytes
  config_path_for kind args files = unwrap_or (explicit_config args.config_path args.config) (
      if args.write_minimal_config
      then default_minimal_config_name kind
      else if args.write_default_config
      then default_config_name kind
      else resolve_default_config kind files)

  -- `heading` and `name` are how the messages call the configuration
  abbrev pub written : Bytes → Bytes → Bytes → Result {0, 0} Bytes Unit × Files → Loading × Files
  written heading name path (ok _, files) =
      (exits 0 (heading ++ (codes " configuration written to " ++ path)), files)
  written heading name path (err e, files) =
      (exits 1 (codes "Failed to write " ++ (name ++ (codes " configuration: " ++ e))), files)

  abbrev pub loading : Bytes → Result Bytes Config → Loading
  loading path (ok config) = loaded config path
  loading path (err e) = exits 1 (codes "Failed to load configuration: " ++ e)

  abbrev pub both_writes : Bytes
  both_writes = codes "`--write-default-config` and `--write-minimal-config` cannot be combined."

  unfoldable pub load_config : InvocationKind → Args → Files → Loading × Files
  load_config kind args files =
      let path = config_path_for kind args files in
      if args.write_default_config && args.write_minimal_config
      then (exits 1 both_writes, files)
      else if args.write_default_config
      then written (codes "Default") (codes "default") path (write_default_config path kind files)
      else if args.write_minimal_config
      then written (codes "Minimal") (codes "minimal") path (write_minimal_config path kind files)
      else (loading path (config_new path files), files)
