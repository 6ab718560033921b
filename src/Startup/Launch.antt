-- ===== src/Startup/Launch.antt =====
-- `run` and `run_grpc` of crates/redis-web/src/lib.rs, up to the server that they start.
use redis_web.Prelude.{
  ℕ, Bool, true, false, not, ◌||◌, Option, none, some, List, [], ◌∷◌, ◌++◌, ◌==◌, if◌then◌else◌,
  unwrap_or,
}
use redis_web.Text.{Bytes, codes, eq_bytes}
use redis_web.Compat.Creation.{CompatHiRedisConfig}
use redis_web.Config.Settings.{Config, TransportMode, rest, grpc, default_verbosity}
use redis_web.Startup.{InvocationKind, Args, System, Loading, exits, loaded, load_config}

pub data Level : Type 0 where
  error warn info debug trace : Level

abbrev level_of : ℕ → Level
level_of v =
    if v == 0
    then error
    else if v == 1
    then warn
    else if (v == 2) || (v == 3)
    then info
    else if v == 4
    then debug
    else trace

unfoldable pub log_level : Config → Level
log_level config = level_of (unwrap_or config.verbosity default_verbosity)

-- The server that a process starts, with its log level and its worker threads, or its exit.
pub data Launched : Type 0 where
  ended : ℕ → Bytes → Launched
  serves : TransportMode → Level → Option ℕ → Config → Launched

abbrev pub start : TransportMode → Config → Launched
start mode config = serves mode (log_level config) config.runtime_worker_threads config

abbrev pub if_rest : TransportMode → Config → Launched
if_rest rest config = start rest config
if_rest grpc config =
    ended 1
      (codes "redis-web only serves REST/WebSocket traffic. Use `redis-web-grpc` for gRPC configs.")

abbrev pub if_grpc : TransportMode → Config → Launched
if_grpc grpc config = start grpc config
if_grpc rest config =
    ended 1 (codes "redis-web-grpc requires `transport_mode: \"grpc\"` in the config file.")

abbrev pub launch : (TransportMode → Config → Launched) → Loading → Launched
launch serving (exits status message) = ended status message
launch serving (loaded config path) = serving config.transport_mode config

module _ (system : System) where
  unfoldable pub run : InvocationKind → Args → system.Files → Launched × system.Files
  run kind args files =
      let (l, files') = load_config system kind args files in (launch if_rest l, files')

  unfoldable pub run_grpc : InvocationKind → Args → system.Files → Launched × system.Files
  run_grpc kind args files =
      let (l, files') = load_config system kind args files in (launch if_grpc l, files')

abbrev compat_on : Option CompatHiRedisConfig → Bool
compat_on none = false
compat_on (some cfg) = cfg.enabled

abbrev is_set {ℓ} : {A : Type ℓ} → Option A → Bool
is_set none = false
is_set (some _) = true

abbrev named : Bool → Bytes → List Bytes
named true name = name ∷ []
named false name = []

-- what a gRPC server tells that it ignores
unfoldable ignored_rest_settings : Config → List Bytes
ignored_rest_settings config =
    named config.websockets (codes "websockets")
    ++ (named (is_set config.default_root) (codes "default_root")
        ++ (named (compat_on config.compat_hiredis) (codes "compat_hiredis")
            ++ named
                (not (eq_bytes config.http_host (codes "0.0.0.0"))
                  || not (config.http_port == 7379))
                (codes "http_host/http_port")))
