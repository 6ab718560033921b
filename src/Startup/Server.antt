-- ===== src/Startup/Server.antt =====
-- `build_runtime` and `serve` of crates/redis-web-runtime/src/server.rs, and
-- `CompatSessionManager::new` of compat.rs.
use redis_web.Prelude.{ℕ, Option, none, some, ◌++◌, if◌then◌else◌, Result, ok, err, ◌>>=◌}
use redis_web.Text.{Bytes, codes}
use redis_web.Acl.{Acl, new_acl}
use redis_web.Compat.Creation.{CompatHiRedisConfig, from_config}
use redis_web.Compat.Manager.{CompatSessionSettings}
use redis_web.Config.Settings.{Config, TransportMode, rest, grpc}
use redis_web.Redis.Connection.{RedisError, ConnectionInfo, create_client, create_pubsub_client}
use redis_web.Redis.Pools.{
  CreatePoolError, DatabasePoolRegistry, new_registry, Pooling, create_pool,
}

pub data ServerBuildError : Type 0 where
  redis_pool : CreatePoolError → ServerBuildError
  pubsub compat : RedisError → ServerBuildError

-- The settings of a compat manager and its two clients; it begins without sessions.
pub record CompatManager (C : Type 0) : Type 0 where
  pub settings : CompatSessionSettings
  command_client : C
  pubsub_client : C

-- The state that the handlers share: `AppState`, as far as it comes from the configuration.
pub record RuntimeComponents (Net C : Type 0) : Type 0 where
  pub redis_pools : DatabasePoolRegistry
  pub default_database : ℕ
  pub acl : Acl Net
  pubsub_client : C
  pub compat_hiredis : Option (CompatManager C)

abbrev map_err {ℓ κ μ} : {E : Type κ} {F : Type μ} {A : Type ℓ} → (E → F) → Result E A → Result F A
map_err f (ok a) = ok a
map_err f (err e) = err (f e)

-- `redis_error_text` is the `Display` of the library's errors.
abbrev build_error_text :
    (CreatePoolError → Bytes) → (RedisError → Bytes) → ServerBuildError → Bytes
build_error_text pool_error_text redis_error_text (redis_pool e) =
    codes "failed to create Redis pool: " ++ pool_error_text e
build_error_text pool_error_text redis_error_text (pubsub e) =
    codes "failed to create Redis pub/sub client: " ++ redis_error_text e
build_error_text pool_error_text redis_error_text (compat e) =
    codes "failed to create hiredis-compat session manager: " ++ redis_error_text e

module _ (pooling : Pooling) {C Net : Type 0} (open_client : ConnectionInfo → Result RedisError C)
    (parse_net : Bytes → Option Net) where
  unfoldable pub new_compat_manager : Config → Result RedisError (CompatManager C)
  new_compat_manager config = create_client pooling.client open_client config >>= λ command_client.
      create_pubsub_client pooling.client open_client config >>= λ pubsub_client. ok (record {
        settings = from_config config.compat_hiredis;
        command_client = command_client;
        pubsub_client = pubsub_client;
      })

  abbrev new_compat : Config → Result ServerBuildError (Option (CompatManager C))
  new_compat config = map_err compat (new_compat_manager config) >>= λ manager. ok (some manager)

  -- the bridge is there for REST only, and if it is enabled
  abbrev compat_for :
      Config
      → TransportMode
      → Option CompatHiRedisConfig
      → Result ServerBuildError (Option (CompatManager C))
  compat_for config rest (some cfg) = if cfg.enabled then new_compat config else ok none
  compat_for config rest none = ok none
  compat_for config grpc _ = ok none

  abbrev build_runtime_with_dependencies :
      Config → DatabasePoolRegistry → C → Option (CompatManager C) → RuntimeComponents Net C
  build_runtime_with_dependencies config pools pubsub_client compat_hiredis = record {
    redis_pools = pools;
    default_database = config.database;
    acl = new_acl parse_net config.acl;
    pubsub_client = pubsub_client;
    compat_hiredis = compat_hiredis;
  }

  unfoldable pub build_runtime : Config → Result ServerBuildError (RuntimeComponents Net C)
  build_runtime config = map_err redis_pool (create_pool pooling config 0) >>= λ pool.
      map_err pubsub (create_pubsub_client pooling.client open_client config) >>= λ client.
      compat_for config config.transport_mode config.compat_hiredis >>= λ compat_hiredis.
      ok (build_runtime_with_dependencies config (new_registry config pool 1) client compat_hiredis)

-- `bind` is the listener and the server behind it; errors are their texts.
module _ {Ip : Type 0} (parse_ip : Bytes → Option Ip)
    (bind : Ip → ℕ → Result {0, 0} Bytes Unit) where
  abbrev served_at : Config → Option Ip → Result {0, 0} Bytes Unit
  served_at config none = err (codes "invalid HTTP host " ++ config.http_host)
  served_at config (some ip) = bind ip config.http_port

  unfoldable pub serve : Config → Result {0, 0} Bytes Unit
  serve config = served_at config (parse_ip config.http_host)
