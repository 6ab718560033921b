-- ===== src/Config/Settings.antt =====
-- `Config` of crates/redis-web-core/src/config.rs: its parts, its defaults, the older names of two
-- settings, loading, and the address of the backend.
use redis_web.Prelude.{
  ℕ, ◌*◌, Bool, true, false, Option, none, some, List, [], ◌∷◌, ◌++◌, if◌then◌else◌, Result, ok,
  err, ◌>>=◌,
}
use redis_web.Text.{Bytes, codes}
use redis_web.Text.Decimal.{to_string}
use redis_web.Http.Json.{Json, object}
use redis_web.Acl.{AclConfig}
use redis_web.Compat.Creation.{CompatHiRedisConfig}
use redis_web.Config.Env.{root, expand_env_vars_in_json}

pub data TransportMode : Type 0 where
  rest grpc : TransportMode

pub record GrpcConfig : Type 0 where
  pub host : Bytes
  pub port : ℕ
  pub enable_health_service : Bool
  pub enable_reflection : Bool
  pub max_decoding_message_size : Option ℕ
  pub max_encoding_message_size : Option ℕ

pub record SslConfig : Type 0 where
  pub enabled : Bool
  pub ca_cert_bundle : Bytes
  pub path_to_certs : Option Bytes
  pub client_cert : Bytes
  pub client_key : Bytes
  pub redis_sni : Option Bytes

pub data RedisAuthConfig : Type 0 where
  legacy : Bytes → RedisAuthConfig
  acl_user : List Bytes → RedisAuthConfig

pub record HiRedisConfig : Type 0 where
  pub keep_alive_sec : Option ℕ

pub record Config : Type 0 where
  pub redis_host : Bytes
  pub redis_port : ℕ
  pub redis_socket : Option Bytes
  pub http_host : Bytes
  pub http_port : ℕ
  pub transport_mode : TransportMode
  pub http_threads : Option ℕ
  pub runtime_worker_threads : Option ℕ
  pub legacy_http_threads : Option ℕ
  pub database : ℕ
  pub pool_size_per_thread : Option ℕ
  pub legacy_pool_size_per_thread : Option ℕ
  pub websockets : Bool
  pub ssl : Option SslConfig
  pub acl : Option (List AclConfig)
  pub redis_auth : Option RedisAuthConfig
  pub hiredis : Option HiRedisConfig
  pub compat_hiredis : Option CompatHiRedisConfig
  pub grpc_config : GrpcConfig
  pub http_max_request_size : Option ℕ
  pub default_root : Option Bytes
  pub verbosity : Option ℕ

abbrev pub default_http_threads : ℕ
default_http_threads = 4

abbrev pub default_pool_size_per_thread : ℕ
default_pool_size_per_thread = 10

abbrev pub default_http_max_request_size : ℕ
default_http_max_request_size = 128 * 1024 * 1024

abbrev pub default_verbosity : ℕ
default_verbosity = 4

abbrev pub default_redis_host : Bytes
default_redis_host = codes "127.0.0.1"

abbrev pub default_redis_port : ℕ
default_redis_port = 6379

abbrev default_http_host : Bytes
default_http_host = codes "0.0.0.0"

abbrev pub default_http_port : ℕ
default_http_port = 7379

abbrev pub default_http_host_starter : Bytes
default_http_host_starter = codes "127.0.0.1"

abbrev default_grpc : GrpcConfig
default_grpc = record {
  host = codes "0.0.0.0";
  port = 7379;
  enable_health_service = true;
  enable_reflection = false;
  max_decoding_message_size = none;
  max_encoding_message_size = none;
}

abbrev pub default_settings : Config
default_settings = record {
  redis_host = default_redis_host;
  redis_port = default_redis_port;
  redis_socket = none;
  http_host = default_http_host;
  http_port = default_http_port;
  transport_mode = rest;
  http_threads = some default_http_threads;
  runtime_worker_threads = none;
  legacy_http_threads = none;
  database = 0;
  pool_size_per_thread = some default_pool_size_per_thread;
  legacy_pool_size_per_thread = none;
  websockets = false;
  ssl = none;
  acl = none;
  redis_auth = none;
  hiredis = none;
  compat_hiredis = none;
  grpc_config = default_grpc;
  http_max_request_size = some default_http_max_request_size;
  default_root = none;
  verbosity = some default_verbosity;
}

-- One setting and its older name, after `apply_legacy_aliases`: `take` moves the older one, and the
-- other branch clears it.
abbrev pub take_legacy {ℓ} : {A : Type ℓ} → Option A → Option A → Option A × Option A
take_legacy none (some old) = (some old, none)
take_legacy new _ = (new, none)

unfoldable pub apply_legacy_aliases : Config → Config
apply_legacy_aliases c =
    let (threads, legacy_threads) = take_legacy c.http_threads c.legacy_http_threads in
    let (size, legacy_size) = take_legacy c.pool_size_per_thread c.legacy_pool_size_per_thread in
    record c {
      http_threads = threads;
      legacy_http_threads = legacy_threads;
      pool_size_per_thread = size;
      legacy_pool_size_per_thread = legacy_size;
    }

abbrev ssl_on : Option SslConfig → Bool
ssl_on none = false
ssl_on (some s) = s.enabled

abbrev auth_str : Option RedisAuthConfig → Bytes
auth_str (some (legacy password)) = b':' ∷ (password ++ codes "@")
auth_str (some (acl_user (u ∷ (p ∷ [])))) = u ++ b':' ∷ (p ++ codes "@")
auth_str _ = []

unfoldable pub get_redis_url : Config → Bytes
get_redis_url c =
    (if ssl_on c.ssl then codes "rediss" else codes "redis")
    ++ (codes "://"
        ++ (auth_str c.redis_auth
            ++ (c.redis_host ++ b':' ∷ (to_string c.redis_port ++ b'/' ∷ to_string c.database))))

-- `env` is `std::env::var`; `deserialize` is the `config` crate's loader over the printed JSON, with
-- the fields of `Config` that serde reads.
module _ (env : Bytes → Option Bytes) (deserialize : Json → Result Bytes Config) where
  unfoldable pub from_json_value : Json → Result Bytes Config
  from_json_value json = expand_env_vars_in_json env root json >>= λ expanded.
      deserialize expanded >>= λ config. ok (apply_legacy_aliases config)

  unfoldable from_value : Json → Result Bytes Config
  from_value (object map) = from_json_value (object map)
  from_value _ = err (codes "config must be a JSON object")
