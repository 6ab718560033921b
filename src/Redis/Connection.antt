-- ===== src/Redis/Connection.antt =====
-- The connection's settings in crates/redis-web-runtime/src/redis.rs. A duration is in seconds.
use redis_web.Prelude.{
  ℕ, ◌*◌, ◌/◌, ◌%◌, ◌^◌, Bool, true, false, Option, none, some, [], ◌∷◌, ◌++◌, ltb, if◌then◌else◌,
  unwrap_or, Result, ok, err, ◌>>=◌,
}
use redis_web.Text.{Bytes, codes, eq_bytes}
use redis_web.Text.Decimal.{to_string}
use redis_web.Config.Settings.{
  Config, SslConfig, RedisAuthConfig, legacy, acl_user, HiRedisConfig, default_http_threads,
  default_pool_size_per_thread, get_redis_url,
}

pub data ErrorKind : Type 0 where
  invalid_client_config io : ErrorKind
  other_kind : Bytes → ErrorKind

pub record RedisError : Type 0 where
  pub error_kind : ErrorKind
  pub description : Bytes
  detail : Bytes

pub data ProtocolVersion : Type 0 where
  resp2 resp3 : ProtocolVersion

pub data ConnectionAddr : Type 0 where
  tcp tcp_tls : Bytes → ℕ → ConnectionAddr
  unix : Bytes → ConnectionAddr
  other_addr : ConnectionAddr

pub record RedisConnectionInfo : Type 0 where
  pub db : ℕ
  pub username : Option Bytes
  pub password : Option Bytes
  pub protocol : ProtocolVersion

-- `keepalive` is the part of the TCP settings that the code sets: the idle time and the interval.
pub record ConnectionInfo : Type 0 where
  pub addr : ConnectionAddr
  pub redis_settings : RedisConnectionInfo
  pub keepalive : Option (ℕ × ℕ)

unfoldable pub ssl_enabled : Config → Bool
ssl_enabled config = on config.ssl
  where
    on : Option SslConfig → Bool
    on none = false
    on (some ssl) = ssl.enabled

abbrev username_password : Option RedisAuthConfig → Option Bytes × Option Bytes
username_password none = (none, none)
username_password (some (legacy password)) = (none, some password)
username_password (some (acl_user (u ∷ (p ∷ [])))) = (some u, some p)
username_password (some (acl_user _)) = (none, none)

unfoldable pub redis_username_password : Config → Option Bytes × Option Bytes
redis_username_password config = username_password config.redis_auth

unfoldable pub keepalive_time_and_interval : ℕ → ℕ × ℕ
keepalive_time_and_interval keep_alive_sec =
    (keep_alive_sec, if ltb 1 (keep_alive_sec / 3) then keep_alive_sec / 3 else 1)

-- `hiredis.keep_alive_sec`, if it is above zero
abbrev positive : Option ℕ → Option ℕ
positive none = none
positive (some n) = if ltb 0 n then some n else none

abbrev setting_of : Option HiRedisConfig → Option ℕ
setting_of none = none
setting_of (some h) = positive h.keep_alive_sec

abbrev pub keepalive_setting : Config → Option ℕ
keepalive_setting config = setting_of config.hiredis

abbrev with_keepalive : ConnectionAddr → ℕ → ConnectionInfo → ConnectionInfo
with_keepalive (tcp _ _) n info = record info { keepalive = some (keepalive_time_and_interval n) }
with_keepalive (tcp_tls _ _) n info = record info {
  keepalive = some (keepalive_time_and_interval n);
}
with_keepalive (unix _) n info = info
with_keepalive other_addr n info = info

abbrev apply_setting : Option ℕ → ConnectionInfo → ConnectionInfo
apply_setting none info = info
apply_setting (some n) info = with_keepalive info.addr n info

unfoldable pub maybe_apply_tcp_keepalive :
    Config → ConnectionInfo → Result RedisError ConnectionInfo
maybe_apply_tcp_keepalive config info = ok (apply_setting (keepalive_setting config) info)

abbrev bool_text : Bool → Bytes
bool_text true = codes "true"
bool_text false = codes "false"

abbrev endpoint : Config → Option Bytes → Bytes
endpoint config (some socket) =
    codes "unix:" ++ (socket ++ (codes " db=" ++ to_string config.database))
endpoint config none =
    codes "tcp:"
    ++ (config.redis_host
        ++ b':'
          ∷ (to_string config.redis_port
              ++ (codes " db="
                  ++ (to_string config.database
                      ++ (codes " tls=" ++ bool_text (ssl_enabled config))))))

unfoldable redis_endpoint_summary : Config → Bytes
redis_endpoint_summary config = endpoint config config.redis_socket

abbrev ssl_with_socket : RedisError
ssl_with_socket = record {
  error_kind = invalid_client_config;
  description = codes "ssl is not supported with redis_socket";
  detail = codes "Disable ssl.enabled or remove redis_socket. TLS does not apply to UNIX sockets.";
}

-- The surroundings: `metadata` says of a path whether it is a socket, or the error's text;
-- `parse_url` and `addr_info` are the client library's `into_connection_info`, of a URL and of an
-- address.
pub record Client : Type 0 where
  pub metadata : Bytes → Result Bytes Bool
  pub parse_url : Bytes → Result RedisError ConnectionInfo
  pub addr_info : ConnectionAddr → Result RedisError ConnectionInfo

module _ (client : Client) where
  open client use {metadata, parse_url, addr_info}

  abbrev inaccessible : Bytes → Bytes → RedisError
  inaccessible path e = record {
    error_kind = io;
    description = codes "redis_socket path is not accessible";
    detail = path ++ (codes ": " ++ e);
  }

  abbrev no_socket : Bytes → RedisError
  no_socket path = record {
    error_kind = invalid_client_config;
    description = codes "redis_socket is not a unix socket";
    detail = path ++ codes " is not a socket file";
  }

  unfoldable pub validate_unix_socket_path : Bytes → Result {0, 0} RedisError Unit
  validate_unix_socket_path path = elim (metadata path) [
    | err e ↦ err (inaccessible path e)
    | ok is_socket ↦ if is_socket then ok _ else err (no_socket path)
  ]

  -- `RedisConnectionInfo::default()` with the database, the protocol and the credentials
  abbrev pub unix_settings : Config → RedisConnectionInfo
  unix_settings config =
      let (u, p) = redis_username_password config in
      record { db = config.database; username = u; password = p; protocol = resp2 }

  unfoldable pub connection_info_for_unix_socket_redis :
      Config → Bytes → Result RedisError ConnectionInfo
  connection_info_for_unix_socket_redis config socket_path =
      validate_unix_socket_path socket_path >>= λ _. addr_info (unix socket_path) >>= λ info.
      ok (record info { redis_settings = unix_settings config })

  abbrev with_resp2 : ConnectionInfo → ConnectionInfo
  with_resp2 info = record info {
    redis_settings = record (info.redis_settings) { protocol = resp2 };
  }

  unfoldable pub tcp_connection_info : Config → Result RedisError ConnectionInfo
  tcp_connection_info config = parse_url (get_redis_url config) >>= λ info.
      maybe_apply_tcp_keepalive config (with_resp2 info)

  abbrev info_for : Config → Option Bytes → Result RedisError ConnectionInfo
  info_for config none = tcp_connection_info config
  info_for config (some socket) =
      if ssl_enabled config
      then err ssl_with_socket
      else connection_info_for_unix_socket_redis config socket

  unfoldable pub pool_connection_info : Config → Result RedisError ConnectionInfo
  pool_connection_info config = info_for config config.redis_socket

  -- `redis::Client::open` takes what `into_connection_info` gives; `open` is that call.
  module _ {C : Type 0} (open_client : ConnectionInfo → Result RedisError C) where
    abbrev client_for : Config → Option Bytes → Result RedisError C
    client_for config (some socket) =
        connection_info_for_unix_socket_redis config socket >>= open_client
    client_for config none = pool_connection_info config >>= open_client

    unfoldable pub create_client : Config → Result RedisError C
    create_client config = client_for config config.redis_socket

    abbrev pubsub_client_for : Config → Option Bytes → Result RedisError C
    pubsub_client_for config (some socket) =
        connection_info_for_unix_socket_redis config socket >>= open_client
    pubsub_client_for config none = parse_url (get_redis_url config) >>= open_client

    unfoldable pub create_pubsub_client : Config → Result RedisError C
    create_pubsub_client config = pubsub_client_for config config.redis_socket

-- the number of connections of a pool, a `usize`
unfoldable pub pool_size : Config → ℕ
pool_size config =
    (unwrap_or config.pool_size_per_thread default_pool_size_per_thread
      * unwrap_or config.http_threads default_http_threads)
    % 2 ^ 64

-- `recycle`: an idle connection is kept only if it answers a PING with PONG. `ping` is the query.
pub data RecycleError : Type 0 where
  backend : RedisError → RecycleError
  message : Bytes → RecycleError

unfoldable recycle : Result RedisError Bytes → Result {0, 0} RecycleError Unit
recycle (err e) = err (backend e)
recycle (ok pong) =
    if eq_bytes pong (codes "PONG")
    then ok _
    else err (message (codes "unexpected PING response from Redis: " ++ pong))
