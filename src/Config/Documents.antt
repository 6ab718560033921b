-- ===== src/Config/Documents.antt =====
-- The documents that crates/redis-web-core/src/config.rs writes: the default configuration and the
-- starter one. `Config` is serialized as serde derives it: a member per field in the order of the keys,
-- null for `None`, the older names left out.
use redis_web.Prelude.{ℕ, Bool, true, false, Option, none, some, List, [], ◌∷◌, if◌then◌else◌}
use redis_web.Text.{Bytes, codes, eq_bytes}
use redis_web.Text.Decimal.{pos}
use redis_web.Http.Json.{
  Json, Jsons, Members, null, boolean, number, string, object, no_items, item, no_members, member,
  get, insert,
}
use redis_web.Acl.{AclConfig}
use redis_web.Compat.Creation.{CompatHiRedisConfig}
use redis_web.Config.Settings.{
  Config, TransportMode, rest, grpc, GrpcConfig, SslConfig, RedisAuthConfig, legacy, acl_user,
  HiRedisConfig, default_settings, default_redis_host, default_redis_port,
  default_http_host_starter, default_http_port,
}

abbrev text : Bytes → Json
text s = string s

abbrev nat : ℕ → Json
nat n = number (pos n)

abbrev optional {ℓ} : {A : Type ℓ} → (A → Json) → Option A → Json
optional f none = null
optional f (some a) = f a

abbrev items {ℓ} : {A : Type ℓ} → (A → Json) → List A → Jsons
items f [] = no_items
items f (a ∷ others) = item (f a) (items f others)

abbrev list {ℓ} : {A : Type ℓ} → (A → Json) → List A → Json
list f values = Json.array (items f values)

abbrev members : List (Bytes × Json) → Members
members [] = no_members
members ((key, value) ∷ rest_of) = insert key value (members rest_of)

abbrev transport_json : TransportMode → Json
transport_json rest = string (codes "rest")
transport_json grpc = string (codes "grpc")

abbrev grpc_json : GrpcConfig → Json
grpc_json g = object (
    members (
      (codes "host", text g.host)
      ∷ (codes "port", nat g.port)
      ∷ (codes "enable_health_service", boolean g.enable_health_service)
      ∷ (codes "enable_reflection", boolean g.enable_reflection)
      ∷ (codes "max_decoding_message_size", optional nat g.max_decoding_message_size)
      ∷ (codes "max_encoding_message_size", optional nat g.max_encoding_message_size)
      ∷ []))

abbrev ssl_json : SslConfig → Json
ssl_json s = object (
    members (
      (codes "enabled", boolean s.enabled)
      ∷ (codes "ca_cert_bundle", text s.ca_cert_bundle)
      ∷ (codes "path_to_certs", optional text s.path_to_certs)
      ∷ (codes "client_cert", text s.client_cert)
      ∷ (codes "client_key", text s.client_key)
      ∷ (codes "redis_sni", optional text s.redis_sni)
      ∷ []))

abbrev acl_json : AclConfig → Json
acl_json a = object (
    members (
      (codes "disabled", optional (list text) a.disabled)
      ∷ (codes "enabled", optional (list text) a.enabled)
      ∷ (codes "http_basic_auth", optional text a.http_basic_auth)
      ∷ (codes "ip", optional text a.ip)
      ∷ []))

abbrev auth_json : RedisAuthConfig → Json
auth_json (legacy password) = text password
auth_json (acl_user creds) = list text creds

abbrev hiredis_json : HiRedisConfig → Json
hiredis_json h = object (member (codes "keep_alive_sec") (optional nat h.keep_alive_sec) no_members)

abbrev compat_json : CompatHiRedisConfig → Json
compat_json c = object (
    members (
      (codes "enabled", boolean c.enabled)
      ∷ (codes "path_prefix", text c.path_prefix)
      ∷ (codes "session_ttl_sec", nat c.session_ttl_sec)
      ∷ (codes "max_sessions", nat c.max_sessions)
      ∷ (codes "max_pipeline_commands", nat c.max_pipeline_commands)
      ∷ []))

-- `serde_json::to_value(config)`
abbrev to_value : Config → Members
to_value c = members (
    (codes "redis_host", text c.redis_host)
    ∷ (codes "redis_port", nat c.redis_port)
    ∷ (codes "redis_socket", optional text c.redis_socket)
    ∷ (codes "http_host", text c.http_host)
    ∷ (codes "http_port", nat c.http_port)
    ∷ (codes "transport_mode", transport_json c.transport_mode)
    ∷ (codes "http_threads", optional nat c.http_threads)
    ∷ (codes "runtime_worker_threads", optional nat c.runtime_worker_threads)
    ∷ (codes "database", nat c.database)
    ∷ (codes "pool_size_per_thread", optional nat c.pool_size_per_thread)
    ∷ (codes "websockets", boolean c.websockets)
    ∷ (codes "ssl", optional ssl_json c.ssl)
    ∷ (codes "acl", optional (list acl_json) c.acl)
    ∷ (codes "redis_auth", optional auth_json c.redis_auth)
    ∷ (codes "hiredis", optional hiredis_json c.hiredis)
    ∷ (codes "compat_hiredis", optional compat_json c.compat_hiredis)
    ∷ (codes "grpc", grpc_json c.grpc_config)
    ∷ (codes "http_max_request_size", optional nat c.http_max_request_size)
    ∷ (codes "default_root", optional text c.default_root)
    ∷ (codes "verbosity", optional nat c.verbosity)
    ∷ [])

abbrev pub is_null : Json → Bool
is_null null = true
is_null _ = false

-- `map.retain(|_, v| !v.is_null())`
unfoldable pub retain_non_null : Members → Members
retain_non_null no_members = no_members
retain_non_null (member k v ms) =
    let later = retain_non_null ms in if is_null v then later else member k v later

-- `remaining.remove(key)`, what is left; a key occurs once
unfoldable pub remove_member : Bytes → Members → Members
remove_member key no_members = no_members
remove_member key (member k v ms) =
    let later = remove_member key ms in if eq_bytes k key then ms else member k v later

abbrev pub insert_found : Bytes → Option Json → Members → Members
insert_found key none ordered = ordered
insert_found key (some value) ordered = insert key value ordered

-- the keys of the order, moved from `remaining` to `ordered`
unfoldable pub take_ordered : List Bytes → Members → Members → Members × Members
take_ordered [] remaining ordered = (remaining, ordered)
take_ordered (key ∷ keys) remaining ordered =
    take_ordered keys (remove_member key remaining) (insert_found key (get key remaining) ordered)

unfoldable pub insert_all : Members → Members → Members
insert_all no_members ordered = ordered
insert_all (member key value ms) ordered = insert_all ms (insert key value ordered)

unfoldable pub decorate_config_map : Members → Bytes → List Bytes → Members
decorate_config_map map schema_ref key_order =
    let retained = retain_non_null (insert (codes "$schema") (string schema_ref) map) in
    let (remaining, ordered) = take_ordered key_order retained no_members in
    insert_all remaining ordered

abbrev default_config_key_order : List Bytes
default_config_key_order =
    codes "$schema"
    ∷ codes "redis_host"
    ∷ codes "redis_port"
    ∷ codes "redis_socket"
    ∷ codes "redis_auth"
    ∷ codes "hiredis"
    ∷ codes "compat_hiredis"
    ∷ codes "transport_mode"
    ∷ codes "grpc"
    ∷ codes "http_host"
    ∷ codes "http_port"
    ∷ codes "http_threads"
    ∷ codes "runtime_worker_threads"
    ∷ codes "pool_size_per_thread"
    ∷ codes "database"
    ∷ codes "websockets"
    ∷ codes "default_root"
    ∷ codes "http_max_request_size"
    ∷ codes "verbosity"
    ∷ codes "ssl"
    ∷ codes "acl"
    ∷ []

unfoldable pub default_document : Bytes → Json
default_document schema_ref =
    object (decorate_config_map (to_value default_settings) schema_ref default_config_key_order)

unfoldable pub starter_document : Bytes → Json
starter_document schema_ref = object (
    decorate_config_map
      (members (
        (codes "redis_host", text default_redis_host)
        ∷ (codes "redis_port", nat default_redis_port)
        ∷ (codes "http_host", text default_http_host_starter)
        ∷ (codes "http_port", nat default_http_port)
        ∷ (codes "database", nat 0)
        ∷ []))
      schema_ref default_config_key_order)
