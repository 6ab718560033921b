-- ===== src/Redis/Clients.antt =====
-- What the connections of crates/redis-web-runtime/src/redis.rs are set to.
use redis_web.Prelude.{
  ℕ, ◌≤◌, ◌<◌, Bool, true, false, Option, none, some, Result, ok, ◌>>=◌, ◌≡◌, ◌⊎◌, inl, inr, refl,
  arith,
}
use redis_web.Text.{Bytes}
use redis_web.Config.Settings.{Config, get_redis_url}
use redis_web.Redis.Connection.{
  RedisError, resp2, ConnectionAddr, tcp, tcp_tls, unix, other_addr, ConnectionInfo, Client,
  ssl_enabled, keepalive_time_and_interval, keepalive_setting, maybe_apply_tcp_keepalive,
  validate_unix_socket_path, connection_info_for_unix_socket_redis, unix_settings,
  tcp_connection_info, pool_connection_info, create_client,
}

-- does an address get keep-alive probes?
abbrev pub is_tcp : ConnectionAddr → Bool
is_tcp (tcp _ _) = true
is_tcp (tcp_tls _ _) = true
is_tcp (unix _) = false
is_tcp other_addr = false

-- the probes that a configuration asks for at an address
abbrev pub probes : Option ℕ → Bool → Option (ℕ × ℕ) → Option (ℕ × ℕ)
probes (some n) true before = some (keepalive_time_and_interval n)
probes _ _ before = before

-- The interval of the probes is at least a second, and at most the idle time.
keepalive_interval_le :
    (n : ℕ)
    → 0 < n
    → (1 ≤ (keepalive_time_and_interval n).1)
      × (((keepalive_time_and_interval n).1 ≤ n) × ((keepalive_time_and_interval n).0 ≡ n))
unfolding keepalive_time_and_interval
keepalive_interval_le n h = ground (arith, h)

module _ (client : Client) where
  open client use {metadata, parse_url, addr_info}

  -- A pool that can connect speaks RESP2. It connects over the socket, if one is configured, TLS is
  -- off and the path is a socket, with the configured database and credentials; without a
  -- configured socket it connects to the address that is parsed from the URL, with the configured
  -- probes if that address is one of TCP, and the address's own settings otherwise.
  pub pool_connection_info_lem :
      (config : Config) (info : ConnectionInfo)
      → pool_connection_info client config ≡ ok info
      → (info.redis_settings.protocol ≡ resp2)
        × (((path : Bytes) × ((config.redis_socket ≡ some path)
                × ((ssl_enabled config ≡ false)
                    × ((metadata path ≡ ok true)
                        × (info.redis_settings ≡ unix_settings client config)))))
            ⊎ ((config.redis_socket ≡ none)
                × ((parsed : ConnectionInfo) × ((parse_url (get_redis_url config) ≡ ok parsed)
                      × (info.keepalive
                          ≡ probes
                              (keepalive_setting config)
                              (is_tcp parsed.addr)
                              parsed.keepalive)))))
  unfolding pool_connection_info tcp_connection_info connection_info_for_unix_socket_redis
      validate_unix_socket_path maybe_apply_tcp_keepalive
  pool_connection_info_lem config info h = ground arith

  -- A dedicated client is opened with the same settings as the pool, unless a socket and TLS are both
  -- configured, which the pool refuses.
  create_client-pool_connection_info :
      {C : Type 0} (open_client : ConnectionInfo → Result RedisError C) (config : Config)
      → ((ssl_enabled config ≡ false) ⊎ (config.redis_socket ≡ none))
      → create_client client open_client config
        ≡ (pool_connection_info client config >>= open_client)
  unfolding create_client pool_connection_info
  create_client-pool_connection_info open_client config (inr e) = rw (e) refl
  create_client-pool_connection_info open_client config (inl e) = ground arith
