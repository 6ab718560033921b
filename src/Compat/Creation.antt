-- ===== src/Compat/Creation.antt =====
-- The settings of crates/redis-web-runtime/src/compat.rs, with `CompatHiRedisConfig` of
-- crates/redis-web-core/src/config.rs, and the handler that creates a session. The clock and the
-- durations are in nanoseconds.
use redis_web.Prelude.{
  ℕ, ◌-◌, ◌*◌, ◌/◌, Bool, false, Option, none, some, ◌++◌, unwrap_or, Result, ok, err,
}
use redis_web.Text.{Bytes, codes}
use redis_web.Text.Decimal.{pos}
use redis_web.Http.Json.{Json, number, string, object, no_members, insert}
use redis_web.Http.Response.{Response, with_cors, typed}
use redis_web.Format.Reply.{error_json}
use redis_web.Compat.Session.{Backend, Session}
use redis_web.Compat.Manager.{
  CompatSessionSettings, CreateSessionError, limit_reached, backend_unavailable, Sessions,
  create_session,
}
use redis_web.Compat.Handlers.{normalize_prefix, not_found}

pub record CompatHiRedisConfig : Type 0 where
  pub enabled : Bool
  pub path_prefix : Bytes
  pub session_ttl_sec : ℕ
  pub max_sessions : ℕ
  pub max_pipeline_commands : ℕ

abbrev default_config : CompatHiRedisConfig
default_config = record {
  enabled = false;
  path_prefix = codes "/__compat";
  session_ttl_sec = 300;
  max_sessions = 1024;
  max_pipeline_commands = 256;
}

abbrev pub second : ℕ
second = 1000000000

abbrev millisecond : ℕ
millisecond = 1000000

unfoldable pub from_config : Option CompatHiRedisConfig → CompatSessionSettings
from_config compat_hiredis =
    let cfg = unwrap_or compat_hiredis default_config in
    record {
      enabled = cfg.enabled;
      path_prefix = normalize_prefix cfg.path_prefix;
      session_ttl = cfg.session_ttl_sec * second;
      max_sessions = cfg.max_sessions;
      max_pipeline_commands = cfg.max_pipeline_commands;
    }

module _ (backend : Backend) (json_to_string : Json → Bytes) where
  abbrev json_response : ℕ → Json → Response
  json_response status payload =
      with_cors (typed status (codes "application/json") (json_to_string payload))

  -- the description of a new session, with where to reach it
  unfoldable session_json : CompatSessionSettings → Bytes → Session → backend.S → Json
  session_json settings host session s =
      let at = codes "://" ++ (host ++ settings.path_prefix) in
      object (
        insert (codes "id") (string session.id) (
          insert (codes "session_id") (string session.id) (
            insert (codes "created_at_ms")
              (number (pos ((backend.clock s - session.created_at) / millisecond)))
              (insert (codes "ws_url") (string (codes "ws" ++ (at ++ (codes "/ws/" ++ session.id))))
                (insert (codes "cmd_url")
                  (string (codes "http" ++ (at ++ (codes "/cmd/" ++ (session.id ++ codes ".raw")))))
                  (insert (codes "stream_url")
                    (string
                      (codes "http" ++ (at ++ (codes "/stream/" ++ (session.id ++ codes ".raw")))))
                    (insert (codes "session_ttl_sec") (number (pos (settings.session_ttl / second)))
                      no_members)))))))

  abbrev creation_response :
      CompatSessionSettings → Bytes → Result CreateSessionError Session → backend.S → Response
  creation_response settings host (ok session) s =
      json_response 201 (session_json settings host session s)
  creation_response settings host (err limit_reached) s =
      json_response 429 (error_json json_to_string (codes "compat session limit reached"))
  creation_response settings host (err (backend_unavailable message)) s =
      json_response 503 (error_json json_to_string message)

  -- `create_session`, the handler; `host` is the header, if it is text.
  unfoldable handle_create_session :
      Option CompatSessionSettings
      → Option Bytes
      → Sessions
      → backend.S
      → Response × Sessions × backend.S
  handle_create_session none host sessions s = (not_found (codes "compat disabled"), sessions, s)
  handle_create_session (some settings) host sessions s =
      let (created, sessions1, s1) = create_session backend settings sessions s in
      (creation_response settings (unwrap_or host (codes "127.0.0.1")) created s1, sessions1, s1)
