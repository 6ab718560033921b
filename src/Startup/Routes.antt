-- ===== src/Startup/Routes.antt =====
-- `build_router_from_components` of crates/redis-web-runtime/src/server.rs: which path and method have
-- which handler. The router that matches a request with them is `axum`'s.
use redis_web.Prelude.{ℕ, Bool, true, false, Option, none, some, List, [], ◌∷◌, ◌++◌, unwrap_or}
use redis_web.Text.{Bytes, codes}
use redis_web.Config.Settings.{Config, default_http_max_request_size}

pub data Method : Type 0 where
  get post put options delete : Method

pub data Handler : Type 0 where
  handle_get handle_post handle_put handle_options handle_subscribe : Handler
  create_session delete_session command_raw stream_raw compat_ws : Handler
  default_root_handler : Bytes → Handler
  ws_handler ws_handler_raw : Handler

abbrev Route : Type 0
Route = Bytes × List (Method × Handler)

abbrev Router : Type 0
Router = List Route

-- the prefix of the compat endpoints, if they are served
abbrev compat_routes : Option Bytes → Router
compat_routes none = []
compat_routes (some prefix) =
    (prefix ++ codes "/session", (post, create_session) ∷ (options, handle_options) ∷ [])
    ∷ (prefix ++ codes "/session/{session_id}", (delete, delete_session) ∷ [])
    ∷ (prefix ++ codes "/cmd/{*session_id}", (post, command_raw) ∷ [])
    ∷ (prefix ++ codes "/stream/{*session_id}", (get, stream_raw) ∷ [])
    ∷ (prefix ++ codes "/ws/{session_id}", (get, compat_ws) ∷ [])
    ∷ []

abbrev root_route : Option Bytes → Route
root_route (some default_root) =
    (codes "/", (get, default_root_handler default_root) ∷ (options, handle_options) ∷ [])
root_route none = (codes "/", (options, handle_options) ∷ [])

abbrev websocket_routes : Bool → Router
websocket_routes true =
    (codes "/.json", (get, ws_handler) ∷ []) ∷ (codes "/.raw", (get, ws_handler_raw) ∷ []) ∷ []
websocket_routes false = []

-- the routes, in the order in which they are added
unfoldable build_router : Config → Option Bytes → Router
build_router config compat_prefix =
    (
      codes "/{*command}",
      (get, handle_get) ∷ (post, handle_post) ∷ (put, handle_put) ∷ (options, handle_options) ∷ [],
    )
    ∷ (codes "/SUBSCRIBE/{*channel}", (get, handle_subscribe) ∷ [])
    ∷ (compat_routes compat_prefix
        ++ (root_route config.default_root ∷ websocket_routes config.websockets))

-- the limit of a request's body
unfoldable body_limit : Config → ℕ
body_limit config = unwrap_or config.http_max_request_size default_http_max_request_size
