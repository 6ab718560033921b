-- ===== src/Compat/Forwarding.antt =====
-- The frames that a session pushes, on their way to a client of crates/redis-web-runtime/src/compat.rs:
-- the body of `stream_raw`, the two tasks of `handle_ws`, and `ws_raw`.
use redis_web.Prelude.{Bool, true, false, Option, none, some, List, [], ◌∷◌}
use redis_web.Text.{Bytes, codes}
use redis_web.Http.Response.{Response}
use redis_web.PubSub.Stream.{Received, payload, lagged, closed}
use redis_web.Compat.Session.{Backend, Session}
use redis_web.Compat.Manager.{CompatSessionSettings, Sessions, get_session}
use redis_web.Compat.Handlers.{Message, binary, not_found}

-- the chunks of the body: a receiver that lags goes on
unfoldable pub stream_frames : List Received → List Bytes
stream_frames [] = []
stream_frames (payload frame ∷ received) = frame ∷ stream_frames received
stream_frames (lagged ∷ received) = stream_frames received
stream_frames (closed ∷ received) = []

-- `send` tells whether a message was taken, by the channel of the first task or by the socket.
module _ {X : Type 0} (send : Message → X → Bool × X) where
  abbrev pub if_taken : Bool × X → (X → X) → X
  if_taken (true, x) next = next x
  if_taken (false, x) next = x

  -- the task that hands the pushed frames to the channel
  unfoldable pub forward_pushes : List Received → X → X
  forward_pushes [] x = x
  forward_pushes (payload frame ∷ received) x =
      if_taken (send (binary frame) x) (forward_pushes received)
  forward_pushes (lagged ∷ received) x = forward_pushes received x
  forward_pushes (closed ∷ received) x = x

  -- the task that writes what the channel holds to the socket
  unfoldable pub write_messages : List Message → X → X
  write_messages [] x = x
  write_messages (m ∷ ms) x = if_taken (send m x) (write_messages ms)

-- A request for a WebSocket is refused, or the connection goes on with the session and the
-- authorization that its headers have.
pub data Upgrade : Type 0 where
  refused : Response → Upgrade
  upgraded : Session → Option Bytes → Upgrade

-- `auth_header` is what `extract_auth_header` reads of the request.
module _ (backend : Backend) (auth_header : Option Bytes) where
  abbrev upgrade : Option Session → Upgrade
  upgrade none = refused (not_found (codes "session not found"))
  upgrade (some session) = upgraded session auth_header

  unfoldable pub ws_raw :
      Option CompatSessionSettings → Bytes → Sessions → backend.S → Upgrade × Sessions
  ws_raw none id sessions s = (refused (not_found (codes "compat disabled")), sessions)
  ws_raw (some settings) id sessions s =
      let (found, sessions') = get_session backend settings id sessions s in
      (upgrade found, sessions')
