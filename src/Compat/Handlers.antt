-- ===== src/Compat/Handlers.antt =====
-- The handlers of crates/redis-web-runtime/src/compat.rs under the prefix of the sessions.
use redis_web.Prelude.{
  ℕ, ◌-◌, Bool, true, ◌&&◌, Option, none, some, List, [], ◌∷◌, ◌++◌, ◌==◌, leb, if◌then◌else◌,
  is_empty, length, take, drop,
}
use redis_web.Text.{Bytes, codes, crlf, eq_bytes}
use redis_web.Text.Trim.{trim}
use redis_web.Text.Utf8.{from_utf8_lossy}
use redis_web.Http.Response.{Response, with_cors, typed, untyped}
use redis_web.Acl.{Acl, check}
use redis_web.Compat.Session.{Backend, Session, execute_command, maybe_emit_http_pubsub_warning}
use redis_web.Compat.Manager.{CompatSessionSettings, Sessions, store, get_session, remove_session}
use redis_web.Compat.Stream.{
  Pipeline, finished, limit_exceeded, incomplete, invalid_command, panicked, run_body, Drained,
  waiting, cleared, returned, crashed, drain,
}

-- `while v.ends_with('/') { v.pop() }`
unfoldable pub trim_end_slashes : Bytes → Bytes
trim_end_slashes [] = []
trim_end_slashes (c ∷ s) =
    let rest = trim_end_slashes s in if is_empty rest && (c == b'/') then [] else c ∷ rest

-- the same loop, as long as more than one byte is left
abbrev pub pop_slashes : Bytes → Bytes
pop_slashes [] = []
pop_slashes (c ∷ s) = c ∷ trim_end_slashes s

abbrev pub with_slash : Bytes → Bytes
with_slash [] = b'/' ∷ []
with_slash (c ∷ s) = if c == b'/' then c ∷ s else b'/' ∷ c ∷ s

unfoldable pub normalize_prefix : Bytes → Bytes
normalize_prefix prefix =
    let v = pop_slashes (with_slash (trim prefix)) in if is_empty v then codes "/__compat" else v

-- `strip_suffix(".raw")`
unfoldable pub normalize_raw_session_path : Bytes → Bytes
normalize_raw_session_path raw =
    let n = length raw - 4 in
    if leb 4 (length raw) && eq_bytes (drop n raw) (codes ".raw") then take n raw else raw

abbrev pub resp_plain : ℕ → Bytes → Response
resp_plain status payload = typed status (codes "text/plain") payload

abbrev pub not_found : Bytes → Response
not_found body = with_cors (untyped 404 body)

module _ {Ip Net : Type 0} (contains : Net → Ip → Bool) (base64_decode : Bytes → Option Bytes)
    (acl : Acl Net) where
  unfoldable is_command_allowed : Ip → Option Bytes → List Bytes → Bool
  is_command_allowed ip auth_header [] = true
  is_command_allowed ip auth_header (name ∷ args) =
      check contains base64_decode acl ip (from_utf8_lossy name) auth_header

module _ (backend : Backend) (allowed : List Bytes → Bool) where
  open backend use {S}

  -- The answer to a pipeline; `none` is the panic of the parser, and of a loop without fuel, which
  -- does not occur.
  abbrev pub pipeline_response : Pipeline (Session × S) → Option Response × Session × S
  pipeline_response (finished out (session, s)) =
      (some (with_cors (resp_plain 200 out)), session, s)
  pipeline_response (limit_exceeded (session, s)) = (
    some (with_cors (resp_plain 400 (codes "-ERR Pipelined command limit exceeded" ++ crlf))),
    session,
    s,
  )
  pipeline_response (incomplete (session, s)) =
      (some (with_cors (resp_plain 400 (codes "-ERR Incomplete RESP command" ++ crlf))), session, s)
  pipeline_response (invalid_command (session, s)) =
      (some (with_cors (resp_plain 400 (codes "-ERR Invalid RESP command" ++ crlf))), session, s)
  pipeline_response (panicked (session, s)) = (none, session, s)
  pipeline_response (Pipeline.out_of_fuel (session, s)) = (none, session, s)

  abbrev pub execute_in : List Bytes → Session × S → Bytes × (Session × S)
  execute_in args x =
      let (frame, session, s) = execute_command backend args x in (frame, (session, s))

  abbrev pub body_response : ℕ → Bytes → Session → S → Option Response × Session × S
  body_response max body session s =
      if is_empty body
      then (some (with_cors (resp_plain 400 (codes "-ERR Empty command body" ++ crlf))), session, s)
      else pipeline_response (run_body allowed execute_in max body (session, s))

  -- the session that the path names, with the settings of a manager that there may be not
  unfoldable pub command_raw :
      Option CompatSessionSettings → Bytes → Bytes → Sessions → S → Option Response × Sessions × S
  command_raw none session_path body sessions s =
      (some (not_found (codes "compat disabled")), sessions, s)
  command_raw (some settings) session_path body sessions s =
      let id = normalize_raw_session_path session_path in
      let (found, sessions1) = get_session backend settings id sessions s in
      elim found [
        | none ↦ (some (not_found (codes "session not found")), sessions1, s)
        | some session ↦
            let (response, session', s') =
              body_response settings.max_pipeline_commands body session s in
            (response, store id (some session') sessions1, s')
      ]

  unfoldable pub delete_session :
      Option CompatSessionSettings → Bytes → Sessions → Response × Sessions
  delete_session none id sessions = (not_found (codes "compat disabled"), sessions)
  delete_session (some settings) id sessions =
      let (removed, sessions') = remove_session id sessions in
      (
        if removed then with_cors (untyped 204 []) else not_found (codes "session not found"),
        sessions',
      )

  -- `stream_raw` up to the stream of its body, which is the frames that the session pushes
  unfoldable pub stream_raw :
      Bool → Option CompatSessionSettings → Bytes → Sessions → S → Response × Sessions
  stream_raw muted none session_path sessions s = (not_found (codes "compat disabled"), sessions)
  stream_raw muted (some settings) session_path sessions s =
      let id = normalize_raw_session_path session_path in
      let (found, sessions1) = get_session backend settings id sessions s in
      elim found [
        | none ↦ (not_found (codes "session not found"), sessions1)
        | some session ↦ (
          with_cors (typed 200 (codes "text/plain") []),
          store id (some (maybe_emit_http_pubsub_warning muted session)) sessions1,
        )
      ]

-- The messages of a WebSocket, and the end of the connection by an error.
pub data Message : Type 0 where
  binary text ping pong : Bytes → Message
  close failure : Message

module _ {X : Type 0} (allowed : List Bytes → Bool) (execute : List Bytes → X → Bytes × X)
    (send : Message → X → Bool × X) where
  abbrev pub send_frame : Bytes → X → Bool × X
  send_frame frame x = send (binary frame) x

  -- One message: bytes are read as far as they hold whole commands, a ping is answered.
  unfoldable pub take_message : Message → Bytes → X → Drained X
  take_message (binary bytes) buffer x = drain allowed execute send_frame (buffer ++ bytes) x
  take_message (text bytes) buffer x = drain allowed execute send_frame (buffer ++ bytes) x
  take_message (ping payload) buffer x =
      let (delivered, x1) = send (pong payload) x in
      if delivered then waiting buffer x1 else returned x1
  take_message (pong payload) buffer x = waiting buffer x
  take_message close buffer x = returned x
  take_message failure buffer x = returned x

  -- What the loop over the messages does after one: it goes on with the buffer, or it has ended.
  abbrev pub after_message : (Bytes → X → Drained X) → Drained X → Drained X
  after_message next (waiting rest x) = next rest x
  after_message next (cleared x) = next [] x
  after_message next (returned x) = returned x
  after_message next (crashed x) = crashed x
  after_message next (Drained.out_of_fuel x) = Drained.out_of_fuel x

  -- `handle_ws`: the loop over the messages, with the bytes that are not read yet.
  unfoldable pub handle_ws : List Message → Bytes → X → Drained X
  handle_ws [] buffer x = waiting buffer x
  handle_ws (m ∷ ms) buffer x = after_message (handle_ws ms) (take_message m buffer x)
