-- ===== src/Websocket.antt =====
-- crates/redis-web-runtime/src/websocket.rs: commands as JSON arrays, and commands in RESP, over a
-- WebSocket. A message that comes in is one of `Message`; what is sent goes through `send`, which tells
-- if it was taken.
pub mod Loop
pub mod Subscriptions
mod Tests
use redis_web.Prelude.{
  ℕ, zero, suc, Bool, true, false, List, [], ◌∷◌, ◌++◌, Option, none, some, if◌then◌else◌, length,
  drop, Result, ok, err,
}
use redis_web.Text.{Bytes, codes, crlf}
use redis_web.Text.Ascii.{eq_ignore_ascii_case}
use redis_web.Text.Utf8.{from_utf8_lossy}
use redis_web.Resp.Reply.{Value, value_to_resp}
use redis_web.Resp.Command.{Parsed, RespError, incomplete, parse_command}
use redis_web.Http.Json.{Json, string, object, Members, member, no_members}
use redis_web.Request.{ExecutableCommand}
use redis_web.Handler.Convert.{redis_value_to_json}
use redis_web.Handler.Process.{Execution, CommandExecutionError, error_text}
use redis_web.Compat.Handlers.{Message, binary, text, ping, pong, close, failure}
use redis_web.Compat.Stream.{Drained, waiting, cleared, returned, crashed}

-- The backend with the sockets, whose state is `X`: the execution of a command, what is sent to the
-- client, a subscription to a channel, the JSON text of an array of strings, and that of a value.
pub record Connection : Type 1 where
  pub X : Type 0
  pub default_database : ℕ
  pub execute : ExecutableCommand → X → Execution × X
  pub send : Message → X → Bool × X
  pub subscribe_channel : Bytes → X → X
  pub parse_strings : Bytes → Option (List Bytes)
  pub json_to_string : Json → Bytes

module _ (connection : Connection) where
  open connection use {
    X, default_database, execute, send, subscribe_channel, parse_strings, json_to_string,
  }

  abbrev pub executable : Bytes → List Bytes → ExecutableCommand
  executable name args = record {
    target_database = default_database;
    command_name = name;
    args = args;
  }

  -- the frame of a reply, or of an error of either kind
  abbrev pub raw_frame : Execution → Bytes
  raw_frame (ok val) = value_to_resp val
  raw_frame (err error) = codes "-ERR " ++ (error_text error ++ crlf)

  -- The inner loop of `handle_socket_raw` over its buffer. An array without arguments is passed over.
  unfoldable pub drain_raw : ℕ → Bytes → X → Drained X
  drain_raw zero buffer x = Drained.out_of_fuel x
  drain_raw (suc fuel) buffer x = elim (parse_command buffer) [
    | Parsed.done ([], consumed) ↦ drain_raw fuel (drop consumed buffer) x
    | Parsed.done (name ∷ args, consumed) ↦
        let (execution, x1) = execute (executable (from_utf8_lossy name) args) x in
        let (delivered, x2) = send (binary (raw_frame execution)) x1 in
        elim delivered [ true ↦ drain_raw fuel (drop consumed buffer) x2 | false ↦ returned x2 ]
    | Parsed.need_more ↦ waiting buffer x
    | Parsed.bad error ↦ elim error [
      | incomplete ↦ waiting buffer x
      | _ ↦
          let (delivered, x1) = send (binary (codes "-ERR Invalid RESP" ++ crlf)) x in
          if delivered then cleared x1 else returned x1
    ]
    | Parsed.capacity_overflow ↦ crashed x
  ]

  -- one message, with fuel for each byte of the buffer
  unfoldable pub take_raw : Message → Bytes → X → Drained X
  take_raw (binary bytes) buffer x = drain_raw (suc (length (buffer ++ bytes))) (buffer ++ bytes) x
  take_raw (text bytes) buffer x = drain_raw (suc (length (buffer ++ bytes))) (buffer ++ bytes) x
  take_raw (ping payload) buffer x =
      let (delivered, x1) = send (pong payload) x in
      if delivered then waiting buffer x1 else returned x1
  take_raw (pong payload) buffer x = waiting buffer x
  take_raw close buffer x = returned x
  take_raw failure buffer x = returned x

  abbrev pub after_raw : (Bytes → X → Drained X) → Drained X → Drained X
  after_raw next (waiting rest x) = next rest x
  after_raw next (cleared x) = next [] x
  after_raw next (returned x) = returned x
  after_raw next (crashed x) = crashed x
  after_raw next (Drained.out_of_fuel x) = Drained.out_of_fuel x

  unfoldable pub handle_socket_raw : List Message → Bytes → X → Drained X
  handle_socket_raw [] buffer x = waiting buffer x
  handle_socket_raw (m ∷ ms) buffer x = after_raw (handle_socket_raw ms) (take_raw m buffer x)

  abbrev json_reply : Bytes → Execution → Json
  json_reply name (ok val) = object (member name (redis_value_to_json val) no_members)
  json_reply name (err error) =
      object (member (codes "error") (string (error_text error)) no_members)

  -- A command as a JSON array. Messages of a channel that it subscribes to are forwarded by a task of
  -- its own; what is sent is not waited for.
  unfoldable run_strings : List Bytes → X → X
  run_strings [] x = x
  run_strings (name ∷ args) x =
      if eq_ignore_ascii_case name (codes "SUBSCRIBE")
      then subscribe_first args x
      else (let (execution, x1) = execute (executable name args) x in
          (send (text (json_to_string (json_reply name execution))) x1).1)
    where
      subscribe_first : List Bytes → X → X
      subscribe_first [] x = x
      subscribe_first (channel ∷ _) x = subscribe_channel channel x

  abbrev strings_or_nothing : Option (List Bytes) → X → X
  strings_or_nothing none x = x
  strings_or_nothing (some strings) x = run_strings strings x

  -- `handle_socket`: other messages than text are passed over, and an error ends the loop.
  unfoldable handle_socket : List Message → X → X
  handle_socket [] x = x
  handle_socket (failure ∷ ms) x = x
  handle_socket (text bytes ∷ ms) x = handle_socket ms (strings_or_nothing (parse_strings bytes) x)
  handle_socket (binary bytes ∷ ms) x = handle_socket ms x
  handle_socket (ping bytes ∷ ms) x = handle_socket ms x
  handle_socket (pong bytes ∷ ms) x = handle_socket ms x
  handle_socket (close ∷ ms) x = handle_socket ms x
