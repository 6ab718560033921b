-- ===== src/Compat/Session.antt =====
-- `CompatSession` of crates/redis-web-runtime/src/compat.rs: the execution of a command, and the task
-- that holds the subscriptions.
use redis_web.Prelude.{
  ℕ, ◌-◌, Bool, true, false, ◌&&◌, not, Option, none, some, List, [], ◌∷◌, ◌++◌, if◌then◌else◌,
  Result, ok, err,
}
use redis_web.Text.{Bytes, codes, crlf}
use redis_web.Text.Ascii.{to_ascii_uppercase}
use redis_web.Text.Utf8.{from_utf8_lossy}
use redis_web.Resp.Reply.{Value, value_to_resp, array, value, bulk_string, no_values}
use redis_web.Compat.Control.{Control, control_of, handle_pubsub_command}

-- The Redis server and the clock, whose state is `S`: the reading of the clock, opening a connection
-- for commands (an error has its message) and one for subscriptions, a command on the first and a
-- subscription call on the second, and fresh session ids. `delivers` tells whether the request reaches
-- the mailbox of a task that has come to its end.
pub record Backend : Type 1 where
  pub S : Type 0
  pub clock : S → ℕ
  pub connect : S → Option Bytes × S
  pub new_id : S → Bytes × S
  pub query : Bytes → List Bytes → S → Result Bytes Value × S
  pub open_pubsub : S → Option Bytes × S
  pub call : Control → Bytes → S → Option Bytes × S
  pub delivers : S → Bool

-- The task of the subscriptions: not started, at work with its channels and patterns, or ended.
pub data Task : Type 0 where
  unstarted ended : Task
  running : List Bytes → List Bytes → Task

-- the fields of a session, and the frames that it has pushed, the latest last
pub record Session : Type 0 where
  pub id : Bytes
  pub created_at : ℕ
  pub last_access : ℕ
  pub has_pubsub : Bool
  pub http_pubsub_warning_emitted : Bool
  pub task : Task
  pub pushed : List Bytes

abbrev error_frame : Bytes → Bytes
error_frame message = codes "-ERR " ++ (message ++ crlf)

abbrev concat : List Bytes → Bytes
concat [] = []
concat (frame ∷ frames) = frame ++ concat frames

abbrev control_reply : Result Bytes (List Bytes) → Bytes
control_reply (ok frames) = concat frames
control_reply (err error) = error_frame error

-- the frame of a message, from a pattern or from a channel
unfoldable push_frame : Option Bytes → Bytes → Bytes → Bytes
push_frame (some pattern) channel payload = value_to_resp (
    array (
      value (bulk_string (codes "pmessage")) (
        value (bulk_string pattern)
          (value (bulk_string channel) (value (bulk_string payload) no_values)))))
push_frame none channel payload = value_to_resp (
    array (
      value (bulk_string (codes "message"))
        (value (bulk_string channel) (value (bulk_string payload) no_values))))

abbrev pushing : Bytes → Session → Session
pushing frame session = record session { pushed = session.pushed ++ frame ∷ [] }

-- what the task does with the next item of its stream: a message, or the end of the stream
pub data Item : Type 0 where
  message : Option Bytes → Bytes → Bytes → Item
  stream_end : Item

unfoldable on_item : Item → Session → Session
unfolding push_frame
on_item (message pattern channel payload) session =
    pushing (push_frame pattern channel payload) session
on_item stream_end session = record (pushing (codes "-ERR pubsub stream ended" ++ crlf) session) {
  task = ended;
}

-- `subscribe_receiver` and the warning about streams over HTTP, which is logged once
unfoldable pub maybe_emit_http_pubsub_warning : Bool → Session → Session
maybe_emit_http_pubsub_warning muted session =
    if session.has_pubsub && not muted
    then record session { http_pubsub_warning_emitted = true }
    else session

module _ (backend : Backend) where
  open backend use {S, clock, query, open_pubsub, call, delivers}

  unfoldable pub touch : Session → S → Session
  touch session s = record session { last_access = clock s }

  unfoldable pub idle_for : Session → S → ℕ
  idle_for session s = clock s - session.last_access

  -- A task that is started opens its connection, or pushes the error and ends.
  unfoldable pub ensure_pubsub_task : Session → S → Session × S
  ensure_pubsub_task session s = elim session.task [
    | unstarted ↦
        let (failure, s1) = open_pubsub s in
        elim failure [
          | none ↦ (record session { task = running [] [] }, s1)
          | some error ↦ (
            record (pushing (codes "-ERR pubsub init failed: " ++ (error ++ crlf)) session) {
              task = ended;
            },
            s1,
          )
        ]
    | running channels patterns ↦ (session, s)
    | ended ↦ (session, s)
  ]

  -- The request to the task, and its reply; a task that has ended does not reply.
  unfoldable pub ask_task : Bytes → List Bytes → Session → S → Bytes × Session × S
  ask_task command args session s = elim session.task [
    | running channels patterns ↦
        let (replies, channels', patterns', s1) =
          handle_pubsub_command call command args channels patterns s in
        (control_reply replies, record session { task = running channels' patterns' }, s1)
    | unstarted ↦ (error_frame (codes "pubsub response channel closed"), session, s)
    | ended ↦ (
      error_frame (
          if delivers s
          then codes "pubsub response channel closed"
          else codes "pubsub session is unavailable"),
      session,
      s,
    )
  ]

  unfoldable pub execute_pubsub_control : Bytes → List Bytes → Session → S → Bytes × Session × S
  execute_pubsub_control command args session s =
      let (session1, s1) = ensure_pubsub_task (record session { has_pubsub = true }) s in
      ask_task command args session1 s1

  abbrev is_control : Bytes → Bool
  is_control name = elim (control_of name) [ none ↦ false | some control ↦ true ]

  abbrev query_reply : Result Bytes Value → Bytes
  query_reply (ok val) = value_to_resp val
  query_reply (err error) = error_frame error

  abbrev run_query : Bytes → List Bytes → Session → S → Bytes × Session × S
  run_query name args session s =
      let (result, s1) = query name args s in (query_reply result, session, s1)

  unfoldable pub execute_command : List Bytes → Session × S → Bytes × Session × S
  execute_command [] (session, s) = (error_frame (codes "Empty command"), touch session s, s)
  execute_command (arg ∷ args) (session, s) =
      let name = to_ascii_uppercase (from_utf8_lossy arg) in
      if is_control name
      then execute_pubsub_control name args (touch session s) s
      else run_query name args (touch session s) s
