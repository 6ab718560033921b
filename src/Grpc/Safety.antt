-- ===== src/Grpc/Safety.antt =====
-- Which calls of crates/redis-web-runtime/src/grpc.rs reach the backend.
use redis_web.Prelude.{
  ◌≤◌, ◌%◌, ◌^◌, true, false, some, is_empty, ltb, unwrap_or, Result, ok, err, ◌≡◌, ◌≢◌, refl, ◌⊎◌,
  inl, inr, arith, Bool-cases,
}
use redis_web.Text.{Bytes, codes}
use redis_web.Text.Decimal.{u8_max}
use redis_web.Request.{ExecutableCommand}
use redis_web.Acl.{AuthContext}
use redis_web.Handler.Process.{Host, AppState, Execution, service_unavailable, execution_failed}
use redis_web.Grpc.{
  CommandRequest, Peer, command_from_proto, unnamed, out_of_range, auth_context, is_allowed,
  authorize, execute, execute_parsed, replied, forbidden_status, empty_channel, subscribe,
}
use redis_web.Grpc.Value.{Status, RedisValue, redis_value_to_proto}
use redis_web.Grpc.Stream.{
  stream_reply, stream_command, status_to_stream_error, converted, streamed, CommandError,
}
use redis_web.PubSub.{PubSubManager}

module _ (host : Host) (localhost : host.Ip) (state : AppState host.Net) where
  -- what a request asks for, word for word: no number is cut to a byte
  abbrev pub asked : CommandRequest → ExecutableCommand
  asked request = record {
    target_database = unwrap_or request.database state.default_database;
    command_name = request.command;
    args = request.args;
  }

  -- what a request must be for its command to be executed
  abbrev pub IsExecutable : Peer host.Ip → CommandRequest → Type 0
  IsExecutable peer request =
      (is_empty request.command ≡ false)
      × ((unwrap_or request.database state.default_database ≤ u8_max)
          × (is_allowed host localhost state (auth_context host localhost peer) request.command
              ≡ true))

  command_from_proto-asked :
      (request : CommandRequest)
      → ((status : Status) × (command_from_proto state.default_database request ≡ err status))
        ⊎ ((is_empty request.command ≡ false)
            × ((unwrap_or request.database state.default_database ≤ u8_max)
                × (command_from_proto state.default_database request ≡ ok (asked request))))
  unfolding command_from_proto
  command_from_proto-asked request = elim (Bool-cases (is_empty request.command)) [
    | inl e ↦ inl (unnamed, rw (e) refl)
    | inr e ↦ elim (Bool-cases (ltb u8_max (unwrap_or request.database state.default_database))) [
      | inl large ↦ inl (out_of_range, rw (e, large) refl)
      | inr fits ↦
          let le : unwrap_or request.database state.default_database ≤ u8_max = ground arith in
          let same : unwrap_or request.database state.default_database % 2 ^ 8
              ≡ unwrap_or request.database state.default_database =
            omega arith in
          inr (e, (le, rw (e, fits, same) refl))
    ]
  ]

  -- If a unary call changes the backend, then the request has a command, its database is one of those
  -- from 0 to 255, the access list allows the command to the peer, and the change is that of executing
  -- exactly what was asked, on that database, once.
  pub execute_changes :
      (peer : Peer host.Ip) (request : CommandRequest) (s : host.S)
      → (execute host localhost state peer request s).1 ≢ s
      → IsExecutable peer request
        × ((execute host localhost state peer request s).1 ≡ (host.execute (asked request) s).1)
  unfolding execute authorize
  execute_changes peer request s changed = elim (command_from_proto-asked request) [
    | inl (status, h) ↦ absurd (changed (rw (h) refl))
    | inr (named, (fits, h)) ↦
        elim (Bool-cases
          (is_allowed host localhost state (auth_context host localhost peer) request.command)) [
            | inl a ↦ ((named, (fits, a)), rw (h, a) refl)
            | inr a ↦ absurd (changed (rw (h, a) refl))
          ]
  ]

  -- A subscription of a peer that the access list does not allow to SUBSCRIBE, or to no channel, is an
  -- error, and nothing is asked of Redis for it.
  subscribe-forbidden :
      (peer : Peer host.Ip) (channel : Bytes) (m : PubSubManager)
      → ((is_allowed host localhost state (auth_context host localhost peer) (codes "SUBSCRIBE")
            ≡ false)
          ⊎ (is_empty channel ≡ true))
      → ((status : Status) × (subscribe host localhost state peer channel m ≡ (err status, m)))
  unfolding subscribe authorize
  subscribe-forbidden peer channel m (inr e) = (empty_channel, rw (e) refl)
  subscribe-forbidden peer channel m (inl a) = elim (Bool-cases (is_empty channel)) [
    | inl e ↦ (empty_channel, rw (e) refl)
    | inr e ↦ (forbidden_status, rw (e, a) refl)
  ]

  -- the two ways in which an error is told
  abbrev pub IsSameReply : Result Status RedisValue → Result CommandError RedisValue → Type 0
  IsSameReply (ok v) r = r ≡ ok v
  IsSameReply (err status) r = (e : CommandError) × ((r ≡ err e) × (e.message ≡ status.message))

  converted-IsSameReply : (r : Result Status RedisValue) → IsSameReply r (converted r)
  converted-IsSameReply (ok v) = refl
  converted-IsSameReply (err status) = (status_to_stream_error status, (refl, refl))

  streamed-IsSameReply : (e : Execution) → IsSameReply (replied host localhost e) (streamed e)
  streamed-IsSameReply (ok v) = converted-IsSameReply (redis_value_to_proto v)
  streamed-IsSameReply (err (service_unavailable m)) =
      (record { error_kind = 1; message = m }, (refl, refl))
  streamed-IsSameReply (err (execution_failed m)) =
      (record { error_kind = 2; message = m }, (refl, refl))

  commands_agree :
      (auth : AuthContext host.Ip) (r : Result Status ExecutableCommand) (s : host.S)
      → ((stream_command host localhost state auth r s).1
          ≡ (execute_parsed host localhost state auth r s).1)
        × (IsSameReply
            (execute_parsed host localhost state auth r s).0
            (stream_command host localhost state auth r s).0)
  unfolding authorize
  commands_agree auth (err status) s = (refl, (status_to_stream_error status, (refl, refl)))
  commands_agree auth (ok command) s =
      elim (Bool-cases (is_allowed host localhost state auth command.command_name)) [
        | inl a ↦ rw (a) (refl, streamed-IsSameReply (host.execute command s).0)
        | inr a ↦ rw (a) (refl, (status_to_stream_error forbidden_status, (refl, refl)))
      ]

  -- A command in a stream does what it does in a unary call: the same change of the backend, the same
  -- value or an error with the same message.
  pub stream_reply-execute :
      (peer : Peer host.Ip) (id : Bytes) (request : CommandRequest) (s : host.S)
      → (let (reply, s') =
            stream_reply host localhost state
              (auth_context host localhost peer)
              (record { correlation_id = id; command = some request })
              s in
          let (result, s'') = execute host localhost state peer request s in
          (s' ≡ s'') × (IsSameReply result reply.result))
  unfolding execute stream_reply authorize
  stream_reply-execute peer id request s =
      commands_agree (auth_context host localhost peer)
        (command_from_proto state.default_database request) s
