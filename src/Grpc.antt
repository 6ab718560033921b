-- ===== src/Grpc.antt =====
-- crates/redis-web-runtime/src/grpc.rs: the gateway's calls, over the messages of
-- crates/redis-web-runtime/proto. Strings are bytes; the `kind` of a reply is always set.
pub mod Value
pub mod Stream
pub mod Safety
pub mod Serving
mod Tests
use redis_web.Prelude.{
  ℕ, ◌+◌, ◌*◌, ◌%◌, ◌^◌, Bool, true, false, Option, none, some, List, [], ◌∷◌, ◌++◌, ltb, is_empty,
  unwrap_or, if◌then◌else◌, Result, ok, err, ◌>>=◌,
}
use redis_web.Text.{Bytes, codes}
use redis_web.Text.Decimal.{u8_max}
use redis_web.Request.{ExecutableCommand}
use redis_web.Acl.{AuthContext, check_auth}
use redis_web.Handler.Process.{
  CommandExecutionError, service_unavailable, execution_failed, Execution, Host, AppState,
}
use redis_web.Grpc.Value.{
  Status, Code, invalid_argument, permission_denied, unavailable, internal, RedisValue,
  redis_value_to_proto,
}
use redis_web.PubSub
use redis_web.PubSub.{PubSubManager}
use redis_web.PubSub.Stream.{Received, payload, lagged, closed}

pub record CommandRequest : Type 0 where
  pub command : Bytes
  pub database : Option ℕ
  pub args : List Bytes

pub record SubscribeEvent : Type 0 where
  pub channel : Bytes
  pub payload : Bytes

-- What is read of a request besides its message: the peer's address, if it is known, and the
-- `authorization` metadata, if it is a string.
pub record Peer (Ip : Type 0) : Type 0 where
  pub remote_addr : Option Ip
  pub authorization : Option Bytes

abbrev pub unnamed : Status
unnamed = record { code = invalid_argument; message = codes "command must not be empty" }

abbrev pub out_of_range : Status
out_of_range = record {
  code = invalid_argument;
  message = codes "database must be between 0 and 255";
}

-- The database is a `u32`; the default one a `u8`.
unfoldable pub command_from_proto : ℕ → CommandRequest → Result Status ExecutableCommand
command_from_proto default_database request =
    if is_empty request.command
    then err unnamed
    else if ltb u8_max (unwrap_or request.database default_database)
    then err out_of_range
    else ok (record {
      target_database = unwrap_or request.database default_database % 2 ^ 8;
      command_name = request.command;
      args = request.args;
    })

abbrev command_error_to_status : CommandExecutionError → Status
command_error_to_status (service_unavailable message) = record {
  code = unavailable;
  message = message;
}
command_error_to_status (execution_failed message) = record { code = internal; message = message }

abbrev pub forbidden_status : Status
forbidden_status = record { code = permission_denied; message = codes "Forbidden" }

abbrev pub empty_channel : Status
empty_channel = record { code = invalid_argument; message = codes "channel must not be empty" }

-- `localhost` is 127.0.0.1.
module _ (host : Host) (localhost : host.Ip) where
  unfoldable pub auth_context : Peer host.Ip → AuthContext host.Ip
  auth_context peer = record {
    client_ip = unwrap_or peer.remote_addr localhost;
    authorization = peer.authorization;
  }

  abbrev pub is_allowed : AppState host.Net → AuthContext host.Ip → Bytes → Bool
  is_allowed state auth command =
      check_auth host.net_contains host.base64_decode state.acl auth command

  unfoldable pub authorize :
      AppState host.Net → AuthContext host.Ip → Bytes → Result {0, 0} Status Unit
  authorize state auth command =
      if is_allowed state auth command then ok _ else err forbidden_status

  abbrev pub replied : Execution → Result Status RedisValue
  replied (ok value) = redis_value_to_proto value
  replied (err error) = err (command_error_to_status error)

  abbrev execute_authorized :
      Result {0, 0} Status Unit → ExecutableCommand → host.S → Result Status RedisValue × host.S
  execute_authorized (err status) command s = (err status, s)
  execute_authorized (ok _) command s =
      let (execution, s') = host.execute command s in (replied execution, s')

  abbrev pub execute_parsed :
      AppState host.Net
      → AuthContext host.Ip
      → Result Status ExecutableCommand
      → host.S
      → Result Status RedisValue × host.S
  execute_parsed state auth (err status) s = (err status, s)
  execute_parsed state auth (ok command) s =
      execute_authorized (authorize state auth command.command_name) command s

  -- the unary call
  unfoldable pub execute :
      AppState host.Net → Peer host.Ip → CommandRequest → host.S → Result Status RedisValue × host.S
  execute state peer request s =
      execute_parsed state (auth_context peer) (command_from_proto state.default_database request) s

  -- the events of a subscription: a receiver that lags goes on
  unfoldable pub subscribe_events : Bytes → List Received → List SubscribeEvent
  subscribe_events channel [] = []
  subscribe_events channel (payload msg ∷ received) =
      record { channel = channel; payload = msg } ∷ subscribe_events channel received
  subscribe_events channel (lagged ∷ received) = subscribe_events channel received
  subscribe_events channel (closed ∷ received) = []

  abbrev subscribe_authorized :
      Result {0, 0} Status Unit
      → Bytes
      → PubSubManager
      → Result Status (List Received → List SubscribeEvent) × PubSubManager
  subscribe_authorized (err status) channel m = (err status, m)
  subscribe_authorized (ok _) channel m =
      (ok (subscribe_events channel), PubSub.subscribe channel m)

  unfoldable pub subscribe :
      AppState host.Net
      → Peer host.Ip
      → Bytes
      → PubSubManager
      → Result Status (List Received → List SubscribeEvent) × PubSubManager
  subscribe state peer channel m =
      if is_empty channel
      then (err empty_channel, m)
      else subscribe_authorized (authorize state (auth_context peer) (codes "SUBSCRIBE")) channel m
