-- ===== src/Gateway.antt =====
-- The gateway put together, as crates/redis-web-runtime/src/server.rs does: the handlers of HTTP and of
-- gRPC share one executor, and with it the pools of crates/redis-web-runtime/src/redis.rs.
pub mod Pools
use redis_web.Prelude.{ℕ, List, [], ◌∷◌, Result}
use redis_web.Request.{ExecutableCommand}
use redis_web.Handler.Process.{Host, HttpRequest, AppState, process_request}
use redis_web.Redis.Pools.{DatabasePoolRegistry, Pooling}
use redis_web.Redis.Executor
use redis_web.Redis.Executor.{Server}
use redis_web.Grpc
use redis_web.Grpc.{Peer, CommandRequest, auth_context}
use redis_web.Grpc.Value.{Status}
use redis_web.Grpc.Stream.{StreamCommandRequest, execute_stream}

module _ (host : Host) (pooling : Pooling) (server : Server) where
  -- the handlers' surroundings, with the executor over Redis in place of `execute`
  abbrev pub gateway : Host
  gateway = record {
    Ip = host.Ip;
    Net = host.Net;
    S = DatabasePoolRegistry × server.S;
    net_contains = host.net_contains;
    base64_decode = host.base64_decode;
    json_to_string = host.json_to_string;
    sha1_hex = host.sha1_hex;
    header_value = host.header_value;
    execute = λ c (r, s). Executor.execute pooling server c r s;
  }

  -- What a client may send: a request of HTTP, a unary call, a stream of commands.
  pub data Call : Type 0 where
    http : HttpRequest host.Ip → Call
    unary : Peer host.Ip → CommandRequest → Call
    streamed : Peer host.Ip → List (Result Status StreamCommandRequest) → ℕ → ℕ → Call

  module _ (localhost : host.Ip) (state : AppState host.Net) where
    -- the state after one call
    unfoldable pub serve_call : Call → gateway.S → gateway.S
    serve_call (http request) s = (process_request gateway state request s).1
    serve_call (unary peer request) s = (Grpc.execute gateway localhost state peer request s).1
    serve_call (streamed peer items taken buffered) s =
        (execute_stream gateway localhost state (auth_context gateway localhost peer) items taken
          buffered s).1

    unfoldable pub serve_calls : List Call → gateway.S → gateway.S
    unfolding serve_call
    serve_calls [] s = s
    serve_calls (call ∷ calls) s = serve_calls calls (serve_call call s)
