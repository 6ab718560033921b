-- ===== src/Gateway/Pools.antt =====
-- A database keeps its pool, whatever the gateway serves, one call after the other.
use redis_web.Prelude.{
  ℕ, Option, none, some, List, [], ◌∷◌, ◌+◌, zero, suc, Result, ok, err, ◌≡◌, refl, Bool-cases,
  Result-cases, inl, inr,
}
use redis_web.Acl.{AuthContext}
use redis_web.Request.{ExecutableCommand, parse_http_request}
use redis_web.Handler.Process.{
  Host, HttpRequest, AppState, process_request, run_request, is_authorized, input_of,
}
use redis_web.Handler.Safety.{process_request_ok, process_request_err}
use redis_web.Redis.Pools.{RedisPool, DatabasePoolRegistry, Pooling}
use redis_web.Redis.Executor.{Server}
use redis_web.Redis.Keeping.{Extends-trans, pool_for_database-keeps}
use redis_web.Redis.Executor
use redis_web.Redis.Sharing.{bound_pool, IsWell, Extends}
use redis_web.Grpc
use redis_web.Grpc.{Peer, CommandRequest, command_from_proto, auth_context, authorize, is_allowed}
use redis_web.Grpc.Stream.{
  StreamCommandRequest, execute_stream, answer_items, stream_reply, stream_command,
}
use redis_web.Grpc.Value.{Status}
use redis_web.Grpc.Stream
use redis_web.Gateway.{gateway, Call, http, unary, streamed, serve_call, serve_calls}

-- What the execution of commands keeps, the handlers keep.
module _ {ℓ} (host : Host) (localhost : host.Ip) (state : AppState host.Net) (Inv : host.S → Type ℓ)
    (keeps : (c : ExecutableCommand) (s : host.S) → Inv s → Inv (host.execute c s).1) where
  process_request-keeps :
      (req : HttpRequest host.Ip) (s : host.S) → Inv s → Inv (process_request host state req s).1
  unfolding run_request
  process_request-keeps req s h =
      elim (Result-cases (parse_http_request (input_of host state req))) [
        | inl (e, p) ↦ rw (process_request_err host state req s e p) h
        | inr (c, p) ↦ elim (Bool-cases (is_authorized host state req c)) [
          | inl a ↦ rw (process_request_ok host state req s c p, a) (keeps c.command s h)
          | inr a ↦ rw (process_request_ok host state req s c p, a) h
        ]
      ]

  execute-keeps :
      (peer : Peer host.Ip) (request : CommandRequest) (s : host.S)
      → Inv s
      → Inv (Grpc.execute host localhost state peer request s).1
  unfolding Grpc.execute authorize
  execute-keeps peer request s h =
      elim (Result-cases (command_from_proto state.default_database request)) [
        | inl (e, p) ↦ rw (p) h
        | inr (c, p) ↦
            elim (Bool-cases
              (is_allowed host localhost state (auth_context host localhost peer) c.command_name)) [
                | inl a ↦ rw (p, a) (keeps c s h)
                | inr a ↦ rw (p, a) h
              ]
      ]

  stream_command-keeps :
      (auth : AuthContext host.Ip) (r : Result Status ExecutableCommand) (s : host.S)
      → Inv s
      → Inv (stream_command host localhost state auth r s).1
  unfolding authorize
  stream_command-keeps auth (err status) s h = h
  stream_command-keeps auth (ok c) s h =
      elim (Bool-cases (is_allowed host localhost state auth c.command_name)) [
        | inl a ↦ rw (a) (keeps c s h)
        | inr a ↦ rw (a) h
      ]

  stream_reply-keeps :
      (auth : AuthContext host.Ip) (item : StreamCommandRequest) (s : host.S)
      → Inv s
      → Inv (stream_reply host localhost state auth item s).1
  unfolding stream_reply
  stream_reply-keeps auth item s h = go item.command
    where
      go : (o : Option CommandRequest) → Inv (Stream.stream_result host localhost state auth o s).1
      go none = h
      go (some request) =
          stream_command-keeps auth (command_from_proto state.default_database request) s h

  answer_items-keeps :
      (auth : AuthContext host.Ip) (items : List (Result Status StreamCommandRequest)) (taken : ℕ)
      (s : host.S)
      → Inv s
      → Inv (answer_items host localhost state auth items taken s).1
  unfolding answer_items
  answer_items-keeps auth [] taken s h = h
  answer_items-keeps auth (err status ∷ items) zero s h = h
  answer_items-keeps auth (err status ∷ items) (suc taken) s h = h
  answer_items-keeps auth (ok item ∷ items) zero s h = stream_reply-keeps auth item s h
  answer_items-keeps auth (ok item ∷ items) (suc taken) s h =
      answer_items-keeps auth items taken (stream_reply host localhost state auth item s).1
        (stream_reply-keeps auth item s h)

module _ (host : Host) (pooling : Pooling) (server : Server) (localhost : host.Ip)
    (state : AppState host.Net) where
  -- the answers are for their own databases, and those of the beginning are still given
  abbrev Keeps : DatabasePoolRegistry → DatabasePoolRegistry × server.S → Type 0
  Keeps first (r, s) = IsWell r × Extends first r

  execute-Keeps :
      (first : DatabasePoolRegistry) (c : ExecutableCommand) (s : DatabasePoolRegistry × server.S)
      → Keeps first s
      → Keeps first ((gateway host pooling server).execute c s).1
  unfolding Executor.execute
  execute-Keeps first c (r, s) (well, ext) =
      let (well', ext') = pool_for_database-keeps pooling c.target_database r well in
      (well', Extends-trans first r _ ext ext')

  serve_call-Keeps :
      (first : DatabasePoolRegistry) (call : Call host pooling server)
      (s : DatabasePoolRegistry × server.S)
      → Keeps first s
      → Keeps first (serve_call host pooling server localhost state call s)
  unfolding serve_call execute_stream
  serve_call-Keeps first (http request) s h =
      process_request-keeps (gateway host pooling server) localhost state (Keeps first)
        (execute-Keeps first) request s h
  serve_call-Keeps first (unary peer request) s h =
      execute-keeps (gateway host pooling server) localhost state (Keeps first)
        (execute-Keeps first) peer request s h
  serve_call-Keeps first (streamed peer items taken buffered) s h =
      answer_items-keeps (gateway host pooling server) localhost state (Keeps first)
        (execute-Keeps first) (auth_context (gateway host pooling server) localhost peer) items
        (taken + buffered) s h

  serve_calls-Keeps :
      (first : DatabasePoolRegistry) (calls : List (Call host pooling server))
      (s : DatabasePoolRegistry × server.S)
      → Keeps first s
      → Keeps first (serve_calls host pooling server localhost state calls s)
  unfolding serve_calls
  serve_calls-Keeps first [] s h = h
  serve_calls-Keeps first (call ∷ calls) s h =
      serve_calls-Keeps first calls (serve_call host pooling server localhost state call s)
        (serve_call-Keeps first call s h)

  -- Whatever requests, calls and streams a gateway serves one after the other, accepted or refused: a
  -- database that has a pool keeps it, and each pool that the registry holds at the end for a database was made for that
  -- database. The registry has to hold no other pools at the beginning, as a new one does.
  pub serve_calls-bound_pool :
      (calls : List (Call host pooling server)) (r : DatabasePoolRegistry) (s : server.S)
      → IsWell r
      → (d e : ℕ) (p q : RedisPool) → bound_pool r d ≡ some p
      → bound_pool (serve_calls host pooling server localhost state calls (r, s)).0 e ≡ some q
      → (bound_pool (serve_calls host pooling server localhost state calls (r, s)).0 d ≡ some p)
        × (q.database ≡ e)
  serve_calls-bound_pool calls r s well d e p q h k =
      let (well', ext) = serve_calls-Keeps r calls (r, s) (well, (refl, λ _ _ x. x)) in
      (ext.1 d p h, well' e q k)
