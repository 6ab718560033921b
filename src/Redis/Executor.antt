-- ===== src/Redis/Executor.antt =====
-- `RedisCommandExecutor` of crates/redis-web-runtime/src/executor.rs: a command is executed on a
-- connection of its database's pool.
use redis_web.Prelude.{
  ℕ, some, List, Result, ok, err, ◌≡◌, refl, ◌⊎◌, inl, inr, arith, ==_refl, Result-cases,
}
use redis_web.Text.{Bytes}
use redis_web.Resp.Reply.{Value}
use redis_web.Request.{ExecutableCommand}
use redis_web.Handler.Process.{service_unavailable, execution_failed, Execution}
use redis_web.Redis.Pools.{
  RedisPool, CreatePoolError, find_pool, or_insert, DatabasePoolRegistry, Pooling, Pooled,
  store_pool, pool_for_database,
}
use redis_web.Redis.Sharing.{bound_pool, IsWell}
use redis_web.Redis.Keeping.{pool_for_database-keeps}

-- The backend: a pool's `get`, which may fail, the query on a connection, which changes the backend's
-- state, and the texts of their errors.
pub record Server : Type 1 where
  pub Conn : Type 0
  pub S : Type 0
  pub get : RedisPool → S → Result Bytes Conn × S
  pub query : Conn → Bytes → List Bytes → S → Result Bytes Value × S
  pub pool_error_text : CreatePoolError → Bytes

-- What a call gives is the answer for the database from then on.
pool_for_database_answer :
    (pooling : Pooling) (d : ℕ) (r : DatabasePoolRegistry) (p : RedisPool)
    → (pool_for_database pooling d r).0 ≡ ok p
    → bound_pool (pool_for_database pooling d r).1 d ≡ some p
unfolding pool_for_database bound_pool store_pool or_insert find_pool
pool_for_database_answer pooling d r p h = ground (arith, ==_refl d)

module _ (pooling : Pooling) (server : Server) where
  open server use {Conn, S, get, query, pool_error_text}

  abbrev queried : Result Bytes Value → Execution
  queried (ok value) = ok value
  queried (err message) = err (execution_failed message)

  abbrev run_on : Result Bytes Conn → ExecutableCommand → S → Execution × S
  run_on (err message) request s = (err (service_unavailable message), s)
  run_on (ok connection) request s =
      let (result, s') = query connection request.command_name request.args s in
      (queried result, s')

  abbrev execute_on : Pooled → ExecutableCommand → S → Execution × S
  execute_on (err e) request s = (err (service_unavailable (pool_error_text e)), s)
  execute_on (ok pool) request s = let (connection, s') = get pool s in run_on connection request s'

  unfoldable pub execute :
      ExecutableCommand → DatabasePoolRegistry → S → Execution × (DatabasePoolRegistry × S)
  execute request r s =
      let (pool, r') = pool_for_database pooling request.target_database r in
      let (result, s') = execute_on pool request s in (result, (r', s'))

  -- what the result of a query is told as
  abbrev pub Tells : Result Bytes Value → Execution → Type 0
  Tells (ok value) result = result ≡ ok value
  Tells (err message) result = result ≡ err (execution_failed message)

  queried-Tells : (r : Result Bytes Value) → Tells r (queried r)
  queried-Tells (ok value) = refl
  queried-Tells (err message) = refl

  -- The three ways in which a command ends, over a registry whose pools are for their own databases:
  -- no pool for its database, no connection in the pool, or the query's result. The first leaves the
  -- server as it was; the second asks for a connection and does nothing else; in the third the command
  -- is sent once, with its name and arguments, on a connection of the pool that the registry then holds
  -- for the command's database, a pool made for that database, and only there can it fail to execute.
  -- The other two are reported as a service that is unavailable.
  pub execute_outcomes :
      (request : ExecutableCommand) (r : DatabasePoolRegistry) (s : S)
      → IsWell r
      → ((e : CreatePoolError) × (((pool_for_database pooling request.target_database r).0 ≡ err e)
            × (execute request r s
                ≡ (err (service_unavailable (pool_error_text e)), ((execute request r s).1.0, s)))))
        ⊎ (((pool : RedisPool) × ((message : Bytes) × ((((pool_for_database pooling
                        request.target_database r).0
                      ≡ ok pool)
                    × ((get pool s).0 ≡ err message))
                  × (execute request r s ≡ (
                    err (service_unavailable message),
                    ((execute request r s).1.0, (get pool s).1),
                  )))))
            ⊎ ((pool : RedisPool) × ((connection : Conn) × (((bound_pool
                          (execute request r s).1.0
                          request.target_database
                        ≡ some pool)
                      × (pool.database ≡ request.target_database))
                    × (((get pool s).0 ≡ ok connection)
                        × (Tells
                              (query connection request.command_name request.args (get pool s).1).0
                              (execute request r s).0
                            × ((execute request r s).1.1
                                ≡ (query connection request.command_name request.args
                                    (get pool s).1).1)))))))
  unfolding execute
  execute_outcomes request r s well =
      elim (Result-cases (pool_for_database pooling request.target_database r).0) [
        | inl (e, h) ↦ inl (e, (h, rw (h) refl))
        | inr (p, h) ↦ elim (Result-cases (get p s).0) [
          | inl (m, g) ↦ inr (inl (p, (m, ((h, g), rw (h, g) refl))))
          | inr (c, g) ↦
              let holds = pool_for_database_answer pooling request.target_database r p h in
              inr (
                inr (
                  p,
                  (
                    c,
                    (
                      (
                        holds,
                        (pool_for_database-keeps pooling request.target_database r well).0
                            request.target_database p holds,
                      ),
                      (g, (rw (h, g) (queried-Tells _), rw (h, g) refl)),
                    ),
                  ),
                ))
        ]
      ]
