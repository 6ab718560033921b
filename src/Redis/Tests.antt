-- ===== src/Redis/Tests.antt =====
-- Connections over TCP without errors, and two tasks that ask for the same database at once.
use redis_web.Prelude.{ℕ, suc, true, none, some, List, [], ◌∷◌, ok, err, ◌≡◌, ◌⊎◌, refl}
use redis_web.Text.{Bytes, codes}
use redis_web.Resp.Reply.{okay}
use redis_web.Request.{ExecutableCommand}
use redis_web.Handler.Process.{service_unavailable}
use redis_web.Config.Settings.{Config, default_settings}
use redis_web.Redis.Connection.{
  resp2, tcp, ConnectionInfo, Client, maybe_apply_tcp_keepalive, tcp_connection_info,
  pool_connection_info, pool_size,
}
use redis_web.Redis.Pools.{
  RedisPool, CreatePoolError, find_pool, or_insert, new_registry, DatabasePoolRegistry, Pooling,
  create_pool, create_pool_for_database, store_pool, pool_for_database, advance, drop_reader, run,
}
use redis_web.Redis.Sharing.{bound_pool, opening, new_registry-IsWell, pool_for_database_refines}
use redis_web.Redis.Keeping.{run_keeps}
use redis_web.Redis.Executor.{Server, execute, Tells, execute_outcomes}

abbrev parsed : ConnectionInfo
parsed = record {
  addr = tcp (codes "127.0.0.1") 6379;
  redis_settings = record { db = 0; username = none; password = none; protocol = resp2 };
  keepalive = none;
}

abbrev client : Client
client = record { metadata = λ _. ok true; parse_url = λ _. ok parsed; addr_info = λ _. ok parsed }

abbrev pooling : Pooling
pooling = record { client = client; manager_new = λ _. ok _; build = λ _ _. ok _ }

abbrev with_probes : Config
with_probes = record default_settings { hiredis = some (record { keep_alive_sec = some 15 }) }

abbrev probed : ConnectionInfo
probed = record parsed { keepalive = some (15, 5) }

-- the pool with a number, for a database
abbrev pool : ℕ → ℕ → RedisPool
pool id database = record { id = id; info = parsed; max_size = 40; database = database }

-- Both tasks miss, both create a pool, task 0 waits while task 1 holds the write guard, and the pool of
-- task 1 is kept.
abbrev schedule : List ℕ
schedule = 0 ∷ 1 ∷ 0 ∷ 1 ∷ 0 ∷ 1 ∷ 1 ∷ 0 ∷ 1 ∷ 0 ∷ 0 ∷ []

abbrev asks_three : ℕ → ℕ
asks_three i = 3

pool_for_database_refines_example :
    (pool 2 3 ≡ pool 2 3)
    × (((pool 2 3).database ≡ 3)
        × (bound_pool
              (run pooling asks_three schedule
                (opening pooling asks_three (new_registry default_settings (pool 0 0) 1))).registry
              3
            ≡ some (pool 2 3)))
unfolding run advance create_pool_for_database create_pool pool_connection_info tcp_connection_info
    maybe_apply_tcp_keepalive pool_size store_pool or_insert find_pool new_registry drop_reader
pool_for_database_refines_example =
    pool_for_database_refines pooling asks_three default_settings (pool 0 0) 1 schedule refl 0 1
      (pool 2 3) (pool 2 3) refl refl refl

-- after the first nine steps task 1 has its pool, and task 0 has not
run_keeps_example :
    bound_pool
      (run pooling asks_three
        (0 ∷ 1 ∷ 0 ∷ 1 ∷ 0 ∷ 1 ∷ 1 ∷ 0 ∷ 1 ∷ 0 ∷ 0 ∷ [])
        (opening pooling asks_three (new_registry default_settings (pool 0 0) 1))).registry
      3
    ≡ some (pool 2 3)
unfolding run advance create_pool_for_database create_pool pool_connection_info tcp_connection_info
    maybe_apply_tcp_keepalive pool_size store_pool or_insert find_pool new_registry drop_reader
    bound_pool
run_keeps_example =
    run_keeps pooling asks_three default_settings (pool 0 0) 1
      (0 ∷ 1 ∷ 0 ∷ 1 ∷ 0 ∷ 1 ∷ 1 ∷ 0 ∷ 1 ∷ []) (0 ∷ 0 ∷ []) 3 (pool 2 3) refl refl

-- A backend that counts its queries, and has no connection to give for more than two.
abbrev server : Server
server = record {
  Conn = ℕ;
  S = ℕ;
  get = λ p s. (ok p.database, s);
  query = λ c name args s. (ok okay, suc s);
  pool_error_text = λ _. codes "no pool";
}

abbrev command : ExecutableCommand
command = record { target_database = 3; command_name = codes "PING"; args = [] }

abbrev registry : DatabasePoolRegistry
registry = new_registry default_settings (pool 0 0) 1

execute_outcomes_example :
    ((e : CreatePoolError) × (((pool_for_database pooling 3 registry).0 ≡ err e)
        × (execute pooling server command registry 0 ≡ (
          err (service_unavailable (codes "no pool")),
          ((execute pooling server command registry 0).1.0, 0),
        ))))
    ⊎ (((p : RedisPool) × ((message : Bytes) × ((((pool_for_database pooling 3 registry).0 ≡ ok p)
                × ((server.get p 0).0 ≡ err message))
              × (execute pooling server command registry 0 ≡ (
                err (service_unavailable message),
                ((execute pooling server command registry 0).1.0, 0),
              )))))
        ⊎ ((p : RedisPool) × ((connection : ℕ) × (((bound_pool
                      (execute pooling server command registry 0).1.0
                      3
                    ≡ some p)
                  × (p.database ≡ 3))
                × (((server.get p 0).0 ≡ ok connection)
                    × (Tells pooling server (ok okay) (execute pooling server command registry 0).0
                        × ((execute pooling server command registry 0).1.1 ≡ 1)))))))
execute_outcomes_example =
    execute_outcomes pooling server command registry 0
      (new_registry-IsWell default_settings (pool 0 0) 1 refl)
