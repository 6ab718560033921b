-- ===== src/Redis/Pools.antt =====
-- `create_pool` and `DatabasePoolRegistry` of crates/redis-web-runtime/src/redis.rs. A pool is an object
-- that its clones share: `id` is its identity, one for each call that creates a pool. `advance` takes one
-- task a step further, if the lock that it needs is free; other tasks run between any two steps.
use redis_web.Prelude.{
  ℕ, ◌+◌, Bool, true, false, Option, none, some, List, [], ◌∷◌, ◌==◌, if◌then◌else◌, Result, ok,
  err, ◌>>=◌,
}
use redis_web.Text.{Bytes}
use redis_web.Config.Settings.{Config}
use redis_web.Redis.Connection.{RedisError, ConnectionInfo, Client, pool_connection_info, pool_size}

pub record RedisPool : Type 0 where
  pub id : ℕ
  pub info : ConnectionInfo
  pub max_size : ℕ
  pub database : ℕ

pub data CreatePoolError : Type 0 where
  config_error : RedisError → CreatePoolError
  build_error : Bytes → CreatePoolError

abbrev map_config {ℓ} : {A : Type ℓ} → Result RedisError A → Result CreatePoolError A
map_config (ok a) = ok a
map_config (err e) = err (config_error e)

-- the pools of the databases that are not the default one
unfoldable pub find_pool : ℕ → List (ℕ × RedisPool) → Option RedisPool
find_pool database [] = none
find_pool database ((d, pool) ∷ pools) =
    if d == database then some pool else find_pool database pools

-- `pools.entry(database).or_insert_with(..)`
abbrev insert_missing :
    Option RedisPool → ℕ → RedisPool → List (ℕ × RedisPool) → RedisPool × List (ℕ × RedisPool)
insert_missing (some pooled) database new_pool pools = (pooled, pools)
insert_missing none database new_pool pools = (new_pool, (database, new_pool) ∷ pools)

unfoldable pub or_insert : ℕ → RedisPool → List (ℕ × RedisPool) → RedisPool × List (ℕ × RedisPool)
or_insert database new_pool pools =
    insert_missing (find_pool database pools) database new_pool pools

-- The registry, with the number of pools made so far.
pub record DatabasePoolRegistry : Type 0 where
  pub base_config : Config
  pub default_database : ℕ
  pub default_pool : RedisPool
  pub pools_by_database : List (ℕ × RedisPool)
  pub made : ℕ

unfoldable pub new_registry : Config → RedisPool → ℕ → DatabasePoolRegistry
new_registry base_config default_pool made = record {
  base_config = base_config;
  default_database = base_config.database;
  default_pool = default_pool;
  pools_by_database = [];
  made = made;
}

-- `manager_new` is `WebdisRedisManager::new`'s call of the client library, and `build` the last step
-- of the pool's builder.
pub record Pooling : Type 0 where
  pub client : Client
  pub manager_new : ConnectionInfo → Result {0, 0} RedisError Unit
  pub build : ConnectionInfo → ℕ → Result {0, 0} Bytes Unit

abbrev map_build {ℓ} : {A : Type ℓ} → Result Bytes A → Result CreatePoolError A
map_build (ok a) = ok a
map_build (err e) = err (build_error e)

abbrev pub Pooled : Type 0
Pooled = Result CreatePoolError RedisPool

-- the part of `pool_for_database` behind the write lock
unfoldable pub store_pool : ℕ → RedisPool → DatabasePoolRegistry → RedisPool × DatabasePoolRegistry
store_pool database new_pool r =
    let (pooled, pools) = or_insert database new_pool r.pools_by_database in
    (pooled, record r { pools_by_database = pools })

abbrev store_created : ℕ → Pooled → DatabasePoolRegistry → Pooled × DatabasePoolRegistry
store_created database (err e) r = (err e, r)
store_created database (ok new_pool) r =
    let (pooled, r') = store_pool database new_pool (record r { made = r.made + 1 }) in
    (ok pooled, r')

-- How far a task is in `pool_for_database`. In `reading` it holds the read guard of the map of pools, in
-- `writing` the write guard; in `started` and `created` it may wait for them.
pub data Phase : Type 0 where
  started reading missed : Phase
  created writing : RedisPool → Phase
  returned : Pooled → Phase

-- The registry, the tasks, and who holds the lock of the map.
pub record World : Type 0 where
  pub registry : DatabasePoolRegistry
  pub phase : ℕ → Phase
  pub readers : List ℕ
  pub writer : Option ℕ

-- when the lock gives a guard
abbrev pub can_read : Option ℕ → Bool
can_read none = true
can_read (some _) = false

abbrev pub can_write : List ℕ → Option ℕ → Bool
can_write [] none = true
can_write _ _ = false

-- the read guard of a task is dropped
unfoldable pub drop_reader : ℕ → List ℕ → List ℕ
drop_reader i [] = []
drop_reader i (j ∷ js) = if j == i then drop_reader i js else j ∷ drop_reader i js

abbrev pub set_phase : ℕ → Phase → World → World
set_phase i p w = record w { phase = λ j. if i == j then p else w.phase j }

abbrev pub read_lock : Option RedisPool → Phase
read_lock (some pool) = returned (ok pool)
read_lock none = missed

abbrev make_pool : ℕ → Pooled → World → World
make_pool i (err e) w = set_phase i (returned (err e)) w
make_pool i (ok pool) w =
    set_phase i (created pool)
      (record w { registry = record (w.registry) { made = w.registry.made + 1 } })

module _ (pooling : Pooling) where
  open pooling use {client, manager_new, build}

  unfoldable pub create_pool : Config → ℕ → Result CreatePoolError RedisPool
  create_pool config id = map_config (pool_connection_info client config) >>= λ info.
      map_config (manager_new info) >>= λ _. map_build (build info (pool_size config)) >>= λ _.
      ok (record { id = id; info = info; max_size = pool_size config; database = config.database })

  unfoldable pub create_pool_for_database : Config → ℕ → ℕ → Result CreatePoolError RedisPool
  create_pool_for_database config database id =
      create_pool (record config { database = database }) id

  abbrev found_or_create :
      ℕ → Option RedisPool → DatabasePoolRegistry → Pooled × DatabasePoolRegistry
  found_or_create database (some pool) r = (ok pool, r)
  found_or_create database none r =
      store_created database (create_pool_for_database r.base_config database r.made) r

  -- `pool_for_database`, when no other task runs meanwhile
  unfoldable pub pool_for_database : ℕ → DatabasePoolRegistry → Pooled × DatabasePoolRegistry
  pool_for_database database r =
      if database == r.default_database
      then (ok r.default_pool, r)
      else found_or_create database (find_pool database r.pools_by_database) r

  -- The next step of task `i`, which asks for `database`. One that waits for a guard stays where it is.
  abbrev pub advance_from : ℕ → ℕ → Phase → World → World
  advance_from i database started w =
      if database == w.registry.default_database
      then set_phase i (returned (ok w.registry.default_pool)) w
      else if can_read w.writer
      then set_phase i reading (record w { readers = i ∷ w.readers })
      else w
  advance_from i database reading w =
      set_phase i (read_lock (find_pool database w.registry.pools_by_database))
        (record w { readers = drop_reader i w.readers })
  advance_from i database missed w =
      make_pool i (create_pool_for_database w.registry.base_config database w.registry.made) w
  advance_from i database (created new_pool) w =
      if can_write w.readers w.writer
      then set_phase i (writing new_pool) (record w { writer = some i })
      else w
  advance_from i database (writing new_pool) w =
      let (pooled, registry) = store_pool database new_pool w.registry in
      set_phase i (returned (ok pooled)) (record w { registry = registry; writer = none })
  advance_from i database (returned p) w = w

  module _ (request : ℕ → ℕ) where
    unfoldable pub advance : ℕ → World → World
    advance i w = advance_from i (request i) (w.phase i) w

    -- tasks in the order in which they run
    unfoldable pub run : List ℕ → World → World
    unfolding advance
    run [] w = w
    run (i ∷ schedule) w = run schedule (advance i w)
