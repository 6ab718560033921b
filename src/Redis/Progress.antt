-- ===== src/Redis/Progress.antt =====
-- No deadlock: whoever holds the lock of crates/redis-web-runtime/src/redis.rs, every task can still end
-- its call of `pool_for_database`.
use redis_web.Prelude.{ℕ, none, List, [], ◌≡◌}
use redis_web.Redis.Pools.{Pooling, Pooled, returned, World, run}

module _ (pooling : Pooling) (request : ℕ → ℕ) where
  -- there are steps after which the task has its pool or its error
  abbrev pub CanFinish : ℕ → World → Type 0
  CanFinish i w =
      (schedule : List ℕ) × ((r : Pooled) × ((run pooling request schedule w).phase i ≡ returned r))

  module _ (i : ℕ) where
    abbrev IsFree : World → Type 0
    IsFree w = (w.readers ≡ []) × (w.writer ≡ none)
