-- ===== src/Redis/Keeping.antt =====
-- `pool_for_database` of crates/redis-web-runtime/src/redis.rs keeps the pools that a registry has.
use redis_web.Prelude.{
  ℕ, ◌+◌, none, some, arith, ==_refl, List, [], ◌∷◌, ◌++◌, ◌==◌, ok, ◌≡◌, refl, ◌∙◌, subst,
  Bool-cases, Option-cases, Result-cases, inl, inr,
}
use redis_web.Config.Settings.{Config}
use redis_web.Redis.Pools.{
  RedisPool, DatabasePoolRegistry, Pooling, pool_for_database, create_pool_for_database, find_pool,
  store_pool, new_registry, Phase, started, reading, missed, created, writing, returned, World,
  can_read, can_write, drop_reader, advance, advance_from, run,
}
use redis_web.Redis.Sharing.{
  bound_pool, IsWell, Extends, made_Extends, made_IsWell, store_pool-Extends, store_pool-IsWell,
  create_pool-database, Fits, IsConsistent, advance-IsConsistent, run-IsConsistent, opening,
  new_registry-IsWell,
}

pub Extends-trans : (r s t : DatabasePoolRegistry) → Extends r s → Extends s t → Extends r t
Extends-trans r s t (d, h) (e, k) = (e ∙ d, λ x p q. k x p (h x p q))

created_database :
    (pooling : Pooling) (d : ℕ) (r : DatabasePoolRegistry) (p : RedisPool)
    → create_pool_for_database pooling r.base_config d r.made ≡ ok p
    → p.database ≡ d
unfolding create_pool_for_database
created_database pooling d r p f = create_pool-database pooling (λ _. d) _ r.made p f

-- A call keeps every answer, and answers for its own databases only.
pub pool_for_database-keeps :
    (pooling : Pooling) (d : ℕ) (r : DatabasePoolRegistry)
    → IsWell r
    → IsWell (pool_for_database pooling d r).1 × Extends r (pool_for_database pooling d r).1
unfolding pool_for_database
pool_for_database-keeps pooling d r well = elim (Bool-cases (d == r.default_database)) [
  | inl y ↦ rw (y) (well, (refl, λ _ _ h. h))
  | inr n ↦ elim (Option-cases (find_pool d r.pools_by_database)) [
    | inr (p, e) ↦ rw (n, e) (well, (refl, λ _ _ h. h))
    | inl e ↦ elim (Result-cases (create_pool_for_database pooling r.base_config d r.made)) [
      | inl (m, f) ↦ rw (n, e, f) (well, (refl, λ _ _ h. h))
      | inr (p, f) ↦
          let r1 = record r { made = r.made + 1 } in
          rw (n, e, f)
            (
              store_pool-IsWell d p r1 n (created_database pooling d r p f)
                  (made_IsWell r (r.made + 1) well),
              Extends-trans r r1 (store_pool d p r1).1 (made_Extends r (r.made + 1))
                  (store_pool-Extends d p r1 n),
            )
    ]
  ]
]

module _ (pooling : Pooling) (request : ℕ → ℕ) where
  advance-Extends :
      (i : ℕ) (w : World)
      → IsConsistent pooling request w
      → Extends w.registry (advance pooling request i w).registry
  unfolding advance
  advance-Extends i w h = go (w.phase i) refl
    where
      go :
          (ph : Phase)
          → w.phase i ≡ ph
          → Extends w.registry (advance_from pooling i (request i) ph w).registry
      go started e = elim (Bool-cases (request i == w.registry.default_database)) [
        | inl y ↦ rw (y) (refl, λ _ _ k. k)
        | inr n ↦ elim (Bool-cases (can_read w.writer)) [
          | inl free ↦ rw (n, free) (refl, λ _ _ k. k)
          | inr taken ↦ rw (n, taken) (refl, λ _ _ k. k)
        ]
      ]
      go reading e = (refl, λ _ _ k. k)
      go missed e =
          elim (Result-cases
            (create_pool_for_database pooling w.registry.base_config (request i) w.registry.made)) [
              | inl (m, f) ↦ rw (f) (refl, λ _ _ k. k)
              | inr (p, f) ↦ rw (f) (made_Extends w.registry (w.registry.made + 1))
            ]
      go (created p) e = elim (Bool-cases (can_write w.readers w.writer)) [
        | inl free ↦ rw (free) (refl, λ _ _ k. k)
        | inr taken ↦ rw (taken) (refl, λ _ _ k. k)
      ]
      go (writing p) e =
          store_pool-Extends (request i) p w.registry
            (subst (Fits w.registry (request i)) e (h.1 i)).0
      go (returned p) e = (refl, λ _ _ k. k)

  run-Extends :
      (schedule : List ℕ) (w : World)
      → IsConsistent pooling request w
      → Extends w.registry (run pooling request schedule w).registry
  unfolding run
  run-Extends [] w h = (refl, λ _ _ k. k)
  run-Extends (i ∷ schedule) w h =
      Extends-trans w.registry (advance pooling request i w).registry _ (advance-Extends i w h) (
        run-Extends schedule (advance pooling request i w)
          (advance-IsConsistent pooling request i w h))

  run-append :
      (before after : List ℕ) (w : World)
      → run pooling request (before ++ after) w
        ≡ run pooling request after (run pooling request before w)
  unfolding run
  run-append [] after w = refl
  run-append (i ∷ before) after w = run-append before after (advance pooling request i w)

  -- A database keeps its pool: one that the registry holds at some time is held ever after, whatever
  -- the order in which the tasks run before and then, also if a task creates another pool for the
  -- database meanwhile.
  pub run_keeps :
      (config : Config) (default_pool : RedisPool) (made : ℕ) (before after : List ℕ) (d : ℕ)
      (p : RedisPool)
      → default_pool.database ≡ config.database
      → bound_pool
          (run pooling request before
            (opening pooling request (new_registry config default_pool made))).registry
          d
        ≡ some p
      → bound_pool
          (run pooling request
            (before ++ after)
            (opening pooling request (new_registry config default_pool made))).registry
          d
        ≡ some p
  run_keeps config default_pool made before after d p own h =
      let w = opening pooling request (new_registry config default_pool made) in
      rw (run-append before after w) (
        (run-Extends after (run pooling request before w) (
            run-IsConsistent pooling request before w
              (new_registry-IsWell config default_pool made own, λ _. _))).1
          d p h)

  -- A task that runs from its start without another one between, with the lock free, gives what the
  -- source's function gives, read from top to bottom, and leaves the same registry.
  run-pool_for_database :
      (i : ℕ) (w : World)
      → w.phase i ≡ started
      → w.readers ≡ []
      → w.writer ≡ none
      → ((run pooling request (i ∷ i ∷ i ∷ i ∷ i ∷ []) w).phase i
          ≡ returned (pool_for_database pooling (request i) w.registry).0)
        × ((run pooling request (i ∷ i ∷ i ∷ i ∷ i ∷ []) w).registry
            ≡ (pool_for_database pooling (request i) w.registry).1)
  unfolding run advance pool_for_database store_pool drop_reader
  run-pool_for_database i w h r n = ground (arith, ==_refl i)
