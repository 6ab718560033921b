-- ===== src/Redis/Sharing.antt =====
-- The pools of crates/redis-web-runtime/src/redis.rs under concurrency: whatever the order in which the
-- tasks run, there is one pool for each database.
use redis_web.Prelude.{
  ℕ, ◌+◌, true, false, Option, none, some, List, [], ◌∷◌, ◌==◌, ==_cases, ==_refl, if◌then◌else◌,
  ok, err, ◌≡◌, ◌≢◌, refl, sym, ap, ◌∙◌, subst, ◌⊎◌, inl, inr, arith, Bool-cases, Option-cases,
  Result-cases, unwrap_or,
}
use redis_web.Config.Settings.{Config}
use redis_web.Redis.Pools.{
  RedisPool, find_pool, or_insert, DatabasePoolRegistry, new_registry, Pooling, create_pool,
  create_pool_for_database, store_pool, Phase, started, reading, missed, created, writing, returned,
  World, set_phase, can_read, can_write, drop_reader, advance, advance_from, read_lock, run,
}

-- The abstract view of a registry: the pool of a database, once it has one.
unfoldable pub bound_pool : DatabasePoolRegistry → ℕ → Option RedisPool
bound_pool r d =
    if d == r.default_database then some r.default_pool else find_pool d r.pools_by_database

-- a pool is only ever the answer for its own database
abbrev pub IsWell : DatabasePoolRegistry → Type 0
IsWell r = (d : ℕ) (p : RedisPool) → bound_pool r d ≡ some p → p.database ≡ d

-- an answer, once given, stays
abbrev pub Extends : DatabasePoolRegistry → DatabasePoolRegistry → Type 0
Extends r r' =
    (r'.default_database ≡ r.default_database)
    × ((d : ℕ) (p : RedisPool) → bound_pool r d ≡ some p → bound_pool r' d ≡ some p)

some-inj {ℓ} : {A : Type ℓ} (a b : A) → some a ≡ some b → a ≡ b
some-inj a b h = ap (λ o. unwrap_or o a) h

-- Behind the write lock: what the task gets is the answer from then on.
module _ (d : ℕ) (p : RedisPool) (r : DatabasePoolRegistry)
    (other : (d == r.default_database) ≡ false) where
  abbrev added : DatabasePoolRegistry
  added = record r { pools_by_database = (d, p) ∷ r.pools_by_database }

  answer_added : (e : ℕ) → bound_pool added e ≡ (if d == e then some p else bound_pool r e)
  unfolding bound_pool find_pool
  answer_added e = elim (==_cases d e) [
    | inl (y, eq) ↦ rw (sym (ap (λ x. x == r.default_database) eq), other, y) refl
    | inr (n, _) ↦ rw (n) refl
  ]

  store_pool-cases :
      ((find_pool d r.pools_by_database ≡ none) × (store_pool d p r ≡ (p, added)))
      ⊎ ((q : RedisPool) × ((bound_pool r d ≡ some q) × (store_pool d p r ≡ (q, r))))
  unfolding store_pool or_insert bound_pool
  store_pool-cases = elim (Option-cases (find_pool d r.pools_by_database)) [
    | inl e ↦ inl (e, rw (e) refl)
    | inr (q, e) ↦ inr (q, (rw (other) e, rw (e) refl))
  ]

  store_pool_answer : bound_pool (store_pool d p r).1 d ≡ some ((store_pool d p r).0)
  store_pool_answer = elim store_pool-cases [
    | inl (_, e) ↦ rw (e, answer_added d, ==_refl d) refl
    | inr (q, (a, e)) ↦ rw (e) a
  ]

  answer_none : find_pool d r.pools_by_database ≡ none → bound_pool r d ≡ none
  unfolding bound_pool
  answer_none n = rw (other) n

  pub store_pool-Extends : Extends r (store_pool d p r).1
  store_pool-Extends = elim store_pool-cases [
    | inl (n, e) ↦ rw (e) (
      refl,
      λ f q h. rw (answer_added f) (elim (==_cases d f) [
        | inl (_, eq) ↦ cc (h, answer_none n, ap (bound_pool r) eq)
        | inr (ne, _) ↦ rw (ne) h
      ]),
    )
    | inr (q, (_, e)) ↦ rw (e) (refl, λ _ _ h. h)
  ]

  pub store_pool-IsWell : p.database ≡ d → IsWell r → IsWell (store_pool d p r).1
  store_pool-IsWell own well = elim store_pool-cases [
    | inl (n, e) ↦ rw (e) (λ f q h. new f q (==_cases d f) (sym (answer_added f) ∙ h))
    | inr (q, (_, e)) ↦ rw (e) well
  ]
    where
      new :
          (f : ℕ) (q : RedisPool)
          → (((d == f) ≡ true) × (d ≡ f)) ⊎ (((d == f) ≡ false) × (d ≢ f))
          → (if d == f then some p else bound_pool r f) ≡ some q
          → q.database ≡ f
      new f q (inl (y, eq)) h =
          ap (λ x. x.database) (some-inj q p (sym h ∙ rw (y) refl)) ∙ (own ∙ eq)
      new f q (inr (n, _)) h = well f q (ap (λ b. if b then some p else bound_pool r f) (sym n) ∙ h)

-- What is known of a task that asks for database `d`.
abbrev pub Fits : DatabasePoolRegistry → ℕ → Phase → Type 0
Fits r d started = Unit
Fits r d reading = (d == r.default_database) ≡ false
Fits r d missed = (d == r.default_database) ≡ false
Fits r d (created p) = ((d == r.default_database) ≡ false) × (p.database ≡ d)
Fits r d (writing p) = ((d == r.default_database) ≡ false) × (p.database ≡ d)
Fits r d (returned (err e)) = Unit
Fits r d (returned (ok p)) = bound_pool r d ≡ some p

Fits-later :
    (r r' : DatabasePoolRegistry) (d : ℕ) (ph : Phase) → Extends r r' → Fits r d ph → Fits r' d ph
Fits-later r r' d started ext h = _
Fits-later r r' d reading (same, _) h = rw (same) h
Fits-later r r' d missed (same, _) h = rw (same) h
Fits-later r r' d (created p) (same, _) (h, own) = (rw (same) h, own)
Fits-later r r' d (writing p) (same, _) (h, own) = (rw (same) h, own)
Fits-later r r' d (returned (err e)) ext h = _
Fits-later r r' d (returned (ok p)) (_, ext) h = ext d p h

-- a creation changes the number of pools made only
pub made_Extends : (r : DatabasePoolRegistry) (n : ℕ) → Extends r (record r { made = n })
unfolding bound_pool
made_Extends r n = (refl, λ _ _ h. h)

pub made_IsWell : (r : DatabasePoolRegistry) (n : ℕ) → IsWell r → IsWell (record r { made = n })
unfolding bound_pool
made_IsWell r n h = h

default_bound :
    (r : DatabasePoolRegistry) (d : ℕ)
    → (d == r.default_database) ≡ true
    → bound_pool r d ≡ some r.default_pool
unfolding bound_pool
default_bound r d y = rw (y) refl

looked_up :
    (r : DatabasePoolRegistry) (d : ℕ)
    → (d == r.default_database) ≡ false
    → Fits r d (read_lock (find_pool d r.pools_by_database))
unfolding bound_pool
looked_up r d n = elim (Option-cases (find_pool d r.pools_by_database)) [
  | inl e ↦ rw (e) n
  | inr (p, e) ↦ rw (e, n) e
]

pub new_registry-IsWell :
    (config : Config) (default_pool : RedisPool) (made : ℕ)
    → default_pool.database ≡ config.database
    → IsWell (new_registry config default_pool made)
unfolding new_registry bound_pool find_pool
new_registry-IsWell config default_pool made own d p h = elim (==_cases d config.database) [
  | inl (y, eq) ↦
      ap (λ x. x.database)
        (some-inj p default_pool (sym h ∙ ap (λ b. if b then some default_pool else none) y))
      ∙ (own ∙ sym eq)
  | inr (n, _) ↦ cc (h, n)
]

module _ (pooling : Pooling) (request : ℕ → ℕ) where
  pub create_pool-database :
      (config : Config) (id : ℕ) (p : RedisPool)
      → create_pool pooling config id ≡ ok p
      → p.database ≡ config.database
  unfolding create_pool
  create_pool-database config id p h = ground arith

  abbrev pub IsConsistent : World → Type 0
  IsConsistent w = IsWell w.registry × ((i : ℕ) → Fits w.registry (request i) (w.phase i))

  -- one task and the registry change
  step_lem :
      (i : ℕ) (ph : Phase) (r : DatabasePoolRegistry) (readers : List ℕ) (writer : Option ℕ)
      (w : World)
      → IsConsistent w
      → IsWell r
      → Extends w.registry r
      → Fits r (request i) ph
      → IsConsistent
          (set_phase i ph (record w { registry = r; readers = readers; writer = writer }))
  step_lem i ph r readers writer w (_, fits) well ext h = (
    well,
    λ j. elim (==_cases i j) [
      | inl (y, eq) ↦ rw (y) (subst (λ x. Fits r (request x) ph) eq h)
      | inr (n, _) ↦ rw (n) (Fits-later w.registry r (request j) (w.phase j) ext (fits j))
    ],
  )

  pub advance-IsConsistent :
      (i : ℕ) (w : World) → IsConsistent w → IsConsistent (advance pooling request i w)
  unfolding advance create_pool_for_database
  advance-IsConsistent i w h = go (w.phase i) refl
    where
      for_database :
          (w : World) (p : RedisPool)
          → create_pool_for_database pooling w.registry.base_config (request i) w.registry.made
            ≡ ok p
          → p.database ≡ request i
      for_database w p f = create_pool-database _ w.registry.made p f

      go : (ph : Phase) → w.phase i ≡ ph → IsConsistent (advance_from pooling i (request i) ph w)
      go started e = elim (Bool-cases (request i == w.registry.default_database)) [
        | inl y ↦ rw (y) (
            step_lem i (returned (ok w.registry.default_pool)) w.registry w.readers w.writer w h h.0
              (refl, λ _ _ x. x) (default_bound w.registry (request i) y))
        | inr n ↦ elim (Bool-cases (can_read w.writer)) [
          | inl free ↦
              rw (n, free)
                (step_lem i reading w.registry (i ∷ w.readers) w.writer w h h.0 (refl, λ _ _ x. x)
                  n)
          | inr taken ↦ rw (n, taken) h
        ]
      ]
      go reading e =
          step_lem i _ w.registry (drop_reader i w.readers) w.writer w h h.0 (refl, λ _ _ x. x)
            (looked_up w.registry (request i) (subst (Fits w.registry (request i)) e (h.1 i)))
      go missed e =
          elim (Result-cases
            (create_pool_for_database pooling w.registry.base_config (request i) w.registry.made)) [
              | inl (m, f) ↦
                  rw (f) (step_lem i _ w.registry w.readers w.writer w h h.0 (refl, λ _ _ x. x) _)
              | inr (p, f) ↦ rw (f) (
                  step_lem i (created p) (record (w.registry) { made = w.registry.made + 1 })
                    w.readers w.writer w h (made_IsWell w.registry _ h.0)
                    (made_Extends w.registry _)
                    (subst (Fits w.registry (request i)) e (h.1 i), for_database w p f))
            ]
      go (created p) e = elim (Bool-cases (can_write w.readers w.writer)) [
        | inl free ↦ rw (free) (
            step_lem i (writing p) w.registry w.readers (some i) w h h.0 (refl, λ _ _ x. x)
              (subst (Fits w.registry (request i)) e (h.1 i)))
        | inr taken ↦ rw (taken) h
      ]
      go (writing p) e =
          let (other, own) = subst (Fits w.registry (request i)) e (h.1 i) in
          step_lem i _ (store_pool (request i) p w.registry).1 w.readers none w h
            (store_pool-IsWell (request i) p w.registry other own h.0)
            (store_pool-Extends (request i) p w.registry other)
            (store_pool_answer (request i) p w.registry other)
      go (returned p) e = h

  pub run-IsConsistent :
      (schedule : List ℕ) (w : World)
      → IsConsistent w
      → IsConsistent (run pooling request schedule w)
  unfolding run
  run-IsConsistent [] w h = h
  run-IsConsistent (i ∷ schedule) w h =
      run-IsConsistent schedule (advance pooling request i w) (advance-IsConsistent i w h)

  -- every task before its first piece
  abbrev pub opening : DatabasePoolRegistry → World
  opening r = record { registry = r; phase = λ i. started; readers = []; writer = none }

  -- Whatever the order in which the tasks run: a task that got a pool has the one that the registry
  -- holds for its database, a pool made for that database, and so any two tasks with the same
  -- database have the same pool, also if both had found none and created one. The default pool is
  -- that of the configured database.
  pub pool_for_database_refines :
      (config : Config) (default_pool : RedisPool) (made : ℕ) (schedule : List ℕ)
      → default_pool.database ≡ config.database
      → (i j : ℕ) (p q : RedisPool)
      → (run pooling request schedule (opening (new_registry config default_pool made))).phase i
        ≡ returned (ok p)
      → (run pooling request schedule (opening (new_registry config default_pool made))).phase j
        ≡ returned (ok q)
      → request i ≡ request j
      → (p ≡ q)
        × ((p.database ≡ request i)
            × (bound_pool
                  (run pooling request schedule
                    (opening (new_registry config default_pool made))).registry
                  (request i)
                ≡ some p))
  pool_for_database_refines config default_pool made schedule own i j p q hp hq same =
      let w = run pooling request schedule (opening (new_registry config default_pool made)) in
      let (well, fits) =
        run-IsConsistent schedule _ (new_registry-IsWell config default_pool made own, λ _. _) in
      let ap_i = subst (Fits w.registry (request i)) hp (fits i) in
      let ap_j = subst (Fits w.registry (request j)) hq (fits j) in
      (
        some-inj p q (sym ap_i ∙ (ap (bound_pool w.registry) same ∙ ap_j)),
        (well (request i) p ap_i, ap_i),
      )
