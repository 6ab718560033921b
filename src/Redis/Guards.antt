-- ===== src/Redis/Guards.antt =====
-- Who holds the lock of crates/redis-web-runtime/src/redis.rs, and in which phase.
use redis_web.Prelude.{
  ℕ, ◌+◌, ◌≤◌, Bool, true, Option, none, some, List, [], ◌∷◌, any, length, ◌==◌, ==_cases, ==_refl,
  ◌≡◌, ◌≢◌, refl, sym, ap, ◌∙◌, subst, inl, inr, arith, Bool-cases, Result-cases, ◌⊎◌, unwrap_or,
}
use redis_web.Redis.Pools.{
  RedisPool, DatabasePoolRegistry, Pooling, store_pool, create_pool_for_database, Phase, started,
  reading, missed, created, writing, returned, World, can_read, can_write, set_phase, drop_reader,
  advance, advance_from, run,
}

abbrev holds : ℕ → List ℕ → Bool
holds j readers = any (λ x. x == j) readers

-- Whoever holds a guard is in the phase for it.
abbrev pub IsHeld : World → Type 0
IsHeld w =
    ((j : ℕ) → holds j w.readers ≡ true → w.phase j ≡ reading)
    × ((j : ℕ) → w.writer ≡ some j → (p : RedisPool) × (w.phase j ≡ writing p))

-- the guard of the reader itself is gone, and the others' are left
holds-drop_reader :
    (i j : ℕ) (readers : List ℕ)
    → holds j (drop_reader i readers) ≡ true
    → (i ≢ j) × (holds j readers ≡ true)
unfolding drop_reader
holds-drop_reader i j [] h = cc h
holds-drop_reader i j (k ∷ readers) h = elim (==_cases k i) [
  | inl (y, e) ↦
      let (ne, m) = holds-drop_reader i j readers (rw (y) at h) in (ne, rw (m) (ground arith))
  | inr (n, e) ↦ elim (==_cases k j) [
    | inl (y, ej) ↦ (λ ei. e (ej ∙ sym ei), rw (y) refl)
    | inr (m, _) ↦ rw (m) (holds-drop_reader i j readers (rw (n, m) at h))
  ]
]

pub length-drop_reader :
    (i : ℕ) (readers : List ℕ) → length (drop_reader i readers) ≤ length readers
unfolding drop_reader
length-drop_reader i [] = omega arith
length-drop_reader i (j ∷ js) = ground (arith, length-drop_reader i js)

-- the phases of the other tasks
phase_other : (i j : ℕ) (ph : Phase) (w : World) → i ≢ j → (set_phase i ph w).phase j ≡ w.phase j
phase_other i j ph w n = elim (==_cases i j) [
  | inl (_, e) ↦ absurd (n e)
  | inr (y, _) ↦ rw (y) refl
]

pub phase_same : (i : ℕ) (ph : Phase) (w : World) → (set_phase i ph w).phase i ≡ ph
phase_same i ph w = rw (==_refl i) refl

-- tasks in different phases are different
differ : (i j : ℕ) (w : World) {a b : Phase} → w.phase i ≡ a → w.phase j ≡ b → a ≢ b → i ≢ j
differ i j w ha hb n e = n (sym ha ∙ (ap w.phase e ∙ hb))

-- A task goes on to a phase, with the guards that it takes and drops.
set_phase-IsHeld :
    (i : ℕ) (ph : Phase) (r : DatabasePoolRegistry) (readers : List ℕ) (writer : Option ℕ)
    (w : World)
    → IsHeld w
    → ((j : ℕ)
        → holds j readers ≡ true
        → ((i ≡ j) × (ph ≡ reading)) ⊎ ((i ≢ j) × (holds j w.readers ≡ true)))
    → ((j : ℕ)
        → writer ≡ some j
        → ((i ≡ j) × ((p : RedisPool) × (ph ≡ writing p))) ⊎ ((i ≢ j) × (w.writer ≡ some j)))
    → IsHeld (set_phase i ph (record w { registry = r; readers = readers; writer = writer }))
set_phase-IsHeld i ph r readers writer w (reads, writes) hr hw = (
  λ j m. elim (hr j m) [
    | inl (e, k) ↦ subst (λ x. (set_phase i ph w).phase x ≡ reading) e (phase_same i ph w ∙ k)
    | inr (n, k) ↦ phase_other i j ph w n ∙ reads j k
  ],
  λ j m. elim (hw j m) [
    | inl (e, (p, k)) ↦
        (p, subst (λ x. (set_phase i ph w).phase x ≡ writing p) e (phase_same i ph w ∙ k))
    | inr (n, k) ↦ let (p, l) = writes j k in (p, phase_other i j ph w n ∙ l)
  ],
)

module _ (i : ℕ) (a : Phase) (w : World) (held : IsHeld w) (at : w.phase i ≡ a) where
  keep_readers :
      a ≢ reading
      → (j : ℕ) {P : Type 0} → holds j w.readers ≡ true
      → P ⊎ ((i ≢ j) × (holds j w.readers ≡ true))
  keep_readers n j m = inr (differ i j w at (held.0 j m) n, m)

  keep_writer :
      ((p : RedisPool) → a ≢ writing p)
      → (j : ℕ) {P : Type 0} → w.writer ≡ some j
      → P ⊎ ((i ≢ j) × (w.writer ≡ some j))
  keep_writer n j m = let (p, k) = held.1 j m in inr (differ i j w at k (n p), m)

some-inj {ℓ} : {A : Type ℓ} (a b : A) → some a ≡ some b → a ≡ b
some-inj a b h = ap (λ o. unwrap_or o a) h

module _ (pooling : Pooling) (request : ℕ → ℕ) where
  pub advance-IsHeld : (i : ℕ) (w : World) → IsHeld w → IsHeld (advance pooling request i w)
  unfolding advance
  advance-IsHeld i w h = go (w.phase i) refl
    where
      go : (ph : Phase) → w.phase i ≡ ph → IsHeld (advance_from pooling i (request i) ph w)
      go started e = elim (Bool-cases (request i == w.registry.default_database)) [
        | inl y ↦ rw (y) (
            set_phase-IsHeld i _ w.registry w.readers w.writer w h
              (λ j. keep_readers i started w h e (λ k. cc k) j)
              (λ j. keep_writer i started w h e (λ _ k. cc k) j))
        | inr n ↦ elim (Bool-cases (can_read w.writer)) [
          | inl free ↦
              rw (n, free)
                (set_phase-IsHeld i reading w.registry (i ∷ w.readers) w.writer w h
                  (λ j m. elim (==_cases i j) [
                    | inl (_, same) ↦ inl (same, refl)
                    | inr (other, _) ↦ keep_readers i started w h e (λ k. cc k) j (rw (other) at m)
                  ])
                  (λ j. keep_writer i started w h e (λ _ k. cc k) j))
          | inr taken ↦ rw (n, taken) h
        ]
      ]
      go reading e =
          set_phase-IsHeld i _ w.registry (drop_reader i w.readers) w.writer w h
            (λ j m. inr (holds-drop_reader i j w.readers m))
            (λ j. keep_writer i reading w h e (λ _ k. cc k) j)
      go missed e =
          elim (Result-cases
            (create_pool_for_database pooling w.registry.base_config (request i) w.registry.made)) [
              | inl (m, f) ↦ rw (f) (
                  set_phase-IsHeld i _ w.registry w.readers w.writer w h
                    (λ j. keep_readers i missed w h e (λ k. cc k) j)
                    (λ j. keep_writer i missed w h e (λ _ k. cc k) j))
              | inr (p, f) ↦ rw (f) (
                  set_phase-IsHeld i (created p)
                    (record (w.registry) { made = w.registry.made + 1 }) w.readers w.writer w h
                    (λ j. keep_readers i missed w h e (λ k. cc k) j)
                    (λ j. keep_writer i missed w h e (λ _ k. cc k) j))
            ]
      go (created p) e = elim (Bool-cases (can_write w.readers w.writer)) [
        | inl free ↦ rw (free) (
            set_phase-IsHeld i (writing p) w.registry w.readers (some i) w h
              (λ j. keep_readers i (created p) w h e (λ k. cc k) j)
              (λ j m. inl (some-inj i j m, (p, refl))))
        | inr taken ↦ rw (taken) h
      ]
      go (writing p) e =
          set_phase-IsHeld i _ (store_pool (request i) p w.registry).1 w.readers none w h
            (λ j. keep_readers i (writing p) w h e (λ k. cc k) j) (λ j m. cc m)
      go (returned p) e = h

  pub run-IsHeld :
      (schedule : List ℕ) (w : World) → IsHeld w → IsHeld (run pooling request schedule w)
  unfolding run
  run-IsHeld [] w h = h
  run-IsHeld (i ∷ schedule) w h =
      run-IsHeld schedule (advance pooling request i w) (advance-IsHeld i w h)
