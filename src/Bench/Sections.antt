-- ===== src/Bench/Sections.antt =====
-- Which sections the report of crates/redis-web-bench/src/report.rs has.
use redis_web.Prelude.{
  Bool, true, ◌||◌, List, [], ◌∷◌, any, map, ◌++◌, ◌≡◌, refl, arith, Bool-cases, inl, inr,
}
use redis_web.Text.{Bytes, eq_bytes, eq_bytes_cases, eq_bytes_sym}
use redis_web.Http.Json.{lt_bytes}
use redis_web.Http.Json.Sorted.{lt_bytes_total}
use redis_web.Bench.Spec.{insert_key}
use redis_web.Bench.Keys.{is_some, in_keys, insert_key-in_keys}
use redis_web.Bench.Model.{Floats, VariantBenchmarkResult, BenchmarkResults}
use redis_web.Bench.Rows.{find_named, concat_map, suite_of}
use redis_web.Bench.Graphs.{insert_names}
use redis_web.Bench.Report.{suite_names, baseline_of, preface, section, render_markdown_report}

-- names in order, none twice
unfoldable pub IsChain : Bytes → List Bytes → Type 0
IsChain b [] = Unit
IsChain b (k ∷ keys) = (lt_bytes b k ≡ true) × IsChain k keys

unfoldable pub IsAscending : List Bytes → Type 0
IsAscending [] = Unit
IsAscending (k ∷ keys) = IsChain k keys

insert_key-IsChain :
    (b key : Bytes) (keys : List Bytes)
    → lt_bytes b key ≡ true
    → IsChain b keys
    → IsChain b (insert_key key keys)
unfolding insert_key IsChain
insert_key-IsChain b key [] lt chain = (lt, _)
insert_key-IsChain b key (k ∷ keys) lt (before, chain) = elim (eq_bytes_cases k key) [
  | inl (e, _) ↦ rw (e) (before, chain)
  | inr (e, _) ↦ elim (Bool-cases (lt_bytes key k)) [
    | inl l ↦ rw (e, l) (lt, (l, chain))
    | inr ge ↦ rw (e, ge) (before, insert_key-IsChain k key keys (lt_bytes_total key k ge e) chain)
  ]
]

insert_key-IsAscending :
    (key : Bytes) (keys : List Bytes) → IsAscending keys → IsAscending (insert_key key keys)
unfolding insert_key IsAscending IsChain
insert_key-IsAscending key [] chain = _
insert_key-IsAscending key (k ∷ keys) chain = elim (eq_bytes_cases k key) [
  | inl (e, _) ↦ rw (e) chain
  | inr (e, _) ↦ elim (Bool-cases (lt_bytes key k)) [
    | inl l ↦ rw (e, l) (l, chain)
    | inr ge ↦ rw (e, ge) (insert_key-IsChain k key keys (lt_bytes_total key k ge e) chain)
  ]
]

insert_names-IsAscending :
    (ns names : List Bytes) → IsAscending names → IsAscending (insert_names ns names)
unfolding insert_names
insert_names-IsAscending [] names h = h
insert_names-IsAscending (n ∷ ns) names h =
    insert_names-IsAscending ns (insert_key n names) (insert_key-IsAscending n names h)

insert_names-in_keys :
    (x : Bytes) (ns names : List Bytes)
    → in_keys x (insert_names ns names) ≡ (in_keys x ns || in_keys x names)
unfolding insert_names
insert_names-in_keys x [] names = refl
insert_names-in_keys x (n ∷ ns) names =
    rw (insert_names-in_keys x ns (insert_key n names), insert_key-in_keys x n names) (ground arith)

-- a name is found where it stands
find_named-in_keys {ℓ} :
    {A : Type ℓ} (of : A → Bytes) (x : Bytes) (xs : List A)
    → in_keys x (map of xs) ≡ is_some (find_named of x xs)
unfolding find_named
find_named-in_keys of x [] = refl
find_named-in_keys of x (a ∷ as') = elim (Bool-cases (eq_bytes (of a) x)) [
  | inl e ↦ rw (eq_bytes_sym x (of a), e) refl
  | inr e ↦ rw (eq_bytes_sym x (of a), e) (find_named-in_keys of x as')
]

module _ (floats : Floats) where
  -- did the run have a result for the suite?
  abbrev pub ran : Bytes → VariantBenchmarkResult floats → Bool
  ran suite run = is_some (suite_of floats suite run)

  suite_names-IsAscending :
      (runs : List (VariantBenchmarkResult floats)) (names : List Bytes)
      → IsAscending names
      → IsAscending (suite_names floats runs names)
  unfolding suite_names
  suite_names-IsAscending [] names h = h
  suite_names-IsAscending (run ∷ runs) names h =
      suite_names-IsAscending runs (insert_names (map (λ s. s.suite) run.suites) names)
        (insert_names-IsAscending (map (λ s. s.suite) run.suites) names h)

  suite_names-in_keys :
      (x : Bytes) (runs : List (VariantBenchmarkResult floats)) (names : List Bytes)
      → in_keys x (suite_names floats runs names) ≡ (any (ran x) runs || in_keys x names)
  unfolding suite_names
  suite_names-in_keys x [] names = refl
  suite_names-in_keys x (run ∷ runs) names =
      rw
        (
          suite_names-in_keys x runs (insert_names (map (λ s. s.suite) run.suites) names),
          insert_names-in_keys x (map (λ s. s.suite) run.suites) names,
          find_named-in_keys (λ s. s.suite) x run.suites,
        )
        (ground arith)

  -- A report is its preface and then one section for each suite that some variant has a result for,
  -- and for no other, in the order of their names, each with the same baseline.
  pub render_markdown_report_sections :
      (labels_json : List Bytes → Bytes) (results : BenchmarkResults floats)
      → (names : List Bytes) × ((render_markdown_report floats labels_json results
            ≡ preface floats results
              ++ concat_map
                  (section floats labels_json
                    (baseline_of floats results.baseline_name results.runs)
                    results.runs)
                  names)
          × (IsAscending names × ((x : Bytes) → in_keys x names ≡ any (ran x) results.runs)))
  unfolding render_markdown_report IsAscending
  render_markdown_report_sections labels_json results = (
    suite_names floats results.runs [],
    (
      refl,
      (
        suite_names-IsAscending results.runs [] _,
        λ x. rw (suite_names-in_keys x results.runs []) (ground arith),
      ),
    ),
  )
