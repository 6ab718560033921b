-- ===== src/Bench/Rows.antt =====
-- The rows of the tables of crates/redis-web-bench/src/report.rs.
use redis_web.Prelude.{Option, none, some, List, [], ◌∷◌, ◌++◌, if◌then◌else◌, unwrap_or}
use redis_web.Text.{Bytes, codes, eq_bytes}
use redis_web.Text.Decimal.{to_string}
use redis_web.Bench.Model.{
  Floats, MetricSummary, WorkloadResult, SuiteResult, VariantBenchmarkResult,
}

-- `iter().find(|x| x.name == name)`
unfoldable pub find_named {ℓ} : {A : Type ℓ} → (A → Bytes) → Bytes → List A → Option A
find_named of name [] = none
find_named of name (a ∷ as') = if eq_bytes (of a) name then some a else find_named of name as'

-- `iter().map(text).collect::<String>()`
unfoldable pub concat_map {ℓ} : {A : Type ℓ} → (A → Bytes) → List A → Bytes
concat_map text [] = []
concat_map text (a ∷ as') = text a ++ concat_map text as'

-- `and_then` of options
abbrev pub and_then {ℓ ℓ'} : {A : Type ℓ} → {B : Type ℓ'} → Option A → (A → Option B) → Option B
and_then none f = none
and_then (some a) f = f a

-- a row of cells: `| a | b |` and the end of the line
abbrev pub row : List Bytes → Bytes
row cells =
    codes "|" ++ (concat_map (λ cell. codes " " ++ (cell ++ codes " |")) cells ++ codes "\n")

abbrev pub dash : Bytes
dash = codes "-"

-- the nine dashes of a row without metrics, and what stands behind them
abbrev pub without_metrics : Bytes → List Bytes
without_metrics note = dash ∷ dash ∷ dash ∷ dash ∷ dash ∷ dash ∷ dash ∷ dash ∷ dash ∷ note ∷ []

module _ (floats : Floats) where
  open floats use {F, minus, two_places, signed}

  unfoldable pub fmt_float : F → Bytes
  fmt_float value = two_places value

  unfoldable pub fmt_opt : Option F → Bytes
  fmt_opt none = dash
  fmt_opt (some value) = fmt_float value

  unfoldable pub fmt_delta : Option F → Option F → Bytes
  fmt_delta (some value) (some baseline) = signed (minus value baseline)
  fmt_delta _ _ = dash

  abbrev pub metrics_cells :
      MetricSummary floats → Option (MetricSummary floats) → Bytes → List Bytes
  metrics_cells metrics baseline note =
      fmt_opt metrics.p50_ms
      ∷ fmt_delta metrics.p50_ms (and_then baseline (λ b. b.p50_ms))
      ∷ fmt_opt metrics.p95_ms
      ∷ fmt_delta metrics.p95_ms (and_then baseline (λ b. b.p95_ms))
      ∷ fmt_opt metrics.p99_ms
      ∷ fmt_delta metrics.p99_ms (and_then baseline (λ b. b.p99_ms))
      ∷ fmt_float metrics.throughput_per_sec
      ∷ fmt_delta (some metrics.throughput_per_sec)
          (and_then baseline (λ b. some b.throughput_per_sec))
      ∷ to_string metrics.error_count
      ∷ note
      ∷ []

  abbrev row_cells :
      Option (MetricSummary floats) → Option Bytes → Option (MetricSummary floats) → List Bytes
  row_cells none notes baseline = without_metrics (unwrap_or notes (codes "n/a"))
  row_cells (some metrics) notes baseline = metrics_cells metrics baseline (unwrap_or notes [])

  unfoldable pub render_workload_row :
      VariantBenchmarkResult floats → WorkloadResult floats → Option (MetricSummary floats) → Bytes
  render_workload_row run workload baseline_metrics =
      row (run.name ∷ workload.name ∷ row_cells workload.metrics workload.notes baseline_metrics)

  abbrev pub suite_of : Bytes → VariantBenchmarkResult floats → Option (SuiteResult floats)
  suite_of name run = find_named (λ s. s.suite) name run.suites

  -- the metrics of a run for a workload of a suite
  unfoldable pub metrics_of :
      Bytes → Bytes → VariantBenchmarkResult floats → Option (MetricSummary floats)
  metrics_of suite workload run =
      and_then (suite_of suite run)
        (λ s. and_then (find_named (λ w. w.name) workload s.workloads) (λ w. w.metrics))

  abbrev pub baseline_metrics_of :
      Bytes → Bytes → Option (VariantBenchmarkResult floats) → Option (MetricSummary floats)
  baseline_metrics_of suite workload baseline = and_then baseline (metrics_of suite workload)
