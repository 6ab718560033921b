-- ===== src/Bench/Report.antt =====
-- `render_markdown_report` of crates/redis-web-bench/src/report.rs.
use redis_web.Prelude.{Option, none, some, List, [], ◌∷◌, ◌++◌, map}
use redis_web.Text.{Bytes, codes}
use redis_web.Text.Decimal.{to_string}
use redis_web.Bench.Spec.{ConfigDiff}
use redis_web.Bench.Model.{
  Floats, WorkloadResult, SuiteStatus, completed, skipped, EnvironmentSummary, SuiteResult,
  VariantBenchmarkResult, BenchmarkResults,
}
use redis_web.Bench.Rows.{
  find_named, concat_map, row, dash, without_metrics, render_workload_row, suite_of,
  baseline_metrics_of,
}
use redis_web.Bench.Graphs.{insert_names, render_suite_graphs}

-- a line of the lists at the top: a label, and a text in backquotes
abbrev pub entry : Bytes → Bytes → Bytes
entry label text = codes "- " ++ (label ++ (codes ": `" ++ (text ++ codes "`\n")))

abbrev git_sha_entry : Option Bytes → Bytes
git_sha_entry none = []
git_sha_entry (some sha) = entry (codes "Git SHA") sha

abbrev environment_entry : EnvironmentSummary → Bytes
environment_entry environment =
    codes "- Environment: `"
    ++ (environment.os
        ++ (codes "/"
            ++ (environment.arch
                ++ (codes "` with `"
                    ++ (to_string environment.cpu_parallelism ++ codes "` logical CPUs\n\n")))))

abbrev diff_line : ConfigDiff → Bytes
diff_line diff =
    codes "  - `"
    ++ (diff.key
        ++ (codes "`: `" ++ (diff.before ++ (codes "` -> `" ++ (diff.after ++ codes "`\n")))))

abbrev diff_lines : List ConfigDiff → Bytes
diff_lines [] = codes "- Changed config: baseline\n\n"
diff_lines (diff ∷ diffs) =
    codes "- Changed config:\n" ++ (concat_map diff_line (diff ∷ diffs) ++ codes "\n")

-- "Δ " and a name
abbrev delta : Bytes → Bytes
delta name = 0xce ∷ 0x94 ∷ codes " " ++ name

abbrev table_head : Bytes
table_head =
    row (
      codes "Variant"
      ∷ codes "Workload"
      ∷ codes "p50 ms"
      ∷ delta (codes "p50")
      ∷ codes "p95 ms"
      ∷ delta (codes "p95")
      ∷ codes "p99 ms"
      ∷ delta (codes "p99")
      ∷ codes "Throughput/s"
      ∷ delta (codes "throughput")
      ∷ codes "Errors"
      ∷ codes "Notes"
      ∷ [])
    ++ codes "| --- | --- | ---: | ---: | ---: | ---: | ---: | ---: | ---: | ---: | ---: | --- |\n"

abbrev or_else {ℓ} : {A : Type ℓ} → Option A → Option A → Option A
or_else none other = other
or_else (some a) other = some a

abbrev first {ℓ} : {A : Type ℓ} → List A → Option A
first [] = none
first (a ∷ as') = some a

module _ (floats : Floats) where
  abbrev change : VariantBenchmarkResult floats → Bytes
  change run =
      codes "### "
      ++ (run.name
          ++ (codes "\n\n"
              ++ (entry (codes "Transport") run.transport_mode
                  ++ (entry (codes "Redis endpoint") run.redis_endpoint
                      ++ diff_lines run.config_diff))))

  -- what stands before the sections
  abbrev pub preface : BenchmarkResults floats → Bytes
  preface results =
      codes "# Configuration Benchmark Report\n\n"
      ++ (entry (codes "Generated at") results.generated_at
          ++ (entry (codes "Suite version") results.suite_version
              ++ (git_sha_entry results.git_sha
                  ++ (environment_entry results.environment
                      ++ (codes "## Config Changes\n\n" ++ concat_map change results.runs)))))

  unfoldable pub baseline_of :
      Bytes → List (VariantBenchmarkResult floats) → Option (VariantBenchmarkResult floats)
  baseline_of name runs = or_else (find_named (λ run. run.name) name runs) (first runs)

  unfoldable pub suite_names : List (VariantBenchmarkResult floats) → List Bytes → List Bytes
  suite_names [] names = names
  suite_names (run ∷ runs) names =
      suite_names runs (insert_names (map (λ s. s.suite) run.suites) names)

  abbrev status_rows :
      Bytes
      → Option (VariantBenchmarkResult floats)
      → VariantBenchmarkResult floats
      → SuiteStatus
      → List (WorkloadResult floats)
      → Bytes
  status_rows suite baseline run completed workloads =
      concat_map
        (λ w. render_workload_row floats run w (baseline_metrics_of floats suite w.name baseline))
        workloads
  status_rows suite baseline run (skipped reason) workloads =
      row (run.name ∷ dash ∷ without_metrics reason)

  -- the rows of a run in the table of a suite
  abbrev run_rows :
      Bytes
      → Option (VariantBenchmarkResult floats)
      → VariantBenchmarkResult floats
      → Option (SuiteResult floats)
      → Bytes
  run_rows suite baseline run none = row (run.name ∷ dash ∷ without_metrics (codes "suite missing"))
  run_rows suite baseline run (some result) =
      status_rows suite baseline run result.status result.workloads

module _ (floats : Floats) (labels_json : List Bytes → Bytes) where
  abbrev pub section :
      Option (VariantBenchmarkResult floats) → List (VariantBenchmarkResult floats) → Bytes → Bytes
  section baseline runs suite =
      codes "## "
      ++ (suite
          ++ (codes "\n\n"
              ++ (render_suite_graphs floats labels_json runs baseline suite
                  ++ (table_head
                      ++ (concat_map
                            (λ run. run_rows floats suite baseline run (suite_of floats suite run))
                            runs
                          ++ codes "\n")))))

  unfoldable pub render_markdown_report : BenchmarkResults floats → Bytes
  render_markdown_report results =
      preface floats results
      ++ concat_map (section (baseline_of floats results.baseline_name results.runs) results.runs)
          (suite_names floats results.runs [])
