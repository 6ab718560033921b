-- ===== src/Bench/ReportTests.antt =====
-- A report of one workload, for crates/redis-web-bench/src/report.rs.
use redis_web.Prelude.{
  ℕ, ◌-◌, ◌*◌, ◌/◌, none, some, List, [], ◌∷◌, ◌++◌, any, if◌then◌else◌, ltb, leb, ◌≡◌, refl,
}
use redis_web.Text.{Bytes, codes}
use redis_web.Text.Decimal.{to_string}
use redis_web.Bench.Keys.{in_keys}
use redis_web.Bench.Model.{
  Floats, WorkloadResult, completed, VariantBenchmarkResult, BenchmarkResults,
}
use redis_web.Bench.Rows.{
  find_named, concat_map, fmt_float, fmt_opt, fmt_delta, render_workload_row, metrics_of,
}
use redis_web.Bench.Graphs.{collect_series}
use redis_web.Bench.Report.{baseline_of, preface, section, render_markdown_report}
use redis_web.Bench.Sections.{IsAscending, ran, render_markdown_report_sections}

-- Whole numbers in place of floats.
abbrev whole : Floats
whole = record {
  F = ℕ;
  zero = 0;
  one = 1;
  hundred = 100;
  headroom = 1;
  minus = λ m n. m - n;
  times = λ m n. m * n;
  over = λ m n. m / n;
  gt = λ m n. ltb n m;
  le = λ m n. leb m n;
  max = λ m n. if ltb m n then n else m;
  ceil = λ n. n;
  plain = to_string;
  two_places = to_string;
  signed = λ n. codes "+" ++ to_string n;
}

abbrev ping : ℕ → WorkloadResult whole
ping throughput = record {
  name = codes "ping";
  metrics = some (record {
    attempted_ops = 1;
    success_count = 1;
    error_count = 0;
    p50_ms = some 2;
    p95_ms = none;
    p99_ms = none;
    throughput_per_sec = throughput;
  });
  notes = none;
}

abbrev variant : ℕ → VariantBenchmarkResult whole
variant throughput = record {
  name = codes "fast";
  redis_endpoint = codes "local";
  transport_mode = codes "rest";
  config_diff = [];
  suites =
      record { suite = codes "commands"; status = completed; workloads = ping throughput ∷ [] }
      ∷ [];
}

row_of_ping :
    render_workload_row whole
      (variant 120)
      (ping 120)
      (metrics_of whole (codes "commands") (codes "ping") (variant 100))
    ≡ codes "| fast | ping | 2 | +0 | - | - | - | - | 120 | +20 | 0 |  |\n"
unfolding render_workload_row metrics_of find_named concat_map fmt_opt fmt_float fmt_delta to_string
row_of_ping = refl

chart_of_ping :
    (collect_series whole
      (λ _. [])
      (codes "commands")
      (codes "ping")
      (metrics_of whole (codes "commands") (codes "ping") (variant 100))
      (variant 120 ∷ [])).throughput_pct
    ≡ (codes "fast", 100) ∷ []
unfolding collect_series metrics_of find_named
chart_of_ping = refl

abbrev results : BenchmarkResults whole
results = record {
  generated_at = codes "now";
  suite_version = codes "v1";
  git_sha = none;
  environment = record {
    hostname = none;
    os = codes "linux";
    arch = codes "x";
    cpu_parallelism = 8;
  };
  baseline_name = codes "fast";
  runs = variant 120 ∷ [];
}

render_markdown_report_sections_example :
    (names : List Bytes) × ((render_markdown_report whole (λ _. []) results
        ≡ preface whole results
          ++ concat_map
              (section whole
                (λ _. [])
                (baseline_of whole (codes "fast") (variant 120 ∷ []))
                (variant 120 ∷ []))
              names)
      × (IsAscending names
          × ((x : Bytes) → in_keys x names ≡ any (ran whole x) (variant 120 ∷ []))))
render_markdown_report_sections_example = render_markdown_report_sections whole (λ _. []) results
