-- ===== src/Bench/Model.antt =====
-- The results of crates/redis-web-bench/src/model.rs, over a type of 64-bit floats.
use redis_web.Prelude.{ℕ, Bool, Option, List}
use redis_web.Text.{Bytes}
use redis_web.Bench.Spec.{ConfigDiff}

-- What the report computes with `f64`, and prints of it.
pub record Floats : Type 1 where
  pub F : Type 0
  pub zero : F
  pub one : F
  pub hundred : F
  pub headroom : F
  pub minus : F → F → F
  pub times : F → F → F
  pub over : F → F → F
  pub gt : F → F → Bool
  pub le : F → F → Bool
  pub max : F → F → F
  pub ceil : F → F
  -- `{}`, `{:.2}` and `{:+.2}`
  pub plain : F → Bytes
  pub two_places : F → Bytes
  pub signed : F → Bytes

module _ (floats : Floats) where
  open floats use {F}

  pub record MetricSummary : Type 0 where
    pub attempted_ops : ℕ
    pub success_count : ℕ
    pub error_count : ℕ
    pub p50_ms : Option F
    pub p95_ms : Option F
    pub p99_ms : Option F
    pub throughput_per_sec : F

  pub record WorkloadResult : Type 0 where
    pub name : Bytes
    pub metrics : Option MetricSummary
    pub notes : Option Bytes

pub data SuiteStatus : Type 0 where
  completed : SuiteStatus
  skipped : Bytes → SuiteStatus

pub record EnvironmentSummary : Type 0 where
  pub hostname : Option Bytes
  pub os : Bytes
  pub arch : Bytes
  pub cpu_parallelism : ℕ

module _ (floats : Floats) where
  pub record SuiteResult : Type 0 where
    pub suite : Bytes
    pub status : SuiteStatus
    pub workloads : List (WorkloadResult floats)

  pub record VariantBenchmarkResult : Type 0 where
    pub name : Bytes
    pub redis_endpoint : Bytes
    pub transport_mode : Bytes
    pub config_diff : List ConfigDiff
    pub suites : List SuiteResult

  pub record BenchmarkResults : Type 0 where
    pub generated_at : Bytes
    pub suite_version : Bytes
    pub git_sha : Option Bytes
    pub environment : EnvironmentSummary
    pub baseline_name : Bytes
    pub runs : List VariantBenchmarkResult
