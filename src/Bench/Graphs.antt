-- ===== src/Bench/Graphs.antt =====
-- The charts of crates/redis-web-bench/src/report.rs.
use redis_web.Prelude.{Option, none, some, List, [], ◌∷◌, ◌++◌, ◌==◌, map, if◌then◌else◌, is_empty}
use redis_web.Text.{Bytes, codes}
use redis_web.Bench.Spec.{insert_key}
use redis_web.Bench.Model.{Floats, MetricSummary, SuiteResult, VariantBenchmarkResult}
use redis_web.Bench.Rows.{
  concat_map, and_then, fmt_float, suite_of, metrics_of, baseline_metrics_of,
}

-- `collect` of names into a `BTreeSet`
unfoldable pub insert_names : List Bytes → List Bytes → List Bytes
insert_names [] names = names
insert_names (n ∷ ns) names = insert_names ns (insert_key n names)

-- `text.replace('"', "'")`
unfoldable pub escape_mermaid_text : Bytes → Bytes
escape_mermaid_text text = map (λ c. if c == b'"' then b'\'' else c) text

-- `join(", ")`
unfoldable pub join_commas : List Bytes → Bytes
join_commas [] = []
join_commas (s ∷ []) = s
join_commas (s ∷ t ∷ ss) = s ++ (codes ", " ++ join_commas (t ∷ ss))

-- `labels_json` is `serde_json::to_string` of a list of strings, which does not fail.
module _ (floats : Floats) (labels_json : List Bytes → Bytes) where
  open floats use {F, zero, one, hundred, headroom, times, over, gt, le, max, ceil, plain}

  -- the bars of a chart: the names of variants and their values
  abbrev pub Series : Type 0
  Series = List (Bytes × F)

  unfoldable pub max_value : F → Series → F
  max_value m [] = m
  max_value m ((_, value) ∷ series) = max_value (max m value) series

  abbrev y_axis_max : F → F
  y_axis_max m = if le m zero then one else ceil (times m headroom)

  abbrev chart : Bytes → Bytes → Series → Bytes
  chart title y_axis_label series =
      codes "```mermaid\nxychart-beta\n    title \""
      ++ (escape_mermaid_text title
          ++ (codes "\"\n    x-axis "
              ++ (labels_json (map (λ bar. bar.0) series)
                  ++ (codes "\n    y-axis \""
                      ++ (escape_mermaid_text y_axis_label
                          ++ (codes "\" 0 --> "
                              ++ (plain (y_axis_max (max_value zero series))
                                  ++ (codes "\n    bar ["
                                      ++ (join_commas (map (λ bar. fmt_float floats bar.1) series)
                                          ++ codes "]\n```\n\n")))))))))

  unfoldable pub render_bar_chart : Bytes → Bytes → Series → Bytes
  render_bar_chart title y_axis_label [] = []
  render_bar_chart title y_axis_label (bar ∷ series) = chart title y_axis_label (bar ∷ series)

  -- the four series of a workload
  pub record AllSeries : Type 0 where
    pub absolute_throughput : Series
    pub absolute_latency : Series
    pub throughput_pct : Series
    pub latency_pct : Series

  -- a bar, if there is a value
  abbrev pub with_bar : Bytes → Option F → Series → Series
  with_bar name none series = series
  with_bar name (some value) series = (name, value) ∷ series

  -- as a percentage of the baseline, if that is above 0
  abbrev percentage : F → F → Option F
  percentage value baseline =
      if gt baseline zero then some (times (over value baseline) hundred) else none

  abbrev both : Option F → Option F → (F → F → Option F) → Option F
  both (some a) (some b) f = f a b
  both _ _ f = none

  -- the bars of one run, before those of the later runs
  abbrev pub add_bars :
      Bytes → Option (MetricSummary floats) → Option (MetricSummary floats) → AllSeries → AllSeries
  add_bars name none baseline later = later
  add_bars name (some metrics) baseline later = record {
    absolute_throughput = with_bar name (some metrics.throughput_per_sec) later.absolute_throughput;
    absolute_latency = with_bar name metrics.p50_ms later.absolute_latency;
    throughput_pct =
        with_bar name
          (and_then baseline (λ b. percentage metrics.throughput_per_sec b.throughput_per_sec))
          later.throughput_pct;
    latency_pct =
        with_bar name (and_then baseline (λ b. both metrics.p50_ms b.p50_ms percentage))
          later.latency_pct;
  }

  -- the loop over the runs
  unfoldable pub collect_series :
      Bytes
      → Bytes
      → Option (MetricSummary floats)
      → List (VariantBenchmarkResult floats)
      → AllSeries
  collect_series suite workload baseline [] = record {
    absolute_throughput = [];
    absolute_latency = [];
    throughput_pct = [];
    latency_pct = [];
  }
  collect_series suite workload baseline (run ∷ runs) =
      add_bars run.name (metrics_of floats suite workload run) baseline
        (collect_series suite workload baseline runs)

  abbrev heading_of : Bytes → Bytes → Bytes → Bytes
  heading_of suite workload what = suite ++ (codes " / " ++ (workload ++ (codes " / " ++ what)))

  abbrev four_charts : Bytes → Bytes → AllSeries → Bytes
  four_charts suite workload all =
      codes "#### "
      ++ (workload
          ++ (codes "\n\n"
              ++ (render_bar_chart (heading_of suite workload (codes "throughput"))
                    (codes "ops/sec") all.absolute_throughput
                  ++ (render_bar_chart (heading_of suite workload (codes "p50 latency"))
                        (codes "ms") all.absolute_latency
                      ++ (render_bar_chart
                            (heading_of suite workload (codes "throughput vs baseline"))
                            (codes "% of baseline") all.throughput_pct
                          ++ render_bar_chart
                              (heading_of suite workload (codes "p50 latency vs baseline"))
                              (codes "% of baseline") all.latency_pct)))))

  abbrev workload_charts : Bytes → Bytes → AllSeries → Bytes
  workload_charts suite workload all =
      if is_empty all.absolute_throughput then [] else four_charts suite workload all

  abbrev names_in : Option (SuiteResult floats) → List Bytes
  names_in none = []
  names_in (some suite) = map (λ w. w.name) suite.workloads

  unfoldable pub workload_names :
      Bytes → List (VariantBenchmarkResult floats) → List Bytes → List Bytes
  workload_names suite [] names = names
  workload_names suite (run ∷ runs) names =
      workload_names suite runs (insert_names (names_in (suite_of floats suite run)) names)

  abbrev graphs :
      Bytes
      → Option (VariantBenchmarkResult floats)
      → List (VariantBenchmarkResult floats)
      → List Bytes
      → Bytes
  graphs suite baseline runs [] = []
  graphs suite baseline runs (n ∷ ns) =
      codes "### Graphs\n\n"
      ++ concat_map
          (λ workload. workload_charts suite workload (
            collect_series suite workload (baseline_metrics_of floats suite workload baseline)
              runs))
          (n ∷ ns)

  unfoldable pub render_suite_graphs :
      List (VariantBenchmarkResult floats) → Option (VariantBenchmarkResult floats) → Bytes → Bytes
  render_suite_graphs runs baseline suite =
      graphs suite baseline runs (workload_names suite runs [])
