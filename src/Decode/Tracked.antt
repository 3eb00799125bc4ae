-- ===== src/Decode/Tracked.antt =====
-- The last samples of the node's two metrics, and that decoding tracks them
-- (pkg/scraper/client/resource/decode.go).
use mathlib.Core.Path.{subst}
use metrics_server.Prelude.{
  ℕ, ◌≡◌, refl, sym, ap, ◌∙◌, Option, none, some, List, [], ◌∷◌, false, ◌||◌, arith, GoString,
  if◌then◌else◌, gostring_eq, Option-cases, Bool-cases, inl, inr,
}
use metrics_server.Prelude.Int.{ℤ}
use metrics_server.Go.Time.{Time}
use metrics_server.Go.Float.{Floats}
use metrics_server.Kube.{NamespacedName}
use metrics_server.Storage.Types.{MetricsPoint}
use metrics_server.Storage.Pod.{Pods}
use mathlib.Core.Option.{some-injective}
use metrics_server.Decode.Switch.{unmatched, either}
use metrics_server.Series.{
  timeseries_matches_name, node_cpu_usage_metric_name, node_mem_usage_metric_name,
  container_cpu_usage_metric_name, container_mem_usage_metric_name,
  container_start_time_metric_name,
}
use metrics_server.Decode.{
  Entry, series, other, Decoding, nanos, time_of_millis, parse_node_cpu_usage_metrics,
  parse_node_mem_usage_metrics, parse_container_cpu_metrics, parse_container_mem_metrics,
  parse_container_start_time_metrics, decode_container, decode_series, decode_entry, decode_entries,
}

abbrev series_time : GoString → ℤ → Time → Time
series_time ts timestamp before =
    if timeseries_matches_name ts node_cpu_usage_metric_name
      || timeseries_matches_name ts node_mem_usage_metric_name
    then time_of_millis timestamp
    else before

module _ {F : Type 0} where
  abbrev series_value : GoString → GoString → F → Option F → Option F
  series_value name ts value before = if timeseries_matches_name ts name then some value else before

  abbrev sample : GoString → Entry F → Option F → Option F
  sample name other before = before
  sample name (series ts timestamp value) before = series_value name ts value before

  -- The value of the last sample of a metric, or `before` if there is none.
  abbrev pub last_value : GoString → List (Entry F) → Option F → Option F
  last_value name [] before = before
  last_value name (e ∷ entries) before = last_value name entries (sample name e before)

  abbrev sample_time : ℤ → Entry F → Time → Time
  sample_time default_timestamp other before = before
  sample_time default_timestamp (series ts none value) before =
      series_time ts default_timestamp before
  sample_time default_timestamp (series ts (some timestamp) value) before =
      series_time ts timestamp before

  -- The time of the last sample of either node metric, or `before` if there is none. A sample without
  -- a timestamp has the default one.
  abbrev pub last_time : ℤ → List (Entry F) → Time → Time
  last_time default_timestamp [] before = before
  last_time default_timestamp (e ∷ entries) before =
      last_time default_timestamp entries (sample_time default_timestamp e before)

  abbrev pub value_or_zero : (F → ℕ) → Option F → ℕ
  value_or_zero f none = 0
  value_or_zero f (some value) = f value

module _ {F : Type 0} (fl : Floats F) where
  -- The node's two counters and its time, from the last samples so far.
  pub record Tracks (d : Decoding) (cpu mem : Option F) (time : Time) : Type 0 where
    pub cpu_used : d.node.cumulative_cpu_used ≡ value_or_zero (λ v. fl.to_uint64 (nanos fl v)) cpu
    pub memory_used : d.node.memory_usage ≡ value_or_zero fl.to_uint64 mem
    pub timed : d.node.timestamp ≡ time

  node-decode_container :
      (parse : NamespacedName → GoString → ℤ → F → Pods → Pods) (name ts : GoString) (timestamp : ℤ)
      (value : F) (d d' : Decoding)
      → decode_container fl parse name ts timestamp value d ≡ some d'
      → d'.node ≡ d.node
  unfolding decode_container
  node-decode_container parse name ts timestamp value d d' e = ground arith

  -- A series of neither node metric leaves the node's point as it is.
  decode_series-other_node :
      (ts : GoString) (timestamp : ℤ) (value : F) (d d' : Decoding)
      → timeseries_matches_name ts node_cpu_usage_metric_name ≡ false
      → timeseries_matches_name ts node_mem_usage_metric_name ≡ false
      → decode_series fl ts timestamp value d ≡ some d'
      → d'.node ≡ d.node
  unfolding decode_series
  decode_series-other_node ts timestamp value d d' c m e =
      either (timeseries_matches_name ts container_cpu_usage_metric_name) (λ x. x.node ≡ d.node) _ _
        d'
        (node-decode_container (parse_container_cpu_metrics fl) container_cpu_usage_metric_name ts
          timestamp value d d')
        (either (timeseries_matches_name ts container_mem_usage_metric_name) (λ x. x.node ≡ d.node)
          _ _ d'
          (node-decode_container (parse_container_mem_metrics fl) container_mem_usage_metric_name ts
            timestamp value d d')
          (either (timeseries_matches_name ts container_start_time_metric_name)
            (λ x. x.node ≡ d.node) _ _ d'
            (node-decode_container (parse_container_start_time_metrics fl)
              container_start_time_metric_name ts timestamp value d d')
            (λ same. ground arith)))
        (rw (c, m) at e)

  decode_series-Tracks :
      (ts : GoString) (timestamp : ℤ) (value : F) (d d' : Decoding) (cpu mem : Option F)
      (time : Time)
      → Tracks d cpu mem time
      → decode_series fl ts timestamp value d ≡ some d'
      → Tracks d'
          (series_value node_cpu_usage_metric_name ts value cpu)
          (series_value node_mem_usage_metric_name ts value mem)
          (series_time ts timestamp time)
  unfolding decode_series parse_node_cpu_usage_metrics parse_node_mem_usage_metrics gostring_eq
  decode_series-Tracks ts timestamp value d d' cpu mem time t e =
      elim (Bool-cases (timeseries_matches_name ts node_cpu_usage_metric_name)) [
        | inl c ↦
            let d'' = record d { node = parse_node_cpu_usage_metrics fl timestamp value d.node } in
            let n = ap (λ (x : Decoding). x.node) (some-injective d'' d' (rw c at e)) in
            rw
              (
                c,
                unmatched ts node_cpu_usage_metric_name node_mem_usage_metric_name refl refl refl c,
              )
              (record {
                cpu_used = sym (ap (λ (x : MetricsPoint). x.cumulative_cpu_used) n);
                memory_used = sym (ap (λ (x : MetricsPoint). x.memory_usage) n) ∙ t.memory_used;
                timed = sym (ap (λ (x : MetricsPoint). x.timestamp) n);
              })
        | inr c ↦ elim (Bool-cases (timeseries_matches_name ts node_mem_usage_metric_name)) [
          | inl m ↦
              let d'' = record d {
                node = parse_node_mem_usage_metrics fl timestamp value d.node;
              } in
              let n = ap (λ (x : Decoding). x.node) (some-injective d'' d' (rw (c, m) at e)) in
              rw (c, m)
                (record {
                  cpu_used = sym (ap (λ (x : MetricsPoint). x.cumulative_cpu_used) n) ∙ t.cpu_used;
                  memory_used = sym (ap (λ (x : MetricsPoint). x.memory_usage) n);
                  timed = sym (ap (λ (x : MetricsPoint). x.timestamp) n);
                })
          | inr m ↦
              let n = decode_series-other_node ts timestamp value d d' c m e in
              rw (c, m)
                (record {
                  cpu_used = ap (λ (x : MetricsPoint). x.cumulative_cpu_used) n ∙ t.cpu_used;
                  memory_used = ap (λ (x : MetricsPoint). x.memory_usage) n ∙ t.memory_used;
                  timed = ap (λ (x : MetricsPoint). x.timestamp) n ∙ t.timed;
                })
        ]
      ]

  decode_entry-Tracks :
      (default_timestamp : ℤ) (entry : Entry F) (d d' : Decoding) (cpu mem : Option F) (time : Time)
      → Tracks d cpu mem time
      → decode_entry fl default_timestamp entry d ≡ some d'
      → Tracks d'
          (sample node_cpu_usage_metric_name entry cpu)
          (sample node_mem_usage_metric_name entry mem)
          (sample_time default_timestamp entry time)
  unfolding decode_entry
  decode_entry-Tracks u other d d' cpu mem time t =
      λ e. subst (λ x. Tracks x cpu mem time) (some-injective d d' e) t
  decode_entry-Tracks u (series ts none value) d d' cpu mem time t =
      decode_series-Tracks ts u value d d' cpu mem time t
  decode_entry-Tracks u (series ts (some timestamp) value) d d' cpu mem time t =
      decode_series-Tracks ts timestamp value d d' cpu mem time t

  pub decode_entries-Tracks :
      (default_timestamp : ℤ) (entries : List (Entry F)) (d d' : Decoding) (cpu mem : Option F)
      (time : Time)
      → Tracks d cpu mem time
      → decode_entries fl default_timestamp entries d ≡ some d'
      → Tracks d'
          (last_value node_cpu_usage_metric_name entries cpu)
          (last_value node_mem_usage_metric_name entries mem)
          (last_time default_timestamp entries time)
  unfolding decode_entries
  decode_entries-Tracks u [] d d' cpu mem time t e =
      subst (λ x. Tracks x cpu mem time) (some-injective d d' e) t
  decode_entries-Tracks u (x ∷ entries) d d' cpu mem time t e =
      elim (Option-cases (decode_entry fl u x d)) [
        | inl stopped ↦ absurd (ground arith)
        | inr (m, step) ↦
            decode_entries-Tracks u entries m d' (sample node_cpu_usage_metric_name x cpu)
              (sample node_mem_usage_metric_name x mem) (sample_time u x time)
              (decode_entry-Tracks u x d m cpu mem time t step) (ground arith)
      ]
