-- ===== src/Decode/Sampled.antt =====
-- What holds of every point while pkg/scraper/client/resource/decode.go reads a response.
use mathlib.Core.Option.{some-injective}
use mathlib.Core.Path.{subst}
use metrics_server.Prelude.{
  ◌^◌, ◌<◌, ◌≡◌, none, some, List, [], ◌∷◌, Bool, arith, GoString, gostring_eq, length, drop,
  Option-cases, inl, inr,
}
use metrics_server.Prelude.Int.{ℤ, wrap_int64-IsInt64, ◌*ℤ◌, pos}
use metrics_server.Go.Time.{unix, unix_pos, millis_to_nanos}
use metrics_server.Go.Float.{Floats}
use metrics_server.Kube.{NamespacedName, namespaced_name_eq}
use metrics_server.Storage.Types.{MetricsPoint, zero_point}
use metrics_server.Storage.Pod.{Pods}
use metrics_server.Decode.Kept.{AllPods, update_container-AllPods}
use metrics_server.Series.{
  timeseries_matches_name, node_cpu_usage_metric_name, node_mem_usage_metric_name,
  container_cpu_usage_metric_name, container_mem_usage_metric_name,
  container_start_time_metric_name, parse_container_labels,
}
use metrics_server.Decode.Switch.{either}
use metrics_server.Decode.{
  Entry, series, other, Decoding, start, time_of_millis, nanos, parse_node_cpu_usage_metrics,
  parse_node_mem_usage_metrics, parse_container_cpu_metrics, parse_container_mem_metrics,
  parse_container_start_time_metrics, decode_container, decode_series, decode_entry, decode_entries,
}

-- The counters are of type uint64, and one that is not zero came with a timestamp.
pub record IsSampled (point : MetricsPoint) : Type 0 where
  pub cpu_bound : point.cumulative_cpu_used < 2 ^ 64
  pub memory_bound : point.memory_usage < 2 ^ 64
  pub cpu_timed : 0 < point.cumulative_cpu_used → 0 < point.timestamp
  pub memory_timed : 0 < point.memory_usage → 0 < point.timestamp

zero_point-IsSampled : IsSampled zero_point
zero_point-IsSampled = ground arith

module _ {F : Type 0} (fl : Floats F) (timestamp : ℤ) (value : F) where
  time_of_millis_pos : 0 < time_of_millis timestamp
  unfolding millis_to_nanos
  time_of_millis_pos = unix_pos _ (wrap_int64-IsInt64 (timestamp *ℤ pos 1000000))

  parse_cpu-AllPods :
      (ref : NamespacedName) (name : GoString) (pods : Pods)
      → AllPods IsSampled pods
      → AllPods IsSampled (parse_container_cpu_metrics fl ref name timestamp value pods)
  unfolding parse_container_cpu_metrics
  parse_cpu-AllPods ref name pods =
      update_container-AllPods IsSampled zero_point-IsSampled ref name
        (λ point. record point {
          cumulative_cpu_used = fl.to_uint64 (nanos fl value);
          timestamp = time_of_millis timestamp;
        })
        pods
        λ point p. record {
          cpu_bound = fl.to_uint64-lt (nanos fl value);
          memory_bound = p.memory_bound;
          cpu_timed = λ _. time_of_millis_pos;
          memory_timed = λ _. time_of_millis_pos;
        }

  parse_mem-AllPods :
      (ref : NamespacedName) (name : GoString) (pods : Pods)
      → AllPods IsSampled pods
      → AllPods IsSampled (parse_container_mem_metrics fl ref name timestamp value pods)
  unfolding parse_container_mem_metrics
  parse_mem-AllPods ref name pods =
      update_container-AllPods IsSampled zero_point-IsSampled ref name
        (λ point. record point {
          memory_usage = fl.to_uint64 value;
          timestamp = time_of_millis timestamp;
        })
        pods
        λ point p. record {
          cpu_bound = p.cpu_bound;
          memory_bound = fl.to_uint64-lt value;
          cpu_timed = λ _. time_of_millis_pos;
          memory_timed = λ _. time_of_millis_pos;
        }

  parse_start-AllPods :
      (ref : NamespacedName) (name : GoString) (pods : Pods)
      → AllPods IsSampled pods
      → AllPods IsSampled (parse_container_start_time_metrics fl ref name timestamp value pods)
  unfolding parse_container_start_time_metrics
  parse_start-AllPods ref name pods =
      update_container-AllPods IsSampled zero_point-IsSampled ref name
        (λ point. record point { start_time = unix (fl.to_int64 (nanos fl value)) }) pods
        λ point p. record {
          cpu_bound = p.cpu_bound;
          memory_bound = p.memory_bound;
          cpu_timed = p.cpu_timed;
          memory_timed = p.memory_timed;
        }

-- The invariant of the loop over the entries.
pub record IsValid (d : Decoding) : Type 0 where
  pub node : IsSampled d.node
  pub pods : AllPods IsSampled d.pods

pub start-IsValid : IsValid start
start-IsValid = record { node = zero_point-IsSampled; pods = tt }

module _ {F : Type 0} (fl : Floats F) where
  decode_container-IsValid :
      (parse : NamespacedName → GoString → ℤ → F → Pods → Pods) (name ts : GoString) (timestamp : ℤ)
      (value : F) (d d' : Decoding)
      → ((ref : NamespacedName) (container : GoString) (pods : Pods)
          → AllPods IsSampled pods
          → AllPods IsSampled (parse ref container timestamp value pods))
      → IsValid d
      → decode_container fl parse name ts timestamp value d ≡ some d'
      → IsValid d'
  unfolding decode_container
  decode_container-IsValid parse name ts timestamp value d d' keep v e =
      elim (Option-cases (parse_container_labels (drop (length name) ts))) [
        | inl none_read ↦ absurd (ground arith)
        | inr ((ref, container), read) ↦
            subst IsValid
              (some-injective (record d { pods = parse ref container timestamp value d.pods }) d'
                (ground arith))
              (record { node = v.node; pods = keep ref container d.pods v.pods })
      ]

  node_cpu-IsValid :
      (timestamp : ℤ) (value : F) (d : Decoding)
      → IsValid d
      → IsValid (record d { node = parse_node_cpu_usage_metrics fl timestamp value d.node })
  unfolding parse_node_cpu_usage_metrics
  node_cpu-IsValid timestamp value d v = record {
    node = record {
      cpu_bound = fl.to_uint64-lt (nanos fl value);
      memory_bound = v.node.memory_bound;
      cpu_timed = λ _. time_of_millis_pos fl timestamp value;
      memory_timed = λ _. time_of_millis_pos fl timestamp value;
    };
    pods = v.pods;
  }

  node_mem-IsValid :
      (timestamp : ℤ) (value : F) (d : Decoding)
      → IsValid d
      → IsValid (record d { node = parse_node_mem_usage_metrics fl timestamp value d.node })
  unfolding parse_node_mem_usage_metrics
  node_mem-IsValid timestamp value d v = record {
    node = record {
      cpu_bound = v.node.cpu_bound;
      memory_bound = fl.to_uint64-lt value;
      cpu_timed = λ _. time_of_millis_pos fl timestamp value;
      memory_timed = λ _. time_of_millis_pos fl timestamp value;
    };
    pods = v.pods;
  }

  decode_series-IsValid :
      (ts : GoString) (timestamp : ℤ) (value : F) (d d' : Decoding)
      → IsValid d
      → decode_series fl ts timestamp value d ≡ some d'
      → IsValid d'
  unfolding decode_series
  decode_series-IsValid ts timestamp value d d' v =
      either (is node_cpu_usage_metric_name) IsValid _ _ d'
        (λ e. subst IsValid (some-injective _ d' e) (node_cpu-IsValid timestamp value d v))
        (either (is node_mem_usage_metric_name) IsValid _ _ d'
          (λ e. subst IsValid (some-injective _ d' e) (node_mem-IsValid timestamp value d v))
          (either (is container_cpu_usage_metric_name) IsValid _ _ d'
            (decode_container-IsValid (parse_container_cpu_metrics fl)
              container_cpu_usage_metric_name ts timestamp value d d'
              (parse_cpu-AllPods fl timestamp value) v)
            (either (is container_mem_usage_metric_name) IsValid _ _ d'
              (decode_container-IsValid (parse_container_mem_metrics fl)
                container_mem_usage_metric_name ts timestamp value d d'
                (parse_mem-AllPods fl timestamp value) v)
              (either (is container_start_time_metric_name) IsValid _ _ d'
                (decode_container-IsValid (parse_container_start_time_metrics fl)
                  container_start_time_metric_name ts timestamp value d d'
                  (parse_start-AllPods fl timestamp value) v)
                (λ e. subst IsValid (some-injective d d' e) v)))))
    where
      is : GoString → Bool
      is name = timeseries_matches_name ts name

  decode_entry-IsValid :
      (default_timestamp : ℤ) (entry : Entry F) (d d' : Decoding)
      → IsValid d
      → decode_entry fl default_timestamp entry d ≡ some d'
      → IsValid d'
  unfolding decode_entry
  decode_entry-IsValid t other d d' v = λ e. subst IsValid (some-injective d d' e) v
  decode_entry-IsValid t (series ts none value) d d' v = decode_series-IsValid ts t value d d' v
  decode_entry-IsValid t (series ts (some timestamp) value) d d' v =
      decode_series-IsValid ts timestamp value d d' v

  pub decode_entries-IsValid :
      (default_timestamp : ℤ) (entries : List (Entry F)) (d d' : Decoding)
      → IsValid d
      → decode_entries fl default_timestamp entries d ≡ some d'
      → IsValid d'
  unfolding decode_entries
  decode_entries-IsValid t [] d d' v e = subst IsValid (some-injective d d' e) v
  decode_entries-IsValid t (x ∷ entries) d d' v e = elim (Option-cases (decode_entry fl t x d)) [
    | inl stopped ↦ absurd (ground arith)
    | inr (m, step) ↦
        decode_entries-IsValid t entries m d' (decode_entry-IsValid t x d m v step) (ground arith)
  ]
