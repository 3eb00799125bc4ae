-- ===== src/Decode.antt =====
-- pkg/scraper/client/resource/decode.go: from the samples of a kubelet's response to a batch.
-- The text format's parser (textparse of Prometheus) is not implemented here: a response is the
-- sequence of entries that the parser yields, and whether it ends in an error other than io.EOF.
pub mod Names
pub mod Labels
pub mod Switch
pub mod Kept
pub mod Sampled
pub mod Complete
pub mod Tracked
pub mod Updated
pub mod Containers
pub mod Counted
pub mod Followed
pub mod Sourced
pub mod Samples
pub mod Total
use metrics_server.Prelude.{
  ℕ, ◌+◌, ◌-◌, Option, none, some, List, [], ◌∷◌, Bool, true, false, ◌&&◌, ◌||◌, if◌then◌else◌, eqb,
  leb, GoString, gostring_eq, str, length, drop, take, ◌>>=?◌,
}
use metrics_server.Prelude.Int.{ℤ}
use metrics_server.Prelude.Dict.{Dict, lookup, contains, insert}
use metrics_server.Go.Time.{Time, unix, millis_to_nanos, is_zero}
use metrics_server.Go.Float.{Floats}
use metrics_server.Go.Result.{Result, ok, err, ◌>>=◌}
use metrics_server.Kube.{NamespacedName, namespaced_name_eq}
use metrics_server.Storage.Types.{MetricsPoint, PodMetricsPoint, MetricsBatch, zero_point}
use metrics_server.Storage.Pod.{Points, Pods, read_point}
use metrics_server.Series.{
  node_cpu_usage_metric_name, node_mem_usage_metric_name, container_cpu_usage_metric_name,
  container_mem_usage_metric_name, container_start_time_metric_name, timeseries_matches_name,
  parse_container_labels,
}

-- What `parser.Next()` and `parser.Series()` yield. A series has its text, its timestamp in
-- milliseconds, if it has one, and its value.
pub data Entry (F : Type 0) : Type 0 where
  series : GoString → Option ℤ → F → Entry F
  other : Entry F

pub record Response (F : Type 0) : Type 0 where
  pub entries : List (Entry F)
  -- the parser ends with an error other than io.EOF
  pub malformed : Bool

-- `panicked` is no error value of the program: the slice expression is out of range.
pub data DecodeError : Type 0 where
  parse_failed panicked : DecodeError

-- `pods[ref].Containers`, of an entry that is there
abbrev pub read_containers : NamespacedName → Pods → Points
read_containers ref pods = elim (lookup ref pods) [ none ↦ [] | some pod ↦ pod.containers ]

-- The two tests at the head of each parseContainer function, which make the entries.
add_pod : NamespacedName → Pods → Pods
add_pod ref pods = if contains ref pods then pods else insert ref (record { containers = [] }) pods

add_container : NamespacedName → GoString → Pods → Pods
unfolding add_pod
add_container ref name pods =
    let pods = add_pod ref pods in
    if contains name (read_containers ref pods)
    then pods
    else insert ref (record { containers = insert name zero_point (read_containers ref pods) }) pods

-- The change of one point: `containerMetrics` is read, changed by `f`, and written back.
pub update_container : NamespacedName → GoString → (MetricsPoint → MetricsPoint) → Pods → Pods
unfolding add_container
update_container ref name f pods =
    let pods = add_container ref name pods in
    let points = read_containers ref pods in
    insert ref (record { containers = insert name (f (read_point name points)) points }) pods

abbrev pub is_incomplete : MetricsPoint → Bool
is_incomplete point = eqb point.cumulative_cpu_used 0 || eqb point.memory_usage 0

-- `containerMetric != (storage.MetricsPoint{})`
abbrev pub is_empty : MetricsPoint → Bool
is_empty point =
    is_zero point.start_time
    && is_zero point.timestamp
    && eqb point.cumulative_cpu_used 0
    && eqb point.memory_usage 0

check_containers : Points → Points → Option Points
check_containers [] metrics = some metrics
check_containers ((name, point) ∷ points) metrics =
    let rest = check_containers points (insert name point metrics) in
    let skipped = check_containers points metrics in
    if is_empty point then skipped else if is_incomplete point then none else rest

-- `none` is the nil map.
unfoldable pub check_container_metrics : PodMetricsPoint → Option Points
unfolding check_containers
check_container_metrics pod = check_containers pod.containers []

-- The last loop of decodeBatch, over `pods`, on `res.Pods`.
complete_pods : Pods → Pods → Pods
unfolding check_container_metrics
complete_pods [] res = res
complete_pods ((ref, pod) ∷ pods) res = complete_pods pods (
    if eqb (length pod.containers) 0 then res else elim (check_container_metrics pod) [
      | none ↦ res
      | some points ↦ insert ref (record { containers = points }) res
    ])

complete_node : GoString → MetricsPoint → Dict GoString MetricsPoint
complete_node node_name node =
    if is_zero node.timestamp || eqb node.cumulative_cpu_used 0 || eqb node.memory_usage 0
    then []
    else insert node_name node []

-- The variables `node` and `pods` of the loop over the entries.
pub record Decoding : Type 0 where
  pub node : MetricsPoint
  pub pods : Pods

abbrev pub start : Decoding
start = record { node = zero_point; pods = [] }

-- What follows the loop.
finish : GoString → Decoding → MetricsBatch
unfolding complete_node complete_pods
finish node_name d = record {
  nodes = complete_node node_name d.node;
  pods = complete_pods d.pods [];
}

-- `time.Unix(0, timestamp*1e6)`
abbrev pub time_of_millis : ℤ → Time
time_of_millis timestamp = unix (millis_to_nanos timestamp)

module _ {F : Type 0} (fl : Floats F) where
  open fl use {mul, constant, to_uint64, to_int64}

  -- `value * 1e9`
  abbrev pub nanos : F → F
  nanos value = mul value (constant 1000000000 0)

  parse_node_cpu_usage_metrics : ℤ → F → MetricsPoint → MetricsPoint
  parse_node_cpu_usage_metrics timestamp value node = record node {
    cumulative_cpu_used = to_uint64 (nanos value);
    timestamp = time_of_millis timestamp;
  }

  parse_node_mem_usage_metrics : ℤ → F → MetricsPoint → MetricsPoint
  parse_node_mem_usage_metrics timestamp value node = record node {
    memory_usage = to_uint64 value;
    timestamp = time_of_millis timestamp;
  }

  parse_container_cpu_metrics : NamespacedName → GoString → ℤ → F → Pods → Pods
  unfolding update_container
  parse_container_cpu_metrics ref name timestamp value = update_container ref name λ point.
      record point {
        cumulative_cpu_used = to_uint64 (nanos value);
        timestamp = time_of_millis timestamp;
      }

  parse_container_mem_metrics : NamespacedName → GoString → ℤ → F → Pods → Pods
  unfolding update_container
  parse_container_mem_metrics ref name timestamp value =
      update_container ref name λ point. record point {
        memory_usage = to_uint64 value;
        timestamp = time_of_millis timestamp;
      }

  parse_container_start_time_metrics : NamespacedName → GoString → ℤ → F → Pods → Pods
  unfolding update_container
  parse_container_start_time_metrics ref name timestamp value =
      update_container ref name λ point. record point { start_time = unix (to_int64 (nanos value)) }

  -- One of the three container cases of the switch: the labels follow the metric's name.
  pub decode_container :
      (NamespacedName → GoString → ℤ → F → Pods → Pods)
      → GoString
      → GoString
      → ℤ
      → F
      → Decoding
      → Option Decoding
  decode_container parse name ts timestamp value d =
      parse_container_labels (drop (length name) ts) >>=? λ (ref, container).
      some (record d { pods = parse ref container timestamp value d.pods })

  -- The switch on the name of a series.
  decode_series : GoString → ℤ → F → Decoding → Option Decoding
  unfolding decode_container parse_node_cpu_usage_metrics parse_node_mem_usage_metrics
      parse_container_cpu_metrics parse_container_mem_metrics parse_container_start_time_metrics
  decode_series ts timestamp value d =
      if timeseries_matches_name ts node_cpu_usage_metric_name
      then some (record d { node = parse_node_cpu_usage_metrics timestamp value d.node })
      else if timeseries_matches_name ts node_mem_usage_metric_name
      then some (record d { node = parse_node_mem_usage_metrics timestamp value d.node })
      else if timeseries_matches_name ts container_cpu_usage_metric_name
      then decode_container parse_container_cpu_metrics container_cpu_usage_metric_name ts timestamp
          value d
      else if timeseries_matches_name ts container_mem_usage_metric_name
      then decode_container parse_container_mem_metrics container_mem_usage_metric_name ts timestamp
          value d
      else if timeseries_matches_name ts container_start_time_metric_name
      then decode_container parse_container_start_time_metrics container_start_time_metric_name ts
          timestamp value d
      else some d

  -- One round of the loop. `default_timestamp` is in milliseconds.
  decode_entry : ℤ → Entry F → Decoding → Option Decoding
  unfolding decode_series
  decode_entry default_timestamp other d = some d
  decode_entry default_timestamp (series ts none value) d =
      decode_series ts default_timestamp value d
  decode_entry default_timestamp (series ts (some timestamp) value) d =
      decode_series ts timestamp value d

  pub decode_entries : ℤ → List (Entry F) → Decoding → Option Decoding
  unfolding decode_entry
  decode_entries default_timestamp [] d = some d
  decode_entries default_timestamp (e ∷ entries) d = elim (decode_entry default_timestamp e d) [
    | none ↦ none
    | some d' ↦ decode_entries default_timestamp entries d'
  ]

  unfoldable pub decode_batch : Response F → ℤ → GoString → Result DecodeError MetricsBatch
  unfolding decode_entries finish
  decode_batch response default_timestamp node_name =
      elim (decode_entries default_timestamp response.entries start) [
        | none ↦ err panicked
        | some d ↦ if response.malformed then err parse_failed else ok (finish node_name d)
      ]
