-- ===== src/Storage/Pod.antt =====
-- pkg/storage/pod.go: the store of the last two points of each container of each pod.
pub mod Containers
pub mod Lookups
pub mod Ordered
pub mod Origin
pub mod Distinct
pub mod Present
pub mod Usages
pub mod Reports
pub mod Live
pub mod Alike
pub mod Again
use metrics_server.Prelude.{
  ℕ, suc, ◌+◌, ◌*◌, Option, none, some, List, [], ◌∷◌, ◌++◌, Bool, GoString, gostring_eq, not, ◌&&◌,
  ◌||◌, if◌then◌else◌, ◌>>=?◌, length, ltb,
}
use metrics_server.Prelude.Int.{pos, ltb_ℤ}
use metrics_server.Prelude.Dict.{Dict, lookup, contains, insert}
use metrics_server.Go.Time.{Time, Duration, before, after, sub, second, is_zero}
use metrics_server.Go.Float.{Floats}
use metrics_server.Go.Result.{ok, err}
use metrics_server.Kube.{
  NamespacedName, namespaced_name_eq, PartialObjectMetadata, PodMetrics, ContainerMetrics,
  Quantities, ResourceList,
}
use metrics_server.Storage.Types.{
  MetricsPoint, PodMetricsPoint, MetricsBatch, TimeInfo, zero_point, resource_usage,
}

abbrev pub Points : Type 0
Points = Dict GoString MetricsPoint

abbrev pub Pods : Type 0
Pods = Dict NamespacedName PodMetricsPoint

abbrev pub fresh_container_min_metrics_resolution : Duration
fresh_container_min_metrics_resolution = pos (10 * second)

pub record PodStorage : Type 0 where
  pub last : Pods
  pub prev : Pods
  pub metric_resolution : Duration
  -- the gauge `points_stored` with the label "container"
  pub points_stored : ℕ

-- `podStorage{metricResolution: metricResolution}`
abbrev pub empty : Duration → PodStorage
empty resolution = record {
  last = [];
  prev = [];
  metric_resolution = resolution;
  points_stored = 0;
}

-- The test on a container that started within the last resolution, but not too recently.
unfoldable pub is_fresh : Duration → MetricsPoint → Bool
is_fresh resolution point =
    before point.start_time point.timestamp
    && ltb_ℤ (sub point.timestamp point.start_time) resolution
    && not (ltb_ℤ (sub point.timestamp point.start_time) fresh_container_min_metrics_resolution)

-- `copied`: the point at the start of the container, where no CPU time is used.
abbrev pub at_start : MetricsPoint → MetricsPoint
at_start point = record point { timestamp = point.start_time; cumulative_cpu_used = 0 }

-- `containers[name]`, read without a test
abbrev pub read_point : GoString → Points → MetricsPoint
read_point name points = elim (lookup name points) [ none ↦ zero_point | some point ↦ point ]

-- The cases under `if lastPod, found := s.last[podRef]; found`, on `newPrevPod.Containers`.
store_stored : PodStorage → NamespacedName → GoString → MetricsPoint → Points → Points
store_stored s ref name point prevs = elim (lookup ref s.last) [
  | none ↦ prevs
  | some last_pod ↦ elim (lookup name last_pod.containers) [
    | none ↦ prevs
    | some last_container ↦
        if before point.start_time last_container.timestamp
        then (if after point.timestamp last_container.timestamp
            then insert name last_container prevs
            else elim (lookup ref s.prev) [
              | none ↦ prevs
              | some prev_pod ↦
                  let kept = read_point name prev_pod.containers in
                  if before kept.timestamp point.timestamp then insert name kept prevs else prevs
            ])
        else prevs
  ]
]

-- One round of the loop over `newPod.Containers`.
store_container :
    PodStorage → NamespacedName → GoString → MetricsPoint → Points × Points → Points × Points
unfolding store_stored is_fresh
store_container s ref name point (lasts, prevs) = if contains name lasts then (lasts, prevs) else (
  insert name point lasts,
  if is_fresh s.metric_resolution point
      then insert name (at_start point) prevs
      else store_stored s ref name point prevs,
)

pub store_containers : PodStorage → NamespacedName → Points → Points × Points → Points × Points
unfolding store_container
store_containers s ref [] maps = maps
store_containers s ref ((name, point) ∷ points) maps =
    store_containers s ref points (store_container s ref name point maps)

-- `lastPods`, `prevPods` and `containerCount` under construction.
abbrev pub Maps : Type 0
Maps = Pods × Pods × ℕ

-- One round of the loop over `newPods.Pods`.
store_pod : PodStorage → NamespacedName → PodMetricsPoint → Maps → Maps
unfolding store_containers
store_pod s ref pod (lasts, prevs, count) =
    let (new_last, new_prev) = store_containers s ref pod.containers ([], []) in
    if contains ref lasts then (lasts, prevs, count) else (
      insert ref (record { containers = new_last }) lasts,
      if ltb 0 (length new_prev)
          then insert ref (record { containers = new_prev }) prevs
          else prevs,
      count + length new_prev,
    )

store_pods : PodStorage → Pods → Maps → Maps
unfolding store_pod
store_pods s [] maps = maps
store_pods s ((ref, pod) ∷ pods) maps = store_pods s pods (store_pod s ref pod maps)

unfoldable pub store : PodStorage → MetricsBatch → PodStorage
unfolding store_pods
store s new_pods =
    let (lasts, prevs, count) = store_pods s new_pods.pods ([], [], 0) in
    record s { last = lasts; prev = prevs; points_stored = count }

-- `earliestTimeInfo` after one more container.
pub earliest : TimeInfo → TimeInfo → TimeInfo
earliest info new =
    if is_zero info.timestamp || after info.timestamp new.timestamp then new else info

abbrev pub no_time : TimeInfo
no_time = record { timestamp = 0; window = pos 0 }

abbrev pub pod_ref : PartialObjectMetadata → NamespacedName
pod_ref pod = record { namespace = pod.namespace; name = pod.name }

module _ {F Q : Type 0} (fl : Floats F) (qs : Quantities Q) where
  -- The loop over `lastPod.Containers`; `none` is its `break`, with allContainersPresent = false.
  pub container_usages :
      Points
      → Points
      → List (ContainerMetrics Q)
      → TimeInfo
      → Option (List (ContainerMetrics Q) × TimeInfo)
  unfolding earliest
  container_usages [] prevs cms info = some (cms, info)
  container_usages ((name, last) ∷ lasts) prevs cms info = elim (lookup name prevs) [
    | none ↦ none
    | some prev ↦ elim (resource_usage fl qs last prev) [
      | err e ↦ container_usages lasts prevs cms info
      | ok (usage, new) ↦
          container_usages lasts prevs (cms ++ record { name = name; usage = usage } ∷ [])
            (earliest info new)
    ]
  ]

  -- The loop's body up to the `append`; `none` where nothing is appended.
  pub pod_usage : PodStorage → NamespacedName → Option (List (ContainerMetrics Q) × TimeInfo)
  unfolding container_usages
  pod_usage s ref = lookup ref s.last >>=? λ last_pod. lookup ref s.prev >>=? λ prev_pod.
      container_usages last_pod.containers prev_pod.containers [] no_time

  -- `now i` is the i-th reading of `time.Now()`.
  collect : PodStorage → (ℕ → Time) → ℕ → List PartialObjectMetadata → List (PodMetrics Q)
  collect s now i [] = []
  collect s now i (pod ∷ pods) = elim (pod_usage s (pod_ref pod)) [
    | none ↦ collect s now i pods
    | some (cms, info) ↦
        record {
          name = pod.name;
          namespace = pod.namespace;
          labels = pod.labels;
          creation_timestamp = now i;
          timestamp = info.timestamp;
          window = info.window;
          containers = cms;
        }
        ∷ collect s now (suc i) pods
  ]

  -- The error that GetMetrics returns is always nil.
  unfoldable pub get_metrics :
      PodStorage → (ℕ → Time) → List PartialObjectMetadata → List (PodMetrics Q)
  unfolding pod_usage collect
  get_metrics s now pods = collect s now 0 pods
