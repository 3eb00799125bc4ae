-- ===== src/Decode/Sourced.antt =====
-- The counters and start times of the containers of a decoded batch
-- (pkg/scraper/client/resource/decode.go).
use mathlib.Core.Option.{some-injective}
use mathlib.Core.Path.{subst}
use metrics_server.Prelude.{
  ◌≡◌, ◌⊎◌, refl, sym, ap, ◌∙◌, none, some, List, [], ◌∷◌, arith, GoString, gostring_eq,
  Option-cases, Bool-cases, inl, inr, eqb, length, ◌==◌, ==_iff,
}
use metrics_server.Prelude.Int.{ℤ}
use metrics_server.Prelude.Dict.{lookup, insert, lookup-insert, lookup-cons, lookup-nil, NodupKeys}
use metrics_server.Go.Float.{Floats}
use metrics_server.Go.Result.{ok}
use metrics_server.Kube.{NamespacedName, namespaced_name_eq}
use metrics_server.Storage.Types.{MetricsPoint, PodMetricsPoint, MetricsBatch}
use metrics_server.Storage.Pod.{Points, Pods, read_point}
use metrics_server.Series.{
  container_cpu_usage_metric_name, container_mem_usage_metric_name,
  container_start_time_metric_name,
}
use metrics_server.Decode.Updated.{point_at, AllDistinct}
use metrics_server.Decode.Containers.{last_container_value, HasValues}
use metrics_server.Decode.Followed.{decode_entries-Follows}
use metrics_server.Decode.{
  Entry, Response, Decoding, start, check_containers, check_container_metrics, complete_pods,
  is_empty, is_incomplete, decode_entries, finish, decode_batch, read_containers,
}

-- A container that is kept is one that was read.
check_containers-lookup :
    (name : GoString) (p : MetricsPoint) (points metrics result : Points)
    → NodupKeys points
    → check_containers points metrics ≡ some result
    → lookup name result ≡ some p
    → (lookup name metrics ≡ some p) ⊎ (lookup name points ≡ some p)
unfolding check_containers
check_containers-lookup name p [] metrics result d e h =
    inl (ap (lookup name) (some-injective metrics result e) ∙ h)
check_containers-lookup name p ((k, q) ∷ points) metrics result d e h =
    elim (Bool-cases (is_empty q)) [
      | inl empty ↦
          elim (check_containers-lookup name p points metrics result d.1 (ground arith) h) [
            | inl old ↦ inl old
            | inr found ↦ inr (ground (arith, lookup-cons name k q points, ==_iff name k, d.0))
          ]
      | inr used ↦ elim (Bool-cases (is_incomplete q)) [
        | inl lacking ↦ absurd (ground arith)
        | inr full ↦
            elim (check_containers-lookup name p points (insert k q metrics) result d.1
              (ground arith) h) [
                | inl old ↦ elim (Bool-cases (name == k)) [
                  | inl own ↦
                      inr (
                        ground (arith, lookup-cons name k q points, lookup-insert name k q metrics))
                  | inr apart ↦ inl (ground (arith, lookup-insert name k q metrics))
                ]
                | inr found ↦ inr (ground (arith, lookup-cons name k q points, ==_iff name k, d.0))
              ]
      ]
    ]

-- A pod that is kept is one that was read, less some containers.
abbrev KeptFrom : NamespacedName → PodMetricsPoint → Pods → Type 0
KeptFrom ref kept pods =
    (pod : PodMetricsPoint) × (lookup ref pods ≡ some pod)
    × (check_container_metrics pod ≡ some kept.containers)

KeptFrom-cons :
    (ref k : NamespacedName) (kept pod : PodMetricsPoint) (pods : Pods)
    → lookup k pods ≡ none
    → KeptFrom ref kept pods
    → KeptFrom ref kept ((k, pod) ∷ pods)
KeptFrom-cons ref k kept pod pods d (source, found, checked) =
    (source, ground (arith, lookup-cons ref k pod pods, ==_iff ref k, d), checked)

complete_pods-lookup :
    (ref : NamespacedName) (kept : PodMetricsPoint) (pods res : Pods)
    → NodupKeys pods
    → lookup ref (complete_pods pods res) ≡ some kept
    → (lookup ref res ≡ some kept) ⊎ KeptFrom ref kept pods
unfolding complete_pods
complete_pods-lookup ref kept [] res d h = inl h
complete_pods-lookup ref kept ((k, pod) ∷ pods) res d h =
    elim (Bool-cases (eqb (length pod.containers) 0)) [
      | inl empty ↦ passed_over (complete_pods-lookup ref kept pods res d.1 (rw empty at h))
      | inr full ↦ elim (Option-cases (check_container_metrics pod)) [
        | inl nil ↦ passed_over (complete_pods-lookup ref kept pods res d.1 (rw (full, nil) at h))
        | inr (points, checked) ↦
            elim (complete_pods-lookup ref kept pods (insert k (record { containers = points }) res)
              d.1 (rw (full, checked) at h)) [
                | inl old ↦ elim (Bool-cases (ref == k)) [
                  | inl own ↦ inr (
                    pod,
                    ground (arith, lookup-cons ref k pod pods),
                    ground (arith, lookup-insert ref k (record { containers = points }) res),
                  )
                  | inr apart ↦
                      inl (ground (arith, lookup-insert ref k (record { containers = points }) res))
                ]
                | inr later ↦ inr (KeptFrom-cons ref k kept pod pods d.0 later)
              ]
      ]
    ]
  where
    passed_over :
        (lookup ref res ≡ some kept) ⊎ KeptFrom ref kept pods
        → (lookup ref res ≡ some kept) ⊎ KeptFrom ref kept ((k, pod) ∷ pods)
    passed_over (inl old) = inl old
    passed_over (inr later) = inr (KeptFrom-cons ref k kept pod pods d.0 later)

start-AllDistinct : AllDistinct start.pods
unfolding lookup
start-AllDistinct = record { pods_once = tt; containers_once = λ ref. tt }

read_containers-found :
    (ref : NamespacedName) (pod : PodMetricsPoint) (pods : Pods)
    → lookup ref pods ≡ some pod
    → read_containers ref pods ≡ pod.containers
read_containers-found ref pod pods h = rw (h, read_containers) refl

read_point-found :
    (name : GoString) (p : MetricsPoint) (points : Points)
    → lookup name points ≡ some p
    → read_point name points ≡ p
read_point-found name p points h = rw (h, read_point) refl

-- A container of a decoded batch is one of the pods before the end.
finish-point_at :
    (ref : NamespacedName) (name : GoString) (node_name : GoString) (d : Decoding)
    (pod : PodMetricsPoint) (p : MetricsPoint)
    → AllDistinct d.pods
    → lookup ref (finish node_name d).pods ≡ some pod
    → lookup name pod.containers ≡ some p
    → point_at ref name d.pods ≡ p
unfolding finish check_container_metrics
finish-point_at ref name node_name d pod p distinct has_pod has_point =
    elim (complete_pods-lookup ref pod d.pods [] distinct.pods_once has_pod) [
      | inl none_yet ↦ absurd (ground (arith, lookup-nil {V = PodMetricsPoint} ref))
      | inr (source, found, checked) ↦
          let same = read_containers-found ref source d.pods found in
          elim (check_containers-lookup name p source.containers [] pod.containers
            (subst NodupKeys same (distinct.containers_once ref)) checked has_point) [
              | inl none_yet ↦ absurd (ground (arith, lookup-nil {V = MetricsPoint} name))
              | inr found_point ↦
                  ap (read_point name) same ∙ read_point-found name p source.containers found_point
            ]
    ]

module _ {F : Type 0} (fl : Floats F) where
  -- The point of a container has the values of the container's last samples.
  abbrev pub IsContainerOf : List (Entry F) → NamespacedName → GoString → MetricsPoint → Type 0
  IsContainerOf entries ref name p =
      HasValues fl ref name p
        (last_container_value ref name container_cpu_usage_metric_name entries none)
        (last_container_value ref name container_mem_usage_metric_name entries none)
        (last_container_value ref name container_start_time_metric_name entries none)

  -- The point of a container of a decoded batch has the two counters and the start time of the last
  -- samples whose labels name this container, each with 0 where there is none.
  pub decode_batch-container :
      (response : Response F) (default_timestamp : ℤ) (node_name : GoString) (batch : MetricsBatch)
      → decode_batch fl response default_timestamp node_name ≡ ok batch
      → (ref : NamespacedName) (name : GoString) (pod : PodMetricsPoint) (p : MetricsPoint)
      → lookup ref batch.pods ≡ some pod
      → lookup name pod.containers ≡ some p
      → IsContainerOf response.entries ref name p
  unfolding decode_batch lookup
  decode_batch-container response u node_name batch e ref name pod p has_pod has_point =
      elim (Option-cases (decode_entries fl u response.entries start)) [
        | inl stopped ↦ absurd (ground arith)
        | inr (d, done) ↦
            let same : finish node_name d ≡ batch = ground arith in
            let f =
              decode_entries-Follows fl ref name u response.entries start d none none none
                (record {
                  distinct = start-AllDistinct;
                  values = record { cpu_used = refl; memory_used = refl; started_at = refl };
                })
                done in
            subst (IsContainerOf response.entries ref name)
              (finish-point_at ref name node_name d pod p f.distinct
                (subst (λ b. lookup ref b.pods ≡ some pod) (sym same) has_pod) has_point)
              f.values
      ]
