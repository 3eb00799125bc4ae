-- ===== src/Storage/Pod/Containers.antt =====
-- What one pod's maps hold after the loop over its containers (pkg/storage/pod.go).
use metrics_server.Prelude.{
  ◌≡◌, refl, Option, none, some, [], ◌∷◌, true, GoString, gostring_eq, arith, if◌then◌else◌, ◌>>=?◌,
  is_some, ◌==◌, Option-cases, inl, inr, ltb,
}
use metrics_server.Prelude.Dict.{lookup, contains, lookup-insert}
use metrics_server.Kube.{NamespacedName, namespaced_name_eq}
use metrics_server.Storage.Types.{MetricsPoint, PodMetricsPoint}
use metrics_server.Storage.Node.Lookups.{newest_older}
use metrics_server.Storage.Pod.{
  PodStorage, Points, Pods, is_fresh, at_start, read_point, store_stored, store_container,
  store_containers,
}

-- The point of a container of a pod.
abbrev pub find : NamespacedName → GoString → Pods → Option MetricsPoint
find ref name pods = lookup ref pods >>=? λ pod. lookup name pod.containers

pub pod_of_find :
    (ref : NamespacedName) (name : GoString) (pods : Pods) (q : MetricsPoint)
    → find ref name pods ≡ some q
    → (point : PodMetricsPoint) × (lookup ref pods ≡ some point)
pod_of_find ref name pods q h = elim (Option-cases (lookup ref pods)) [
  | inl e ↦ absurd (ground arith)
  | inr (point, e) ↦ (point, e)
]

-- The stored point that is kept: not at all after a restart, and otherwise the later one of the
-- two that is older than the new point. The earlier is read without a test that it is there.
abbrev pub kept_point :
    GoString → Option MetricsPoint → Option PodMetricsPoint → MetricsPoint → Option MetricsPoint
kept_point name none prev point = none
kept_point name (some last) prev point =
    if ltb point.start_time last.timestamp
    then newest_older (some last) (prev >>=? λ pod. some (read_point name pod.containers))
        point.timestamp
    else none

abbrev pub next_prev : PodStorage → NamespacedName → GoString → MetricsPoint → Option MetricsPoint
next_prev s ref name point =
    if is_fresh s.metric_resolution point
    then some (at_start point)
    else kept_point name (find ref name s.last) (lookup ref s.prev) point

abbrev pub or_else : Option MetricsPoint → Option MetricsPoint → Option MetricsPoint
or_else none b = b
or_else (some a) b = some a

module _ (s : PodStorage) (ref : NamespacedName) (name : GoString) where
  lookup-store_stored :
      (k : GoString) (p : MetricsPoint) (prevs : Points)
      → lookup name (store_stored s ref k p prevs) ≡ (
          if name == k
          then or_else (kept_point k (find ref k s.last) (lookup ref s.prev) p) (lookup name prevs)
          else lookup name prevs)
  unfolding store_stored
  lookup-store_stored k p prevs = grind (arith, lookup-insert)

  store_container-last :
      (k : GoString) (p : MetricsPoint) (maps : Points × Points)
      → lookup name (store_container s ref k p maps).0
        ≡ or_else (lookup name maps.0) (if name == k then some p else none)
  unfolding store_container contains
  store_container-last k p maps = ground (arith, lookup-insert name k p maps.0)

  store_container-prev_met :
      (k : GoString) (p : MetricsPoint) (maps : Points × Points)
      → is_some (lookup name maps.0) ≡ true
      → lookup name (store_container s ref k p maps).1 ≡ lookup name maps.1
  unfolding store_container contains
  store_container-prev_met k p maps h =
      ground (arith, lookup-store_stored k p maps.1, lookup-insert name k (at_start p) maps.1)

  store_container-prev_new :
      (k : GoString) (p : MetricsPoint) (maps : Points × Points)
      → lookup name maps.0 ≡ none
      → lookup name maps.1 ≡ none
      → lookup name (store_container s ref k p maps).1
        ≡ (if name == k then next_prev s ref name p else none)
  unfolding store_container contains
  store_container-prev_new k p maps h g =
      ground (arith, lookup-store_stored k p maps.1, lookup-insert name k (at_start p) maps.1)

  pub store_containers-last :
      (points : Points) (maps : Points × Points)
      → lookup name (store_containers s ref points maps).0
        ≡ or_else (lookup name maps.0) (lookup name points)
  unfolding store_containers lookup
  store_containers-last [] maps = ground arith
  store_containers-last ((k, p) ∷ points) maps = ground (
    arith,
    store_containers-last points (store_container s ref k p maps),
    store_container-last k p maps,
  )

  store_containers-prev_met :
      (points : Points) (maps : Points × Points)
      → is_some (lookup name maps.0) ≡ true
      → lookup name (store_containers s ref points maps).1 ≡ lookup name maps.1
  unfolding store_containers
  store_containers-prev_met [] maps h = refl
  store_containers-prev_met ((k, p) ∷ points) maps h = ground (
    arith,
    store_containers-prev_met points (store_container s ref k p maps),
    store_container-prev_met k p maps,
    store_container-last k p maps,
  )

  pub store_containers-prev_new :
      (points : Points) (maps : Points × Points)
      → lookup name maps.0 ≡ none
      → lookup name maps.1 ≡ none
      → lookup name (store_containers s ref points maps).1
        ≡ (lookup name points >>=? next_prev s ref name)
  unfolding store_containers lookup
  store_containers-prev_new [] maps h g = ground arith
  store_containers-prev_new ((k, p) ∷ points) maps h g = ground (
    arith,
    store_containers-prev_new points (store_container s ref k p maps),
    store_containers-prev_met points (store_container s ref k p maps),
    store_container-prev_new k p maps,
    store_container-last k p maps,
  )
