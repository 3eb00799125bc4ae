-- ===== src/Storage/Pod/Lookups.antt =====
-- What the maps of podStorage hold after Store, under each pod and container (pkg/storage/pod.go).
use metrics_server.Prelude.{
  ◌≡◌, refl, none, some, [], ◌∷◌, true, false, GoString, gostring_eq, arith, if◌then◌else◌, ◌>>=?◌,
  is_some, ◌==◌, ltb, length,
}
use metrics_server.Prelude.Dict.{lookup, contains, insert, lookup-insert, lookup-nil}
use metrics_server.Kube.{NamespacedName, namespaced_name_eq}
use metrics_server.Storage.Types.{MetricsPoint, PodMetricsPoint, MetricsBatch}
use metrics_server.Storage.Pod.{
  PodStorage, Points, Pods, Maps, store_containers, store_pod, store_pods, store,
}
use metrics_server.Storage.Pod.Containers.{
  find, next_prev, store_containers-last, store_containers-prev_new,
}

module _ (s : PodStorage) (ref : NamespacedName) (name : GoString) where
  -- The entry that a pod's loop adds to `prevPods`, if it has a container.
  find-insert_nonempty :
      (k : NamespacedName) (points : Points) (prevs : Pods)
      → lookup ref prevs ≡ none
      → find ref name
          (if ltb 0 (length points) then insert k (record { containers = points }) prevs else prevs)
        ≡ (if ref == k then lookup name points else none)
  find-insert_nonempty k [] prevs h = ground (arith, lookup-nil {V = MetricsPoint} name)
  find-insert_nonempty k (p ∷ points) prevs h =
      ground (arith, lookup-insert ref k (record { containers = p ∷ points }) prevs)

  lookup-insert_nonempty :
      (k : NamespacedName) (points : Points) (prevs : Pods)
      → (ref == k) ≡ false
      → lookup ref
          (if ltb 0 (length points) then insert k (record { containers = points }) prevs else prevs)
        ≡ lookup ref prevs
  lookup-insert_nonempty k [] prevs h = refl
  lookup-insert_nonempty k (p ∷ points) prevs h =
      ground (arith, lookup-insert ref k (record { containers = p ∷ points }) prevs)

  find-store_pod_last :
      (k : NamespacedName) (pod : PodMetricsPoint) (maps : Maps)
      → find ref name (store_pod s k pod maps).0 ≡ (
          if is_some (lookup ref maps.0)
          then find ref name maps.0
          else if ref == k
          then lookup name pod.containers
          else none)
  unfolding store_pod contains
  find-store_pod_last k pod maps = ground (
    arith,
    lookup-insert ref k (record { containers = (store_containers s k pod.containers ([], [])).0 })
        maps.0,
    store_containers-last s k name pod.containers ([], []),
    lookup-nil {V = MetricsPoint} name,
  )

  has-store_pod :
      (k : NamespacedName) (pod : PodMetricsPoint) (maps : Maps)
      → is_some (lookup ref (store_pod s k pod maps).0) ≡ (
          if is_some (lookup ref maps.0)
          then true
          else is_some (if ref == k then some pod else none))
  unfolding store_pod contains
  has-store_pod k pod maps = ground (
    arith,
    lookup-insert ref k (record { containers = (store_containers s k pod.containers ([], [])).0 })
        maps.0,
  )

  store_pod-prev_met :
      (k : NamespacedName) (pod : PodMetricsPoint) (maps : Maps)
      → is_some (lookup ref maps.0) ≡ true
      → find ref name (store_pod s k pod maps).1 ≡ find ref name maps.1
  unfolding store_pod contains
  store_pod-prev_met k pod maps h =
      ground
        (arith, lookup-insert_nonempty k (store_containers s k pod.containers ([], [])).1 maps.1)

  store_pod-prev_new :
      (k : NamespacedName) (pod : PodMetricsPoint) (maps : Maps)
      → lookup ref maps.0 ≡ none
      → lookup ref maps.1 ≡ none
      → find ref name (store_pod s k pod maps).1
        ≡ (if ref == k then lookup name pod.containers >>=? next_prev s ref name else none)
  unfolding store_pod contains
  store_pod-prev_new k pod maps h g = ground (
    arith,
    find-insert_nonempty k (store_containers s k pod.containers ([], [])).1 maps.1,
    store_containers-prev_new s k name pod.containers ([], []),
    lookup-nil {V = MetricsPoint} name,
  )

  store_pods-last :
      (pods : Pods) (maps : Maps)
      → find ref name (store_pods s pods maps).0
        ≡ (if is_some (lookup ref maps.0) then find ref name maps.0 else find ref name pods)
  unfolding store_pods lookup
  store_pods-last [] maps = ground arith
  store_pods-last ((k, pod) ∷ pods) maps = ground (
    arith,
    store_pods-last pods (store_pod s k pod maps),
    find-store_pod_last k pod maps,
    has-store_pod k pod maps,
  )

  store_pods-prev_met :
      (pods : Pods) (maps : Maps)
      → is_some (lookup ref maps.0) ≡ true
      → find ref name (store_pods s pods maps).1 ≡ find ref name maps.1
  unfolding store_pods
  store_pods-prev_met [] maps h = refl
  store_pods-prev_met ((k, pod) ∷ pods) maps h = ground (
    arith,
    store_pods-prev_met pods (store_pod s k pod maps),
    store_pod-prev_met k pod maps,
    has-store_pod k pod maps,
  )

  store_pod-prev_absent :
      (k : NamespacedName) (pod : PodMetricsPoint) (maps : Maps)
      → (ref == k) ≡ false
      → lookup ref (store_pod s k pod maps).1 ≡ lookup ref maps.1
  unfolding store_pod contains
  store_pod-prev_absent k pod maps h =
      ground
        (arith, lookup-insert_nonempty k (store_containers s k pod.containers ([], [])).1 maps.1)

  store_pods-prev_new :
      (pods : Pods) (maps : Maps)
      → lookup ref maps.0 ≡ none
      → lookup ref maps.1 ≡ none
      → find ref name (store_pods s pods maps).1 ≡ (find ref name pods >>=? next_prev s ref name)
  unfolding store_pods lookup
  store_pods-prev_new [] maps h g = ground arith
  store_pods-prev_new ((k, pod) ∷ pods) maps h g = ground (
    arith,
    store_pods-prev_new pods (store_pod s k pod maps),
    store_pods-prev_met pods (store_pod s k pod maps),
    store_pod-prev_new k pod maps,
    store_pod-prev_absent k pod maps,
    has-store_pod k pod maps,
  )

module _ (s : PodStorage) (batch : MetricsBatch) (ref : NamespacedName) (name : GoString) where
  -- After Store a container's last point is the batch's.
  pub find-store_last : find ref name (store s batch).last ≡ find ref name batch.pods
  unfolding store
  find-store_last = ground (
    arith,
    store_pods-last s ref name batch.pods ([], [], 0),
    lookup-nil {V = PodMetricsPoint} ref,
  )

  -- After Store a container's previous point is its start, if the container is fresh, and otherwise
  -- the one that is kept: the later of the two stored points that is older than the new one, where
  -- the earlier is read as the zero point if only its pod is there, and none after a restart.
  pub find-store_prev :
      find ref name (store s batch).prev ≡ (find ref name batch.pods >>=? next_prev s ref name)
  unfolding store
  find-store_prev =
      store_pods-prev_new s ref name batch.pods ([], [], 0) (lookup-nil ref) (lookup-nil ref)
