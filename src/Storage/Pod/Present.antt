-- ===== src/Storage/Pod/Present.antt =====
-- Which pods podStorage.Store keeps (pkg/storage/pod.go): those of the batch as the last, and as the
-- previous those with a container.
use metrics_server.Prelude.{
  ◌<◌, ◌≡◌, Option, none, some, [], ◌∷◌, true, gostring_eq, arith, is_some, length, ltb,
  if◌then◌else◌, ◌==◌,
}
use metrics_server.Prelude.Dict.{lookup, contains, insert, lookup-insert, lookup-nil}
use metrics_server.Kube.{NamespacedName, namespaced_name_eq}
use metrics_server.Storage.Types.{PodMetricsPoint, MetricsBatch}
use metrics_server.Storage.Pod.{
  PodStorage, Points, Pods, Maps, store_containers, store_pod, store_pods, store,
}

abbrev pub HasContainer : Option PodMetricsPoint → Type 0
HasContainer none = Unit
HasContainer (some pod) = 0 < length pod.containers

module _ (s : PodStorage) (ref : NamespacedName) where
  store_pod_present :
      (k : NamespacedName) (pod : PodMetricsPoint) (maps : Maps)
      → is_some (lookup ref (store_pod s k pod maps).0)
        ≡ (if is_some (lookup ref maps.0) then true else ref == k)
  unfolding store_pod contains
  store_pod_present k pod maps = ground (
    arith,
    lookup-insert ref k (record { containers = (store_containers s k pod.containers ([], [])).0 })
        maps.0,
  )

  has-store_pods :
      (pods : Pods) (maps : Maps)
      → is_some (lookup ref (store_pods s pods maps).0)
        ≡ (if is_some (lookup ref maps.0) then true else is_some (lookup ref pods))
  unfolding store_pods lookup
  has-store_pods [] maps = ground arith
  has-store_pods ((k, pod) ∷ pods) maps =
      ground (arith, has-store_pods pods (store_pod s k pod maps), store_pod_present k pod maps)

  insert-HasContainer :
      (k : NamespacedName) (points : Points) (prevs : Pods)
      → HasContainer (lookup ref prevs)
      → HasContainer (
          lookup ref (
            if ltb 0 (length points)
            then insert k (record { containers = points }) prevs
            else prevs))
  insert-HasContainer k [] prevs h = h
  insert-HasContainer k (p ∷ points) prevs h =
      ground (arith, lookup-insert ref k (record { containers = p ∷ points }) prevs)

  store_pods-HasContainer :
      (pods : Pods) (maps : Maps)
      → HasContainer (lookup ref maps.1)
      → HasContainer (lookup ref (store_pods s pods maps).1)
  unfolding store_pods store_pod contains
  store_pods-HasContainer [] maps h = h
  store_pods-HasContainer ((k, pod) ∷ pods) maps h =
      store_pods-HasContainer pods (store_pod s k pod maps) (
        ground
          (arith, insert-HasContainer k (store_containers s k pod.containers ([], [])).1 maps.1 h))

module _ (s : PodStorage) (batch : MetricsBatch) (ref : NamespacedName) where
  -- After Store the pods with a last point are those of the batch.
  pub has-store_last : is_some (lookup ref (store s batch).last) ≡ is_some (lookup ref batch.pods)
  unfolding store
  has-store_last =
      ground
        (arith, has-store_pods s ref batch.pods ([], [], 0), lookup-nil {V = PodMetricsPoint} ref)

  pub store-HasContainer : HasContainer (lookup ref (store s batch).prev)
  unfolding store
  store-HasContainer =
      store_pods-HasContainer s ref batch.pods ([], [], 0)
        (rw (lookup-nil {V = PodMetricsPoint} ref) tt)
