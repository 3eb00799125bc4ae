-- ===== src/Storage/Pod/Distinct.antt =====
-- Each container stands once in a stored pod (pkg/storage/pod.go).
use metrics_server.Prelude.{Option, none, some, [], ◌∷◌, GoString, gostring_eq, arith}
use metrics_server.Prelude.Dict.{
  lookup, contains, lookup-insert, lookup-nil, NodupKeys, insert-NodupKeys,
}
use metrics_server.Kube.{NamespacedName, namespaced_name_eq}
use metrics_server.Storage.Types.{MetricsPoint, PodMetricsPoint, MetricsBatch}
use metrics_server.Storage.Pod.{
  PodStorage, Points, Pods, Maps, store_container, store_containers, store_pod, store_pods, store,
}

abbrev pub AreDistinct : Option PodMetricsPoint → Type 0
AreDistinct none = Unit
AreDistinct (some pod) = NodupKeys pod.containers

module _ (s : PodStorage) (ref : NamespacedName) where
  store_container-NodupKeys :
      (k : GoString) (p : MetricsPoint) (maps : Points × Points)
      → NodupKeys maps.0
      → NodupKeys (store_container s ref k p maps).0
  unfolding store_container contains
  store_container-NodupKeys k p maps h = ground (arith, insert-NodupKeys k p maps.0 h)

  store_containers-NodupKeys :
      (points : Points) (maps : Points × Points)
      → NodupKeys maps.0
      → NodupKeys (store_containers s ref points maps).0
  unfolding store_containers
  store_containers-NodupKeys [] maps h = h
  store_containers-NodupKeys ((k, p) ∷ points) maps h =
      store_containers-NodupKeys points (store_container s ref k p maps)
        (store_container-NodupKeys k p maps h)

module _ (s : PodStorage) (ref : NamespacedName) where
  store_pod-AreDistinct :
      (k : NamespacedName) (pod : PodMetricsPoint) (maps : Maps)
      → AreDistinct (lookup ref maps.0)
      → AreDistinct (lookup ref (store_pod s k pod maps).0)
  unfolding store_pod contains
  store_pod-AreDistinct k pod maps h = ground (
    arith,
    lookup-insert ref k (record { containers = (store_containers s k pod.containers ([], [])).0 })
        maps.0,
    store_containers-NodupKeys s k pod.containers ([], []) tt,
  )

  store_pods-AreDistinct :
      (pods : Pods) (maps : Maps)
      → AreDistinct (lookup ref maps.0)
      → AreDistinct (lookup ref (store_pods s pods maps).0)
  unfolding store_pods
  store_pods-AreDistinct [] maps h = h
  store_pods-AreDistinct ((k, pod) ∷ pods) maps h =
      store_pods-AreDistinct pods (store_pod s k pod maps) (store_pod-AreDistinct k pod maps h)

  pub store-AreDistinct : (batch : MetricsBatch) → AreDistinct (lookup ref (store s batch).last)
  unfolding store
  store-AreDistinct batch =
      store_pods-AreDistinct batch.pods ([], [], 0) (rw (lookup-nil {V = PodMetricsPoint} ref) tt)
