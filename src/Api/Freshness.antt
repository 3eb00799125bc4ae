-- ===== src/Api/Freshness.antt =====
-- What getMetrics of pkg/api/node.go and pod.go observes of the items that it has read: how old each
-- is, in the histogram metric_freshness_seconds.
use mathlib.Core.List.{append_assoc, append-nil}
use metrics_server.Prelude.{◌≡◌, refl, sym, ◌∙◌, List, [], ◌∷◌, ◌++◌, map}
use metrics_server.Go.Time.{Time, sub}
use metrics_server.Go.Float.{Floats}
use metrics_server.Go.Result.{Result, ok, err}
use metrics_server.Go.Sort.{sort_slice}
use metrics_server.Kube.{Node as KubeNode, NodeMetrics, PartialObjectMetadata, PodMetrics}
use metrics_server.Api.Node.{NodeMetricsApi, node_less}
use metrics_server.Api.Node as NodeApi
use metrics_server.Api.Pod.{PodMetricsApi, pod_less}
use metrics_server.Api.Pod as PodApi

-- `now` is the reading of the clock.
module _ {F : Type 0} (fl : Floats F) (now : Time) where
  -- `myClock.Since(m.Timestamp.Time).Seconds()`
  abbrev pub age : {M : Type 0} → (M → Time) → M → F
  age timestamp m = fl.seconds (sub now (timestamp m))

  pub observe_freshness : {M : Type 0} → (M → Time) → List M → List F → List F
  observe_freshness timestamp [] seen = seen
  observe_freshness timestamp (m ∷ ms) seen =
      observe_freshness timestamp ms (seen ++ age timestamp m ∷ [])

  observe_freshness-map :
      {M : Type 0} (timestamp : M → Time) (ms : List M) (seen : List F)
      → observe_freshness timestamp ms seen ≡ seen ++ map (age timestamp) ms
  unfolding observe_freshness
  observe_freshness-map timestamp [] seen = sym (append-nil seen)
  observe_freshness-map timestamp (m ∷ ms) seen =
      observe_freshness-map timestamp ms (seen ++ age timestamp m ∷ [])
      ∙ append_assoc seen (age timestamp m ∷ []) (map (age timestamp) ms)

  unfoldable pub get_node_metrics_observed :
      {E S R T Q : Type 0}
      → NodeMetricsApi E S R T Q
      → List KubeNode
      → List F
      → Result E (List (NodeMetrics Q)) × List F
  unfolding observe_freshness
  get_node_metrics_observed api nodes seen = elim (api.metrics.get nodes) [
    | err e ↦ (err e, seen)
    | ok ms ↦ (ok (sort_slice node_less ms), observe_freshness (λ m. m.timestamp) ms seen)
  ]

  unfoldable pub get_pod_metrics_observed :
      {E S R T Q : Type 0}
      → PodMetricsApi E S R T Q
      → List PartialObjectMetadata
      → List F
      → Result E (List (PodMetrics Q)) × List F
  unfolding observe_freshness
  get_pod_metrics_observed api pods seen = elim (api.metrics.get pods) [
    | err e ↦ (err e, seen)
    | ok ms ↦ (ok (sort_slice pod_less ms), observe_freshness (λ m. m.timestamp) ms seen)
  ]

  -- The answer is that of getMetrics, and each item that was read is observed once with its age.
  pub get_node_metrics_observed-get_metrics :
      {E S R T Q : Type 0} (api : NodeMetricsApi E S R T Q) (nodes : List KubeNode) (seen : List F)
      (ms : List (NodeMetrics Q))
      → api.metrics.get nodes ≡ ok ms
      → ((get_node_metrics_observed api nodes seen).0 ≡ NodeApi.get_metrics api nodes)
        × ((get_node_metrics_observed api nodes seen).1 ≡ seen ++ map (age (λ m. m.timestamp)) ms)
  unfolding get_node_metrics_observed NodeApi.get_metrics
  get_node_metrics_observed-get_metrics api nodes seen ms read =
      rw (read, get_node_metrics_observed) (refl, observe_freshness-map (λ m. m.timestamp) ms seen)

  -- The same for pods.
  pub get_pod_metrics_observed-get_metrics :
      {E S R T Q : Type 0} (api : PodMetricsApi E S R T Q) (namespace : _)
      (pods : List PartialObjectMetadata) (seen : List F) (ms : List (PodMetrics Q))
      → api.metrics.get pods ≡ ok ms
      → ((get_pod_metrics_observed api pods seen).0 ≡ PodApi.get_metrics api namespace pods)
        × ((get_pod_metrics_observed api pods seen).1 ≡ seen ++ map (age (λ m. m.timestamp)) ms)
  unfolding get_pod_metrics_observed PodApi.get_metrics
  get_pod_metrics_observed-get_metrics api namespace pods seen ms read =
      rw (read, get_pod_metrics_observed) (refl, observe_freshness-map (λ m. m.timestamp) ms seen)
