-- ===== src/Api/Stored.antt =====
-- The storage as the getter of the API (pkg/storage/storage.go behind pkg/api/interfaces.go), and
-- what list requests answer from a storage that the scrape loop has filled.
use mathlib.Core.Path.{subst}
use metrics_server.Prelude.{ℕ, ◌≡◌, ap, sym, ◌∙◌, map, [], Option, List, GoString, All}
use metrics_server.Go.Time.{Time, Duration}
use metrics_server.Go.Float.{Floats}
use metrics_server.Go.Result.{ok, ok_inj}
use metrics_server.Kube.{
  Node as KubeNode, NodeMetrics, PartialObjectMetadata, PodMetrics, Quantities,
}
use metrics_server.Storage.Types.{MetricsBatch}
use metrics_server.Storage.Node.Reports as NodeReports
use metrics_server.Storage.Pod.Reports as PodReports
use metrics_server.Storage.{Storage, new_storage, get_node_metrics, get_pod_metrics}
use metrics_server.Storage.Served.{run, served-Reports}
use metrics_server.Api.{Lister, ListOptions, Selectors}
use metrics_server.Api.Node.{NodeMetricsGetter, nodes}
use metrics_server.Api.Node as NodeApi
use metrics_server.Api.Node.Answers as NodeAnswers
use metrics_server.Api.Pod.Answers as PodAnswers
use metrics_server.Api.Pod.{PodMetricsGetter, pods}
use metrics_server.Api.Pod as PodApi

module _ {F Q : Type 0} (fl : Floats F) (qs : Quantities Q) (now : ℕ → Time) {E : Type 0} where
  unfoldable pub stored_nodes : Storage → NodeMetricsGetter E Q
  unfolding get_node_metrics
  stored_nodes s = record {
    get = λ objects. ok (get_node_metrics fl qs s now objects);
    serves = NodeReports.reportable s.nodes;
    get-keys = λ objects ms e.
        ap (map (λ m. m.name)) (sym (ok_inj e))
        ∙ NodeReports.get_metrics-names fl qs s.nodes now objects;
  }

  unfoldable pub stored_pods : Storage → PodMetricsGetter E Q
  unfolding get_pod_metrics
  stored_pods s = record {
    get = λ objects. ok (get_pod_metrics fl qs s now objects);
    serves = PodReports.reportable s.pods;
    get-keys = λ objects ms e.
        ap (map PodReports.item_ref) (sym (ok_inj e))
        ∙ PodReports.get_metrics-refs fl qs s.pods now objects;
  }

  module _ (resolution : Duration) (batches : List MetricsBatch) {S R T : Type 0} where
    -- An item of a list answer for nodes, from a storage after any batches, is the usage between
    -- the two stored points of its node, over a positive window.
    pub list_nodes-Reports :
        (lister : Lister E S KubeNode) (selectors : Selectors S R T KubeNode)
        (node_selector : Option (List R)) (options : Option (ListOptions S T))
        (items : List (NodeMetrics Q))
        → let s = run (new_storage resolution) batches in
          NodeApi.list
              (record {
                metrics = stored_nodes s;
                node_lister = lister;
                selectors = selectors;
                node_selector = node_selector;
              })
              options
            ≡ ok items
          → All (NodeReports.Reports fl qs s.nodes) items
    unfolding stored_nodes get_node_metrics
    list_nodes-Reports lister selectors node_selector options items e =
        NodeAnswers.list-All _ _
          (λ objects ms read.
            subst (All _) (ok_inj read) (served-Reports fl qs now resolution batches objects []).0)
          options items e

    -- An item of a list answer for pods, from a storage after any batches, has the measurable
    -- containers of the two stored points of its pod with their usage, a timestamp that is not after that of any of
    -- them, and a positive window unless the timestamp is the zero time.
    pub list_pods-Reports :
        (by_namespace : GoString → Lister E S PartialObjectMetadata)
        (selectors : Selectors S R T PartialObjectMetadata) (namespace : GoString)
        (options : Option (ListOptions S T)) (items : List (PodMetrics Q))
        → let s = run (new_storage resolution) batches in
          PodApi.list
              (record {
                metrics = stored_pods s;
                by_namespace = by_namespace;
                selectors = selectors;
              })
              namespace
              options
            ≡ ok items
          → All (PodReports.Reports fl qs s.pods) items
    unfolding stored_pods get_pod_metrics
    list_pods-Reports by_namespace selectors namespace options items e =
        PodAnswers.list-All _ namespace _
          (λ objects ms read.
            subst (All _) (ok_inj read) (served-Reports fl qs now resolution batches [] objects).1)
          options items e
