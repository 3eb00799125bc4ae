-- ===== src/Storage/Served.antt =====
-- What a storage serves after any batches (pkg/storage/storage.go).
use metrics_server.Prelude.{
  ℕ, ◌≡◌, refl, List, [], ◌∷◌, false, arith, length, ltb, All, gostring_eq,
}
use metrics_server.Prelude.Dict.{lookup}
use metrics_server.Go.Time.{Time, Duration}
use metrics_server.Go.Float.{Floats}
use metrics_server.Kube.{Node as KubeNode, namespaced_name_eq, PartialObjectMetadata, Quantities}
use metrics_server.Storage.Types.{MetricsBatch}
use metrics_server.Storage.Node.Ordered
use metrics_server.Storage.Node.Reports as NodeReports
use metrics_server.Storage.Pod.Reports as PodReports
use metrics_server.Storage.{Storage, new_storage, ready, store, get_node_metrics, get_pod_metrics}

length-eq-nil {ℓ} : {A : Type ℓ} (xs : List A) → ltb 0 (length xs) ≡ false → xs ≡ []
length-eq-nil [] h = refl
length-eq-nil (x ∷ xs) h = ground arith

-- A new storage after the batches of a run of the server.
unfoldable pub run : Storage → List MetricsBatch → Storage
run s [] = s
run s (batch ∷ batches) = run (store s batch) batches

pub record IsWellFormed (s : Storage) : Type 0 where
  pub nodes : Ordered.IsOrdered s.nodes
  pub pods : PodReports.IsWellFormed s.pods

new_storage-IsWellFormed : (resolution : Duration) → IsWellFormed (new_storage resolution)
unfolding new_storage lookup
new_storage-IsWellFormed resolution = record {
  nodes = record { at = λ name. tt };
  pods = record { ordered = record { at = λ ref name. tt }; distinct = λ ref. tt };
}

store-IsWellFormed : (s : Storage) (batch : MetricsBatch) → IsWellFormed (store s batch)
unfolding store
store-IsWellFormed s batch = record {
  nodes = Ordered.store-IsOrdered s.nodes batch;
  pods = PodReports.store-IsWellFormed s.pods batch;
}

run-IsWellFormed :
    (s : Storage) (batches : List MetricsBatch) → IsWellFormed s → IsWellFormed (run s batches)
unfolding run
run-IsWellFormed s [] h = h
run-IsWellFormed s (batch ∷ batches) h =
    run-IsWellFormed (store s batch) batches (store-IsWellFormed s batch)

module _ {F Q : Type 0} (fl : Floats F) (qs : Quantities Q) (now : ℕ → Time) where
  -- After any batches each served item of a node is the usage between the two stored points of the
  -- node, over a positive window: the difference of the counters over the seconds between them, and
  -- the memory of the later. Each served item of a pod has the containers that can be
  -- measured between the two stored points of the pod, with their usage between these points; its
  -- timestamp is not after that of any of them, and its window is positive unless the timestamp is
  -- the zero time.
  pub served-Reports :
      (resolution : Duration) (batches : List MetricsBatch) (nodes : List KubeNode)
      (pods : List PartialObjectMetadata)
      → let s = run (new_storage resolution) batches in
        All (NodeReports.Reports fl qs s.nodes) (get_node_metrics fl qs s now nodes)
        × All (PodReports.Reports fl qs s.pods) (get_pod_metrics fl qs s now pods)
  unfolding get_node_metrics get_pod_metrics
  served-Reports resolution batches nodes pods =
      let inv =
        run-IsWellFormed (new_storage resolution) batches (new_storage-IsWellFormed resolution) in
      (
        NodeReports.get_metrics-Reports fl qs _ inv.nodes now nodes,
        PodReports.get_metrics-Reports fl qs _ inv.pods now pods,
      )

  -- A storage that is not ready serves nothing, whatever is asked for.
  pub not_ready_empty :
      (s : Storage) (nodes : List KubeNode) (pods : List PartialObjectMetadata)
      → ready s ≡ false
      → (get_node_metrics fl qs s now nodes ≡ []) × (get_pod_metrics fl qs s now pods ≡ [])
  unfolding get_node_metrics get_pod_metrics ready
  not_ready_empty s nodes pods h = (
    NodeReports.get_metrics-no_prev fl qs s.nodes (length-eq-nil s.nodes.prev (ground arith)) now
        nodes,
    PodReports.get_metrics-no_prev fl qs s.pods (length-eq-nil s.pods.prev (ground arith)) now pods,
  )
