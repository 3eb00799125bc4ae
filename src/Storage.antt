-- ===== src/Storage.antt =====
-- pkg/storage/storage.go: the store of the last two batches, and its four operations. The store's
-- lock makes each operation one step. The metric `points_stored` is part of the state.
pub mod Types
pub mod Node
pub mod Pod
pub mod Served
pub mod Live
pub mod Same
pub mod Locked
use metrics_server.Prelude.{ℕ, List, [], ◌∷◌, Bool, ◌||◌, length, ltb}
use metrics_server.Go.Time.{Time, Duration}
use metrics_server.Go.Float.{Floats}
use metrics_server.Kube.{
  Node as KubeNode, NodeMetrics, PartialObjectMetadata, PodMetrics, Quantities,
}
use metrics_server.Storage.Types.{MetricsBatch}

pub record Storage : Type 0 where
  pub pods : Pod.PodStorage
  pub nodes : Node.NodeStorage

unfoldable pub new_storage : Duration → Storage
new_storage resolution = record { pods = Pod.empty resolution; nodes = Node.empty }

unfoldable pub ready : Storage → Bool
ready s = ltb 0 (length s.nodes.prev) || ltb 0 (length s.pods.prev)

unfoldable pub store : Storage → MetricsBatch → Storage
store s batch = record { nodes = Node.store s.nodes batch; pods = Pod.store s.pods batch }

module _ {F Q : Type 0} (fl : Floats F) (qs : Quantities Q) (s : Storage) (now : ℕ → Time) where
  unfoldable pub get_node_metrics : List KubeNode → List (NodeMetrics Q)
  get_node_metrics nodes = Node.get_metrics fl qs s.nodes now nodes

  unfoldable pub get_pod_metrics : List PartialObjectMetadata → List (PodMetrics Q)
  get_pod_metrics pods = Pod.get_metrics fl qs s.pods now pods
