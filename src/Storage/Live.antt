-- ===== src/Storage/Live.antt =====
-- When the storage begins to serve (pkg/storage): two samples of an item are enough.
use metrics_server.Prelude.{
  ℕ, ◌≡◌, ◌≤◌, ◌<◌, refl, ◌∙◌, [], ◌∷◌, map, true, some, arith, GoString, gostring_eq, inl, inr,
}
use metrics_server.Prelude.Dict.{lookup, lookup_nonempty}
use metrics_server.Go.Time.{Time, sub}
use metrics_server.Go.Float.{Floats}
use metrics_server.Go.Result.{Result-cases}
use metrics_server.Kube.{
  Node as KubeNode, NodeMetrics, namespaced_name_eq, PartialObjectMetadata, Quantities,
}
use metrics_server.Storage.Types.{MetricsPoint, MetricsBatch, resource_usage}
use metrics_server.Storage.Types.Usage.{resource_usage-ok, resource_usage_computed}
use metrics_server.Storage.Node
use metrics_server.Storage.Node.Lookups.{store-last}
use metrics_server.Storage.Node.Live.{prev_of_both, node_item}
use metrics_server.Storage.Pod
use metrics_server.Storage.Pod.{pod_ref}
use metrics_server.Storage.Pod.Containers.{find}
use metrics_server.Storage.Pod.Live.{HasPrevious, two_batches-reportable}
use metrics_server.Storage.Pod.Reports.{item_ref, get_metrics-refs}
use metrics_server.Storage.{Storage, ready, store, get_node_metrics, get_pod_metrics}

ready_of_prev :
    (s : Storage) (name : GoString) (p : MetricsPoint)
    → lookup name s.nodes.prev ≡ some p
    → ready s ≡ true
unfolding ready
ready_of_prev s name p e = ground (arith, lookup_nonempty name s.nodes.prev p e)

module _ {F Q : Type 0} (fl : Floats F) (qs : Quantities Q) (now : ℕ → Time) where
  -- Whatever was stored before, once two scrapes in a row have found a node with a newer sample in
  -- the second, and neither its start time nor its counter has decreased, a request for the node is
  -- answered with its usage between the two samples, and the storage is ready.
  pub two_scrapes-serve_node :
      (s : Storage) (earlier later : MetricsBatch) (node : KubeNode) (p q : MetricsPoint)
      → lookup node.name earlier.nodes ≡ some p
      → lookup node.name later.nodes ≡ some q
      → p.timestamp < q.timestamp
      → p.start_time ≤ q.start_time
      → p.cumulative_cpu_used ≤ q.cumulative_cpu_used
      → let t = store (store s earlier) later in
        (m : NodeMetrics Q) × (get_node_metrics fl qs t now (node ∷ []) ≡ m ∷ [])
        × (m.name ≡ node.name)
        × (m.timestamp ≡ q.timestamp)
        × (m.window ≡ sub q.timestamp p.timestamp)
        × (ready t ≡ true)
  unfolding get_node_metrics store
  two_scrapes-serve_node s earlier later node p q scraped again newer start cpu =
      let last = store-last (Node.store s.nodes earlier) later node.name ∙ again in
      let prev = prev_of_both s.nodes earlier later node.name p q scraped again newer in
      elim (Result-cases (resource_usage fl qs q p)) [
        | inl (e, bad) ↦ absurd (resource_usage_computed fl qs q p start cpu e bad)
        | inr ((usage, info), good) ↦
            let (_, _, timestamp, window) = resource_usage-ok fl qs q p usage info good in
            (
              _,
              node_item fl qs (Node.store (Node.store s.nodes earlier) later) now node p q usage
                  info last prev good,
              refl,
              timestamp,
              window,
              ready_of_prev _ node.name p prev,
            )
      ]

  -- Whatever was stored before, once two scrapes in a row have found a pod, a request for the pod is
  -- answered with one item of it, if the second has a container of it, and each container of the
  -- second is fresh or has an older sample, since its start, in the first.
  pub two_scrapes-serve_pod :
      (s : Storage) (earlier later : MetricsBatch) (pod : PartialObjectMetadata) (name : GoString)
      (q : MetricsPoint)
      → find (pod_ref pod) name later.pods ≡ some q
      → ((name : GoString) (q : MetricsPoint)
          → find (pod_ref pod) name later.pods ≡ some q
          → HasPrevious s.pods earlier (pod_ref pod) name q)
      → map item_ref (get_pod_metrics fl qs (store (store s earlier) later) now (pod ∷ []))
        ≡ pod_ref pod ∷ []
  unfolding get_pod_metrics store
  two_scrapes-serve_pod s earlier later pod name q here each =
      get_metrics-refs fl qs (Pod.store (Pod.store s.pods earlier) later) now (pod ∷ [])
      ∙ rw (two_batches-reportable s.pods earlier later (pod_ref pod) pod name q refl here each)
