-- ===== src/Storage/Node/Live.antt =====
-- Two samples of a node in a row, and what GetMetrics of pkg/storage/node.go makes of them.
use metrics_server.Prelude.{ℕ, ◌≡◌, ◌<◌, [], ◌∷◌, some, arith, GoString, gostring_eq}
use metrics_server.Prelude.Dict.{lookup}
use metrics_server.Go.Time.{Time}
use metrics_server.Go.Float.{Floats}
use metrics_server.Go.Result.{ok}
use metrics_server.Kube.{Node, Quantities, ResourceList}
use metrics_server.Storage.Types.{MetricsPoint, MetricsBatch, TimeInfo, resource_usage}
use metrics_server.Storage.Node.{NodeStorage, store, node_usage, collect, get_metrics}
use metrics_server.Storage.Node.Lookups.{store-last, store-prev}

module _ (s : NodeStorage) (earlier later : MetricsBatch) (name : GoString)
    (p q : MetricsPoint) where
  pub prev_of_both :
      lookup name earlier.nodes ≡ some p
      → lookup name later.nodes ≡ some q
      → p.timestamp < q.timestamp
      → lookup name (store (store s earlier) later).prev ≡ some p
  prev_of_both scraped again newer =
      ground (arith, store-prev (store s earlier) later name, store-last s earlier name)

module _ {F Q : Type 0} (fl : Floats F) (qs : Quantities Q) (s : NodeStorage) (now : ℕ → Time) where
  pub node_item :
      (node : Node) (p q : MetricsPoint) (usage : ResourceList Q) (info : TimeInfo)
      → lookup node.name s.last ≡ some q
      → lookup node.name s.prev ≡ some p
      → resource_usage fl qs q p ≡ ok (usage, info)
      → get_metrics fl qs s now (node ∷ [])
        ≡ record {
          name = node.name;
          labels = node.labels;
          creation_timestamp = now 0;
          timestamp = info.timestamp;
          window = info.window;
          usage = usage;
        }
          ∷ []
  unfolding get_metrics node_usage collect
  node_item node p q usage info l r u = ground arith
