-- ===== src/Storage/Node/Alike.antt =====
-- GetMetrics of pkg/storage/node.go sees the maps of a storage by their keys only.
use metrics_server.Prelude.{ℕ, suc, ◌≡◌, refl, [], ◌∷◌, List, GoString, gostring_eq, arith}
use metrics_server.Prelude.Dict.{lookup}
use metrics_server.Go.Time.{Time}
use metrics_server.Go.Float.{Floats}
use metrics_server.Kube.{Node, Quantities}
use metrics_server.Storage.Node.{NodeStorage, node_usage, collect, get_metrics}

module _ {F Q : Type 0} (fl : Floats F) (qs : Quantities Q) (s t : NodeStorage)
    (last : (name : GoString) → lookup name s.last ≡ lookup name t.last)
    (prev : (name : GoString) → lookup name s.prev ≡ lookup name t.prev) where
  node_usage-alike : (name : GoString) → node_usage fl qs s name ≡ node_usage fl qs t name
  unfolding node_usage
  node_usage-alike name = rw (last name, prev name) refl

  collect-alike :
      (now : ℕ → Time) (i : ℕ) (nodes : List Node)
      → collect fl qs s now i nodes ≡ collect fl qs t now i nodes
  unfolding collect
  collect-alike now i [] = refl
  collect-alike now i (node ∷ nodes) = ground (
    arith,
    node_usage-alike node.name,
    collect-alike now i nodes,
    collect-alike now (suc i) nodes,
  )

  pub get_metrics-alike :
      (now : ℕ → Time) (nodes : List Node)
      → get_metrics fl qs s now nodes ≡ get_metrics fl qs t now nodes
  unfolding get_metrics
  get_metrics-alike now nodes = collect-alike now 0 nodes
