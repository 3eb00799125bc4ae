-- ===== src/Storage/Node.antt =====
-- pkg/storage/node.go: the store of the last two node points.
pub mod Lookups
pub mod Ordered
pub mod Reports
pub mod Live
pub mod Alike
use metrics_server.Prelude.{
  ℕ, zero, suc, Option, none, some, List, [], ◌∷◌, Bool, GoString, gostring_eq, if◌then◌else◌,
  ◌>>=?◌, length,
}
use metrics_server.Prelude.Dict.{Dict, lookup, contains, insert}
use metrics_server.Go.Time.{Time, before, after}
use metrics_server.Go.Float.{Floats}
use metrics_server.Go.Result.{ok, err}
use metrics_server.Kube.{Node, NodeMetrics, Quantities, ResourceList}
use metrics_server.Storage.Types.{MetricsPoint, MetricsBatch, TimeInfo, resource_usage}

pub record NodeStorage : Type 0 where
  pub last : Dict GoString MetricsPoint
  pub prev : Dict GoString MetricsPoint
  -- the gauge `points_stored` with the label "node"
  pub points_stored : ℕ

-- `var nodes nodeStorage`: nil maps
abbrev pub empty : NodeStorage
empty = record { last = []; prev = []; points_stored = 0 }

-- The maps `lastNodes` and `prevNodes` under construction.
abbrev pub Maps : Type 0
Maps = Dict GoString MetricsPoint × Dict GoString MetricsPoint

-- The statement `if lastNode, found := s.last[nodeName]; found { ... }`, on `prevNodes`.
store_prev :
    NodeStorage → GoString → MetricsPoint → Dict GoString MetricsPoint → Dict GoString MetricsPoint
store_prev s name point prevs = elim (lookup name s.last) [
  | none ↦ prevs
  | some last_node ↦
      if after point.timestamp last_node.timestamp
      then insert name last_node prevs
      else elim (lookup name s.prev) [
        | none ↦ prevs
        | some prev_point ↦
            if before prev_point.timestamp point.timestamp
            then insert name prev_point prevs
            else prevs
      ]
]

-- One round of the loop over `batch.Nodes`.
store_point : NodeStorage → GoString → MetricsPoint → Maps → Maps
unfolding store_prev
store_point s name point (lasts, prevs) =
    if contains name lasts
    then (lasts, prevs)
    else (insert name point lasts, store_prev s name point prevs)

store_points : NodeStorage → Dict GoString MetricsPoint → Maps → Maps
unfolding store_point
store_points s [] maps = maps
store_points s ((name, point) ∷ batch) maps = store_points s batch (store_point s name point maps)

unfoldable pub store : NodeStorage → MetricsBatch → NodeStorage
unfolding store_points
store s batch =
    let (lasts, prevs) = store_points s batch.nodes ([], []) in
    record { last = lasts; prev = prevs; points_stored = length prevs }

module _ {F Q : Type 0} (fl : Floats F) (qs : Quantities Q) where
  -- The loop's body up to the `append`: `none` is a `continue`.
  pub node_usage : NodeStorage → GoString → Option (ResourceList Q × TimeInfo)
  node_usage s name = lookup name s.last >>=? λ last. lookup name s.prev >>=? λ prev.
      elim (resource_usage fl qs last prev) [ ok usage ↦ some usage | err e ↦ none ]

  -- `now i` is the i-th reading of `time.Now()`.
  collect : NodeStorage → (ℕ → Time) → ℕ → List Node → List (NodeMetrics Q)
  collect s now i [] = []
  collect s now i (node ∷ nodes) = elim (node_usage s node.name) [
    | none ↦ collect s now i nodes
    | some (usage, info) ↦
        record {
          name = node.name;
          labels = node.labels;
          creation_timestamp = now i;
          timestamp = info.timestamp;
          window = info.window;
          usage = usage;
        }
        ∷ collect s now (suc i) nodes
  ]

  -- The error that GetMetrics returns is always nil.
  unfoldable pub get_metrics : NodeStorage → (ℕ → Time) → List Node → List (NodeMetrics Q)
  unfolding node_usage collect
  get_metrics s now nodes = collect s now 0 nodes
